-- ===== src/Handles/Store/Fresh.antt =====
-- A handle resolves while it is fresh, and after a restart.
use mangarr_gateway.Prelude.{
  Bool, List, Option-cases, String, [], any, arith, false, inl, inr, keep, leb, none, not, refl,
  some, ℕ, ◌&&◌, ◌+◌, ◌<◌, ◌∙◌, ◌∷◌, ◌≡◌, ◌≤◌,
}
use mangarr_gateway.Handles.Record.{ResolutionRecord}
use mangarr_gateway.Handles.Store.{
  Row, TtlCache, HandleStore, mint, resolve, resolve_from_db, record_from_row, has_handle, select,
  load, rehydrate, open_store,
}

module _ {C : Type 0} (ops : TtlCache C) where
  -- A minted handle resolves to its record for `ttl` by the clock of the cache, with or without a
  -- table and whatever the wall clock says.
  pub resolve-mint :
      (token : String) (loop : Bool) (mono wall later wall' : ℕ) (r : ResolutionRecord)
      (s : HandleStore C)
      → mono ≤ later
      → later < mono + ops.ttl
      → (resolve ops later wall' token (mint ops token loop mono wall r s).1).0 ≡ some r
  unfolding resolve mint
  resolve-mint token loop mono wall later wall' r s l b =
      ground (arith, ops.get-put mono later token r s.cache l b)

  -- A handle that is not in the cache and that its row has answered is answered again for `ttl`
  -- from then, whatever the wall clock says: also after the row's expires_at.
  pub resolve-warmed :
      (mono wall later wall' : ℕ) (h : String) (rows : List Row) (r : ResolutionRecord)
      (s : HandleStore C)
      → ops.get mono h s.cache ≡ none
      → s.rows ≡ some rows
      → (resolve ops mono wall h s).0 ≡ some r
      → mono ≤ later
      → later < mono + ops.ttl
      → (resolve ops later wall' h (resolve ops mono wall h s).1).0 ≡ some r
  unfolding resolve resolve_from_db
  resolve-warmed mono wall later wall' h rows r s miss e a l b =
      elim (Option-cases (select rows h)) [
        | inl n ↦ ground (arith, n)
        | inr (row, f) ↦
            ground (arith, f, ops.get-put mono later h (record_from_row row) s.cache l b)
      ]

  -- What the cache answers for a handle that no loaded row has was there before.
  load-other :
      (mono later : ℕ) (h : String) (rows : List Row) (c : C) (q : ResolutionRecord)
      → any (has_handle h) rows ≡ false
      → ops.get later h (load ops mono rows c) ≡ some q
      → ops.get later h c ≡ some q
  unfolding load
  load-other mono later h [] c q n g = g
  load-other mono later h (x ∷ rows) c q n g =
      ops.get-put_other mono later x.handle h (record_from_row x) q c (ground arith)
        (load-other mono later h rows _ q (ground arith) g)

  resolve-miss :
      (later wall : ℕ) (h : String) (s : HandleStore C) (rows : List Row)
      → ops.get later h s.cache ≡ none
      → s.rows ≡ some rows
      → select rows h ≡ none
      → (resolve ops later wall h s).0 ≡ none
  unfolding resolve resolve_from_db
  resolve-miss later wall h s rows g e n = ground arith

  select-none :
      (h : String) (rows : List Row) → any (has_handle h) rows ≡ false → select rows h ≡ none
  unfolding select keep
  select-none h [] n = refl
  select-none h (x ∷ rows) n = ground (arith, select-none h rows)

  any-keep : (p q : Row → Bool) (rows : List Row) → any p (keep q rows) ≡ any (λ x. p x && q x) rows
  unfolding keep
  any-keep p q [] = refl
  any-keep p q (x ∷ rows) = ground (arith, any-keep p q rows)

  load-none :
      (mono later : ℕ) (h : String) (rows : List Row)
      → any (has_handle h) rows ≡ false
      → ops.get later h (load ops mono rows ops.empty) ≡ none
  load-none mono later h rows n =
      elim (Option-cases (ops.get later h (load ops mono rows ops.empty))) [
        | inl e ↦ e
        | inr (q, g) ↦
            let x = load-other mono later h rows ops.empty q n g in
            ground (arith, x, ops.get-empty later h)
      ]

  -- A handle that has no live row when the store is opened, its rows expired or absent, does not
  -- resolve, at any later time.
  pub resolve-expired :
      (h : String) (mono wall later wall' : ℕ) (rows : List Row)
      → any (λ x. has_handle h x && not (leb x.expires_at wall)) rows ≡ false
      → (resolve ops later wall' h (open_store ops mono wall rows)).0 ≡ none
  unfolding open_store rehydrate
  resolve-expired h mono wall later wall' rows n =
      let fresh : Row → Bool = λ x. not (leb x.expires_at wall) in
      let gone = any-keep (has_handle h) fresh rows ∙ n in
      resolve-miss later wall' h (open_store ops mono wall rows) (keep fresh rows)
        (load-none mono later h (keep fresh rows) gone) refl (select-none h (keep fresh rows) gone)
