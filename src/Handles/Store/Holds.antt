-- ===== src/Handles/Store/Holds.antt =====
-- What holds of every record that a store can answer, kept by its operations.
use mangarr_gateway.Prelude.{
  All, Bool, Bool-cases, List, Option, Option-cases, String, [], arith, false, inl, inr, keep, leb,
  none, not, refl, some, string_eq, subst, sym, true, ℕ, ◌++◌, ◌+◌, ◌==◌, ◌∷◌, ◌≡◌,
}
use mangarr_gateway.Handles.Record.{ResolutionRecord}
use mangarr_gateway.Handles.Store.{
  Row, row_values, record_from_row, TtlCache, HandleStore, has_handle, replace, select, mint,
  from_row, resolve, resolve_from_db, load, rehydrate, persist,
}

abbrev pub rows_of : Option (List Row) → List Row
rows_of none = []
rows_of (some rows) = rows

module _ {C : Type 0} (ops : TtlCache C) (P : String → ResolutionRecord → Type 0) where
  abbrev pub CacheHolds : C → Type 0
  CacheHolds c = (now : ℕ) (k : String) (r : ResolutionRecord) → ops.get now k c ≡ some r → P k r

  abbrev pub RowsHold : List Row → Type 0
  RowsHold = All (λ x. P x.handle (record_from_row x))

  pub record Holds (s : HandleStore C) : Type 0 where
    pub cache : CacheHolds s.cache
    pub rows : RowsHold (rows_of s.rows)
    pub pending : RowsHold s.pending

  put-Holds :
      (mono : ℕ) (k : String) (r : ResolutionRecord) (c : C)
      → P k r
      → CacheHolds c
      → CacheHolds (ops.put mono k r c)
  put-Holds mono k r c p h now j q g = elim (Bool-cases (k == j)) [
    | inl e ↦
        let same = (string_eq.beq_iff k j).0 e in
        let g' = subst (λ i. ops.get now i (ops.put mono k r c) ≡ some q) (sym same) g in
        subst (λ i. P i q) same (subst (λ x. P k x) (sym (ops.get-put_same mono now k r q c g')) p)
    | inr n ↦ h now j q (ops.get-put_other mono now k j r q c n g)
  ]

  keep-Holds : (p : Row → Bool) (rows : List Row) → RowsHold rows → RowsHold (keep p rows)
  unfolding keep
  keep-Holds p [] h = tt
  keep-Holds p (x ∷ rows) h = elim (Bool-cases (p x)) [
    | inl e ↦ rw e (h.0, keep-Holds p rows h.1)
    | inr e ↦ rw e (keep-Holds p rows h.1)
  ]

  append-Holds :
      (rows : List Row) (x : Row)
      → RowsHold rows
      → P x.handle (record_from_row x)
      → RowsHold (rows ++ x ∷ [])
  append-Holds [] x h p = (p, tt)
  append-Holds (y ∷ rows) x h p = (h.0, append-Holds rows x h.1 p)

  load-Holds :
      (mono : ℕ) (rows : List Row) (c : C)
      → RowsHold rows
      → CacheHolds c
      → CacheHolds (load ops mono rows c)
  unfolding load
  load-Holds mono [] c h k = k
  load-Holds mono (x ∷ rows) c h k =
      load-Holds mono rows _ h.1 (put-Holds mono x.handle (record_from_row x) c h.0 k)

  select-Holds :
      (rows : List Row) (h : String) (x : Row)
      → RowsHold rows
      → select rows h ≡ some x
      → P h (record_from_row x)
  unfolding select keep
  select-Holds [] h x a e = cc
  select-Holds (y ∷ rows) h x a e = elim (Bool-cases (has_handle h y)) [
    | inl t ↦
        let same : y ≡ x = ground (arith, e, t) in
        subst (λ z. P h (record_from_row z)) same
          (subst (λ k. P k (record_from_row y)) ((string_eq.beq_iff y.handle h).0 t) a.0)
    | inr t ↦ select-Holds rows h x a.1 (ground arith)
  ]

  pub mint-Holds :
      (token : String) (loop : Bool) (mono wall : ℕ) (r : ResolutionRecord) (c : C)
      (o : Option (List Row)) (ps : List Row)
      → P token r
      → CacheHolds c
      → RowsHold (rows_of o)
      → RowsHold ps
      → Holds (mint ops token loop mono wall r (record { cache = c; rows = o; pending = ps })).1
  unfolding mint row_values record_from_row
  mint-Holds token loop mono wall r c none ps p h rs qs = record {
    cache = put-Holds mono token r c p h;
    rows = rs;
    pending = qs;
  }
  mint-Holds token true mono wall r c (some rows) ps p h rs qs = record {
    cache = put-Holds mono token r c p h;
    rows = rs;
    pending = append-Holds ps (row_values token r (wall + ops.ttl)) qs p;
  }
  mint-Holds token false mono wall r c (some rows) ps p h rs qs = record {
    cache = put-Holds mono token r c p h;
    rows = rs;
    pending = qs;
  }

  pub rehydrate-Holds :
      (mono wall : ℕ) (c : C) (o : Option (List Row)) (ps : List Row)
      → CacheHolds c
      → RowsHold (rows_of o)
      → RowsHold ps
      → Holds (rehydrate ops mono wall (record { cache = c; rows = o; pending = ps })).1
  unfolding rehydrate
  rehydrate-Holds mono wall c none ps h rs qs = record { cache = h; rows = rs; pending = qs }
  rehydrate-Holds mono wall c (some rows) ps h rs qs =
      let live = keep-Holds (λ r. not (leb r.expires_at wall)) rows rs in
      record { cache = load-Holds mono _ c live h; rows = live; pending = qs }

  pub persist-Holds :
      (written : Bool) (c : C) (o : Option (List Row)) (ps : List Row)
      → CacheHolds c
      → RowsHold (rows_of o)
      → RowsHold ps
      → Holds (persist written (record { cache = c; rows = o; pending = ps }))
  unfolding persist replace
  persist-Holds w c o [] h rs qs = record { cache = h; rows = rs; pending = qs }
  persist-Holds w c none (x ∷ ps) h rs qs = record { cache = h; rows = rs; pending = qs.1 }
  persist-Holds true c (some rows) (x ∷ ps) h rs qs = record {
    cache = h;
    rows = append-Holds _ x (keep-Holds (λ y. not (has_handle x.handle y)) rows rs) qs.0;
    pending = qs.1;
  }
  persist-Holds false c (some rows) (x ∷ ps) h rs qs = record {
    cache = h;
    rows = rs;
    pending = qs.1;
  }

  from_row-Holds :
      (mono wall : ℕ) (k : String) (rows : List Row) (o : Option Row) (s : HandleStore C)
      → RowsHold rows
      → ((x : Row) → o ≡ some x → P k (record_from_row x))
      → Holds s
      → Holds (from_row ops mono wall k rows o s).1
        × ((r : ResolutionRecord) → (from_row ops mono wall k rows o s).0 ≡ some r → P k r)
  from_row-Holds mono wall k rows none s a f h = (h, λ r e. cc)
  from_row-Holds mono wall k rows (some x) s a f h = elim (Bool-cases (leb x.expires_at wall)) [
    | inl e ↦ rw e (
      record {
        cache = h.cache;
        rows = keep-Holds (λ y. not (has_handle k y)) rows a;
        pending = h.pending;
      },
      λ r q. cc,
    )
    | inr e ↦ rw e (
      record {
        cache = put-Holds mono k (record_from_row x) s.cache (f x refl) h.cache;
        rows = h.rows;
        pending = h.pending;
      },
      λ r q. let same : record_from_row x ≡ r = ground (arith, q) in subst (P k) same (f x refl),
    )
  ]

  pub resolve-Holds :
      (mono wall : ℕ) (k : String) (s : HandleStore C)
      → Holds s
      → Holds (resolve ops mono wall k s).1
        × ((r : ResolutionRecord) → (resolve ops mono wall k s).0 ≡ some r → P k r)
  unfolding resolve resolve_from_db
  resolve-Holds mono wall k s h = elim (Option-cases (ops.get mono k s.cache)) [
    | inl n ↦ elim (Option-cases s.rows) [
      | inl e ↦ rw (resolve, n, e) (h, λ r q. cc)
      | inr (rows, e) ↦
          let a = subst (λ o. RowsHold (rows_of o)) e h.rows in
          rw (resolve, n, e)
            (from_row-Holds mono wall k rows (select rows k) s a (λ x f. select-Holds rows k x a f)
              h)
    ]
    | inr (r, e) ↦
        rw (resolve, e)
          (h, λ q g. let same : r ≡ q = ground (arith, g) in subst (P k) same (h.cache mono k r e))
  ]
