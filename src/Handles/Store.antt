-- ===== src/Handles/Store.antt =====
-- `HandleStore` of src/manga_gateway/handles/store.py. The in-memory tier is cachetools' `TTLCache`,
-- a parameter with its documented laws. `mono` is a reading of the monotonic clock, by which the
-- cache ages its entries, and `wall` one of `time.time()`, by which the rows do.
pub mod Fresh
pub mod Holds
pub mod Minted
use mangarr_gateway.Prelude.{
  Bool, List, Option, String, [], false, if◌then◌else◌, keep, leb, length, none, not, some,
  string_eq, ℕ, ◌++◌, ◌+◌, ◌<◌, ◌==◌, ◌∷◌, ◌≡◌, ◌≤◌,
}
use mangarr_gateway.Handles.Record.{ResolutionRecord}

-- The columns of `_CREATE_SCHEMA`. A Decimal is its text.
pub record Row : Type 0 where
  pub handle : String
  pub source_key : String
  pub chapter_id : String
  pub language : String
  pub title : String
  pub manga_title : Option String
  pub chapter_number : Option String
  pub volume : Option ℕ
  pub scanlation_group : Option String
  pub page_count : Option ℕ
  pub expires_at : ℕ

-- `_row_values`
unfoldable pub row_values : String → ResolutionRecord → ℕ → Row
row_values handle r expires_at = record {
  handle = handle;
  source_key = r.source_key;
  chapter_id = r.chapter_id;
  language = r.language;
  title = r.title;
  manga_title = r.manga_title;
  chapter_number = r.chapter_number;
  volume = r.volume;
  scanlation_group = r.scanlation_group;
  page_count = r.page_count;
  expires_at = expires_at;
}

-- `_record_from_row`
unfoldable pub record_from_row : Row → ResolutionRecord
record_from_row r = record {
  source_key = r.source_key;
  chapter_id = r.chapter_id;
  language = r.language;
  title = r.title;
  manga_title = r.manga_title;
  chapter_number = r.chapter_number;
  volume = r.volume;
  scanlation_group = r.scanlation_group;
  page_count = r.page_count;
}

-- `TTLCache`: an entry is there for `ttl` from its assignment, unless an assignment to another key
-- evicts it.
pub record TtlCache (C : Type 0) : Type 0 where
  pub ttl : ℕ
  pub empty : C
  pub get : ℕ → String → C → Option ResolutionRecord
  pub put : ℕ → String → ResolutionRecord → C → C
  pub get-empty : (now : ℕ) (k : String) → get now k empty ≡ none
  pub get-put :
      (now later : ℕ) (k : String) (r : ResolutionRecord) (c : C)
      → now ≤ later
      → later < now + ttl
      → get later k (put now k r c) ≡ some r
  pub get-put_same :
      (now later : ℕ) (k : String) (r q : ResolutionRecord) (c : C)
      → get later k (put now k r c) ≡ some q
      → q ≡ r
  pub get-put_other :
      (now later : ℕ) (k j : String) (r q : ResolutionRecord) (c : C)
      → (k == j) ≡ false
      → get later j (put now k r c) ≡ some q
      → get later j c ≡ some q

-- The cache, the table if there is a connection, and the persist tasks that have not run.
pub record HandleStore (C : Type 0) : Type 0 where
  pub cache : C
  pub rows : Option (List Row)
  pub pending : List Row

abbrev pub has_handle : String → Row → Bool
has_handle h r = r.handle == h

-- INSERT OR REPLACE
unfoldable pub replace : List Row → Row → List Row
replace rows r = keep (λ x. not (has_handle r.handle x)) rows ++ r ∷ []

abbrev pub first_row : List Row → Option Row
first_row [] = none
first_row (r ∷ _) = some r

-- SELECT * FROM handles WHERE handle = ?
unfoldable pub select : List Row → String → Option Row
select rows h = first_row (keep (has_handle h) rows)

module _ {C : Type 0} (ops : TtlCache C) where
  -- `mint`, with the token that `secrets.token_urlsafe` answers. Without a running loop nothing is
  -- scheduled.
  unfoldable pub mint :
      String → Bool → ℕ → ℕ → ResolutionRecord → HandleStore C → String × HandleStore C
  unfolding row_values
  mint token loop mono wall r s =
      let s' = record s { cache = ops.put mono token r s.cache } in
      elim s.rows [
        | none ↦ (token, s')
        | some _ ↦
            if loop
            then (
              token,
              record s' { pending = s.pending ++ row_values token r (wall + ops.ttl) ∷ [] },
            )
            else (token, s')
      ]

  -- `_resolve_from_db`: an expired row is a miss and is pruned, a live one warms the cache again.
  abbrev pub from_row :
      ℕ
      → ℕ
      → String
      → List Row
      → Option Row
      → HandleStore C
      → Option ResolutionRecord × HandleStore C
  from_row mono wall h rows none s = (none, s)
  from_row mono wall h rows (some r) s =
      if leb r.expires_at wall
      then (none, record s { rows = some (keep (λ x. not (has_handle h x)) rows) })
      else (
        some (record_from_row r),
        record s { cache = ops.put mono h (record_from_row r) s.cache },
      )

  unfoldable pub resolve_from_db :
      ℕ → ℕ → String → List Row → HandleStore C → Option ResolutionRecord × HandleStore C
  unfolding select record_from_row
  resolve_from_db mono wall h rows s = from_row mono wall h rows (select rows h) s

  unfoldable pub resolve : ℕ → ℕ → String → HandleStore C → Option ResolutionRecord × HandleStore C
  unfolding resolve_from_db
  resolve mono wall h s = elim (ops.get mono h s.cache) [
    | some r ↦ (some r, s)
    | none ↦ elim s.rows [ none ↦ (none, s) | some rows ↦ resolve_from_db mono wall h rows s ]
  ]

  unfoldable pub load : ℕ → List Row → C → C
  unfolding record_from_row
  load mono [] c = c
  load mono (r ∷ rs) c = load mono rs (ops.put mono r.handle (record_from_row r) c)

  -- `rehydrate`: the rows that have expired are deleted, and the others loaded.
  unfoldable pub rehydrate : ℕ → ℕ → HandleStore C → ℕ × HandleStore C
  unfolding load
  rehydrate mono wall s = elim s.rows [
    | none ↦ (0, s)
    | some rows ↦
        let live = keep (λ r. not (leb r.expires_at wall)) rows in
        (length live, record s { cache = load mono live s.cache; rows = some live })
  ]

  -- `open_handle_store` on the rows that the disk has
  unfoldable pub open_store : ℕ → ℕ → List Row → HandleStore C
  unfolding rehydrate
  open_store mono wall rows =
      (rehydrate mono wall (record { cache = ops.empty; rows = some rows; pending = [] })).1

-- `_persist` of the oldest task: it writes its row, or fails and is forgotten.
unfoldable pub persist : {C : Type 0} → Bool → HandleStore C → HandleStore C
unfolding replace
persist written s = elim s.pending [
  | [] ↦ s
  | r ∷ rs ↦ elim s.rows [
    | none ↦ record s { pending = rs }
    | some rows ↦ record s { pending = rs; rows = some (if written then replace rows r else rows) }
  ]
]
