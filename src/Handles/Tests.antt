-- ===== src/Handles/Tests.antt =====
-- A concrete cache, which evicts nothing, and concrete inputs for the theorems on the handles.
use mangarr_gateway.Prelude.{
  Bool-cases, List, Option, String, [], arith, beq_refl, false, if◌then◌else◌, inl, inr, keep, ltb,
  lt→ltb, none, refl, some, string_eq, sym, true, ℕ, ◌+◌, ◌<◌, ◌==◌, ◌∙◌, ◌∷◌, ◌≡◌, ◌≤◌,
}
use mangarr_gateway.Prelude.Dict
use mangarr_gateway.Prelude.Dict.{Dict}
use mangarr_gateway.Handles.Record.{ResolutionRecord}
use mangarr_gateway.Handles.Store.{
  Row, row_values, record_from_row, TtlCache, HandleStore, replace, select, mint, resolve,
  resolve_from_db, load, rehydrate, open_store, persist,
}
use mangarr_gateway.Handles.Store.Fresh.{resolve-warmed}
use mangarr_gateway.Handles.Store.Minted.{
  Call, minting, persisting, restarting, calls, call, Minted, resolve-Minted,
}

abbrev Entries : Type 0
Entries = Dict String (ResolutionRecord × ℕ)

abbrev fresh : ℕ → Option (ResolutionRecord × ℕ) → Option ResolutionRecord
fresh now none = none
fresh now (some (r, expiry)) = if ltb now expiry then some r else none

fresh_put :
    (now later : ℕ) (k : String) (r : ResolutionRecord) (c : Entries)
    → now ≤ later
    → later < now + 10
    → fresh later (Dict.get (Dict.put c k (r, now + 10)) k) ≡ some r
fresh_put now later k r c l b =
    rw (Dict.get-put c k (r, now + 10) k, beq_refl k, lt→ltb later (now + 10) b) refl

put_same :
    (now later : ℕ) (k : String) (r q : ResolutionRecord) (c : Entries)
    → fresh later (Dict.get (Dict.put c k (r, now + 10)) k) ≡ some q
    → q ≡ r
put_same now later k r q c g = elim (Bool-cases (ltb later (now + 10))) [
  | inl e ↦
      let t : fresh later (Dict.get (Dict.put c k (r, now + 10)) k) ≡ some r =
        rw (Dict.get-put c k (r, now + 10) k, beq_refl k, e) refl in
      cc
  | inr e ↦
      let t : fresh later (Dict.get (Dict.put c k (r, now + 10)) k) ≡ none =
        rw (Dict.get-put c k (r, now + 10) k, beq_refl k, e) refl in
      cc
]

put_other :
    (now later : ℕ) (k j : String) (r q : ResolutionRecord) (c : Entries)
    → (k == j) ≡ false
    → fresh later (Dict.get (Dict.put c k (r, now + 10)) j) ≡ some q
    → fresh later (Dict.get c j) ≡ some q
put_other now later k j r q c n g =
    let t : fresh later (Dict.get (Dict.put c k (r, now + 10)) j) ≡ fresh later (Dict.get c j) =
      rw (Dict.get-put c k (r, now + 10) j, n) refl in
    sym t ∙ g

empty_none : (now : ℕ) (k : String) → fresh now (Dict.get {V = ResolutionRecord × ℕ} [] k) ≡ none
unfolding Dict.get
empty_none now k = refl

abbrev entries : TtlCache Entries
entries = record {
  ttl = 10;
  empty = [];
  get = λ now k c. fresh now (Dict.get c k);
  put = λ now k r c. Dict.put c k (r, now + 10);
  get-empty = empty_none;
  get-put = fresh_put;
  get-put_same = put_same;
  get-put_other = put_other;
}

abbrev release : ResolutionRecord
release = record {
  source_key = "mangadex";
  chapter_id = "c1";
  language = "en";
  title = "One";
  manga_title = some "Series";
  chapter_number = some "1.5";
  volume = none;
  scanlation_group = none;
  page_count = some 20;
}

abbrev opened : HandleStore Entries
opened = record { cache = []; rows = some []; pending = [] }

abbrev row : Row
row = record {
  handle = "h";
  source_key = "mangadex";
  chapter_id = "c1";
  language = "en";
  title = "One";
  manga_title = some "Series";
  chapter_number = some "1.5";
  volume = none;
  scanlation_group = none;
  page_count = some 20;
  expires_at = 110;
}

abbrev stored : HandleStore Entries
stored = record { cache = []; rows = some (row ∷ []); pending = [] }

answered : (resolve entries 5 109 "h" stored).0 ≡ some release
unfolding Dict.get Dict.put resolve resolve_from_db select record_from_row keep
answered = refl

-- At the wall time 118 the row has expired at 110.
resolve-warmed_example :
    (resolve entries 14 118 "h" (resolve entries 5 109 "h" stored).1).0 ≡ some release
unfolding Dict.get
resolve-warmed_example =
    resolve-warmed entries 5 109 14 118 "h" (row ∷ []) release stored refl refl answered
      (omega arith) (omega arith)

abbrev history : List Call
history = restarting 0 105 ∷ persisting true ∷ minting "h" true 3 100 release ∷ []

resolved : (resolve entries 2 106 "h" (calls entries history opened)).0 ≡ some release
unfolding Dict.get Dict.put resolve calls call persist mint row_values record_from_row open_store
    rehydrate load replace keep
resolved = refl

resolve-Minted_example : Minted history "h" release
resolve-Minted_example = resolve-Minted entries history true 2 106 "h" release resolved
