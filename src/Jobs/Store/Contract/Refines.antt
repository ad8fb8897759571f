-- ===== src/Jobs/Store/Contract/Refines.antt =====
-- The table keeps the contract of the store.
use mangarr_gateway.Prelude.{
  Bool, Bool-cases, List, String, [], any, ap, arith, false, inl, inr, keep, none, not, refl, some,
  true, ◌&&◌, ◌||◌, ◌∷◌, ◌≡◌, ◌⊎◌,
}
use mangarr_gateway.Jobs.Model.{Job, is_live}
use mangarr_gateway.Jobs.Row.{row_to_job, job_values}
use mangarr_gateway.Jobs.Store.{Table, Result-cases, err, has_id, live_for, StoreError}
use mangarr_gateway.Jobs.Store
use mangarr_gateway.Jobs.Store.Valid.{
  IsValid, IsValid-empty, insert-IsValid, update-IsValid, delete-IsValid, insert_tests,
  update_tests,
}
use mangarr_gateway.Jobs.Store.Lookup.{
  first_row-some, first_row-some, find_live-some, find_live-none, get-insert, get-update,
  get-delete,
}
use mangarr_gateway.Jobs.Store.Contract.{
  Request, insert, update, delete, get, find_live_by_handle, found, serve, HasLive, HasOtherLive,
  Allows, Conforms,
}
use mangarr_gateway.Jobs.Store.Contract.Live.{
  get-eq_none, get-first_row, other_live, any-HasLive, any-HasOtherLive, HasLive-any,
  HasOtherLive-any,
}

-- One side of a test, as a sum.
or_cases : (a b c : Bool) → (a || (b && c)) ≡ true → (a ≡ true) ⊎ ((b ≡ true) × (c ≡ true))
or_cases true b c e = inl refl
or_cases false true true e = inr (refl, refl)
or_cases false true false e = cc
or_cases false false c e = cc

none_live :
    {P : Type 0} (b : Bool) (x : Bool)
    → (b ≡ true → x ≡ false)
    → (P → x ≡ true)
    → (b ≡ false) ⊎ (¬ P)
none_live false x h k = inl refl
none_live true x h k = inr (λ p. cc (h refl, k p))

any-some : (t : Table) (i : String) → any (has_id i) t ≡ true → (j : Job) × (Store.get t i ≡ some j)
unfolding Store.get
any-some t i e = let (r, f, _) = first_row-some (has_id i) t e in (row_to_job r, f)

insert-Allows :
    (j : Job) (t : Table)
    → IsValid t
    → Allows (insert j) (Store.get t) (serve (insert j) t).0 (Store.get (serve (insert j) t).1)
unfolding serve
insert-Allows j t v = elim (Result-cases (Store.insert t j)) [
  | inl (t', e) ↦
      let (_, fresh, alone) = insert_tests t t' j e in
      rw (serve, e)
        (inl (
          refl,
          get-eq_none t j.job_id fresh,
          none_live (is_live j.status) (any (live_for j.release_handle) t) alone
              (HasLive-any t j.release_handle),
          λ i. get-insert t t' j i e,
        ))
  | inr (bad, e) ↦ rw (serve, e) (inr (refl, why (refused_tests bad e), λ i. refl))
]
  where
    refused_tests :
        (bad : StoreError)
        → Store.insert t j ≡ err bad
        → (any (has_id j.job_id) t || (is_live j.status && any (live_for j.release_handle) t))
          ≡ true
    refused_tests bad e = unfold Store.insert job_values in ground arith

    why :
        (any (has_id j.job_id) t || (is_live j.status && any (live_for j.release_handle) t)) ≡ true
        → ((k : Job) × (Store.get t j.job_id ≡ some k))
          ⊎ ((is_live j.status ≡ true) × HasLive j.release_handle (Store.get t))
    why e =
        elim (or_cases (any (has_id j.job_id) t) (is_live j.status)
          (any (live_for j.release_handle) t) e) [
            | inl there ↦ inl (any-some t j.job_id there)
            | inr (live, taken) ↦ inr (live, any-HasLive t j.release_handle v taken)
          ]

update-Allows :
    (j : Job) (t : Table)
    → IsValid t
    → Allows (update j) (Store.get t) (serve (update j) t).0 (Store.get (serve (update j) t).1)
unfolding serve
update-Allows j t v = elim (Result-cases (Store.update t j)) [
  | inl (t', e) ↦
      let (_, there, alone) = update_tests t t' j e in
      rw (serve, e)
        (inl (
          refl,
          any-some t j.job_id there,
          none_live (is_live j.status) (any (other_live j.job_id j.release_handle) t) alone
              (HasOtherLive-any t j.job_id j.release_handle),
          λ i. get-update t t' j i e,
        ))
  | inr (bad, e) ↦ rw (serve, e) (inr (refl, why (refused_tests bad e), λ i. refl))
]
  where
    refused_tests :
        (bad : StoreError)
        → Store.update t j ≡ err bad
        → (not (any (has_id j.job_id) t)
            || (is_live j.status && any (other_live j.job_id j.release_handle) t))
          ≡ true
    refused_tests bad e = unfold Store.update job_values in ground arith

    why :
        (not (any (has_id j.job_id) t)
            || (is_live j.status && any (other_live j.job_id j.release_handle) t))
          ≡ true
        → (Store.get t j.job_id ≡ none)
          ⊎ ((is_live j.status ≡ true) × HasOtherLive j.job_id j.release_handle (Store.get t))
    why e =
        elim (or_cases (not (any (has_id j.job_id) t)) (is_live j.status)
          (any (other_live j.job_id j.release_handle) t) e) [
            | inl absent ↦ inl (get-eq_none t j.job_id (ground arith))
            | inr (live, taken) ↦ inr (live, any-HasOtherLive t j.job_id j.release_handle v taken)
          ]

find-Allows :
    (h : String) (t : Table)
    → IsValid t
    → Allows (find_live_by_handle h) (Store.get t) (serve (find_live_by_handle h) t).0 (Store.get t)
unfolding serve
find-Allows h t v = elim (Bool-cases (any (live_for h) t)) [
  | inl e ↦
      let (j, f, under, live) = find_live-some t h e in
      (
        inl (
          j,
          ap found f,
          get-first_row (live_for h) t j (v.ids j.job_id) (unfold Store.find_live_by_handle in f),
          live,
          under,
        ),
        λ i. refl,
      )
  | inr e ↦ (inr (ap found (find_live-none t h e), λ p. cc (e, HasLive-any t h p)), λ i. refl)
]

serve-Allows :
    (q : Request) (t : Table)
    → IsValid t
    → Allows q (Store.get t) (serve q t).0 (Store.get (serve q t).1)
serve-Allows (insert j) t v = insert-Allows j t v
serve-Allows (update j) t v = update-Allows j t v
serve-Allows (delete i) t v = unfold serve in (refl, λ k. get-delete t i k)
serve-Allows (get i) t v = unfold serve in (refl, λ k. refl)
serve-Allows (find_live_by_handle h) t v = unfold serve in find-Allows h t v

serve-IsValid : (q : Request) (t : Table) → IsValid t → IsValid (serve q t).1
unfolding serve
serve-IsValid (insert j) t v = elim (Result-cases (Store.insert t j)) [
  | inl (t', e) ↦ rw (serve, e) (insert-IsValid t t' j v e)
  | inr (bad, e) ↦ rw (serve, e) v
]
serve-IsValid (update j) t v = elim (Result-cases (Store.update t j)) [
  | inl (t', e) ↦ rw (serve, e) (update-IsValid t t' j v e)
  | inr (bad, e) ↦ rw (serve, e) v
]
serve-IsValid (delete i) t v = delete-IsValid t i v
serve-IsValid (get i) t v = v
serve-IsValid (find_live_by_handle h) t v = v

valid-Conforms : (qs : List Request) (t : Table) → IsValid t → Conforms qs (Store.get t) t
valid-Conforms [] t v = tt
valid-Conforms (q ∷ qs) t v = (
  Store.get (serve q t).1,
  serve-Allows q t v,
  valid-Conforms qs (serve q t).1 (serve-IsValid q t v),
)

-- From the empty table, whatever is asked, the store answers as its contract allows: as a map from
-- ids to jobs that refuses a second live job under a release handle, and an id that is taken or, for
-- an update, unknown; and that finds the live job of a handle exactly where there is one.
pub serve-Conforms : (qs : List Request) → Conforms qs (λ _. none) []
serve-Conforms qs = unfold Store.get keep in valid-Conforms qs [] IsValid-empty
