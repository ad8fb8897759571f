-- ===== src/Jobs/Store/Contract/Live.antt =====
-- The live jobs of the contract and the live rows of the table.
use mangarr_gateway.Prelude.{
  Bool, Bool-cases, String, [], any, any-eq-false, any-le, ap, arith, count, false, inl, inr, keep,
  none, not, refl, some, string_eq, true, ◌&&◌, ◌∷◌, ◌≡◌, ◌≤◌,
}
use mangarr_gateway.Jobs.Model.{Job, is_live}
use mangarr_gateway.Jobs.Row.{Row, row_to_job}
use mangarr_gateway.Jobs.Store.{Table, has_id, live_for, first_row}
use mangarr_gateway.Jobs.Store
use mangarr_gateway.Jobs.Store.Valid.{IsValid}
use mangarr_gateway.Jobs.Store.Lookup.{first_row-some, first_row-some}
use mangarr_gateway.Jobs.Store.Contract.{HasLive, HasOtherLive}

-- A job that is read has a row, which passes every test that the job passes.
first_row-any :
    (p q : Row → Bool) (t : Table) (j : Job)
    → ((r : Row) → row_to_job r ≡ j → q r ≡ true)
    → first_row (keep p t) ≡ some j
    → any (λ r. p r && q r) t ≡ true
unfolding keep
first_row-any p q [] j h e = cc
first_row-any p q (r ∷ t) j h e = elim (Bool-cases (p r)) [
  | inl a ↦ ground (arith, h r)
  | inr a ↦ ground (arith, first_row-any p q t j h)
]

pub get-eq_none : (t : Table) (i : String) → any (has_id i) t ≡ false → Store.get t i ≡ none
unfolding Store.get keep
get-eq_none [] i h = refl
get-eq_none (r ∷ t) i h = ground (arith, get-eq_none t i)

first_row-head :
    (p : Row → Bool) (r : Row) (t : Table) (j : Job)
    → p r ≡ true
    → first_row (keep p (r ∷ t)) ≡ some j
    → row_to_job r ≡ j
unfolding keep
first_row-head p r t j a e = ground arith

live_row :
    (r : Row) (j : Job) (h : String)
    → row_to_job r ≡ j
    → is_live j.status ≡ true
    → j.release_handle ≡ h
    → live_for h r ≡ true
unfolding row_to_job
live_row r j h e live under = ground (
  arith,
  string_eq.beq_iff r.release_handle h,
  ap (λ x. x.status) e,
  ap (λ x. x.release_handle) e,
)

-- Where the ids are unique, a row that some query answers is the one under its id.
pub get-first_row :
    (p : Row → Bool) (t : Table) (j : Job)
    → count (has_id j.job_id) t ≤ 1
    → first_row (keep p t) ≡ some j
    → Store.get t j.job_id ≡ some j
unfolding Store.get keep count row_to_job
get-first_row p [] j u e = cc
get-first_row p (r ∷ t) j u e = elim (Bool-cases (p r)) [
  | inl a ↦
      let same : r.job_id ≡ j.job_id = ap (λ x. x.job_id) (first_row-head p r t j a e) in
      ground (arith, string_eq.beq_iff r.job_id j.job_id, first_row-head p r t j a e)
  | inr a ↦ elim (Bool-cases (has_id j.job_id r)) [
    | inl same ↦
        let absent = get-eq_none t j.job_id (any-eq-false (has_id j.job_id) t (ground arith)) in
        absurd (cc (absent, get-first_row p t j (ground arith) (ground arith)))
    | inr other ↦ ground (arith, get-first_row p t j)
  ]
]

-- A row that passes a test is read under its id.
pub any-get :
    (p : Row → Bool) (t : Table)
    → IsValid t
    → any p t ≡ true
    → (r : Row) × (Store.get t r.job_id ≡ some (row_to_job r)) × (p r ≡ true)
unfolding row_to_job
any-get p t v e =
    let (r, f, passes) = first_row-some p t e in
    (r, get-first_row p t (row_to_job r) (v.ids r.job_id) f, passes)

abbrev pub other_live : String → String → Row → Bool
other_live k h r = live_for h r && not (has_id k r)

pub any-HasLive :
    (t : Table) (h : String) → IsValid t → any (live_for h) t ≡ true → HasLive h (Store.get t)
unfolding row_to_job
any-HasLive t h v e =
    let (r, read, p) = any-get (live_for h) t v e in
    (r.job_id, row_to_job r, read, ground arith, (string_eq.beq_iff _ _).0 (ground arith))

pub any-HasOtherLive :
    (t : Table) (k h : String)
    → IsValid t
    → any (other_live k h) t ≡ true
    → HasOtherLive k h (Store.get t)
unfolding row_to_job
any-HasOtherLive t k h v e =
    let (r, read, p) = any-get (other_live k h) t v e in
    (
      r.job_id,
      row_to_job r,
      read,
      ground arith,
      (string_eq.beq_iff r.release_handle h).0 (ground arith),
      ground arith,
    )

pub HasLive-any : (t : Table) (h : String) → HasLive h (Store.get t) → any (live_for h) t ≡ true
unfolding Store.get
HasLive-any t h (i, j, read, live, under) =
    any-le (λ r. has_id i r && live_for h r) (live_for h) t (λ r e. ground arith)
      (first_row-any (has_id i) (live_for h) t j (λ r e. live_row r j h e live under) read)

pub HasOtherLive-any :
    (t : Table) (k h : String) → HasOtherLive k h (Store.get t) → any (other_live k h) t ≡ true
unfolding Store.get
HasOtherLive-any t k h (i, j, read, live, under, other) =
    any-le (λ r. has_id i r && live_for h r) (other_live k h) t
      (λ r e. ground (arith, string_eq.beq_iff r.job_id i))
      (first_row-any (has_id i) (live_for h) t j (λ r e. live_row r j h e live under) read)
