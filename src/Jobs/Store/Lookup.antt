-- ===== src/Jobs/Store/Lookup.antt =====
-- What a client reads back from the `jobs` table after each statement.
use mangarr_gateway.Prelude.{
  Bool, Bool-cases, String, [], any, arith, beq_refl, false, if◌then◌else◌, inl, inr, keep, map,
  none, refl, some, string_eq, subst, true, ◌&&◌, ◌++◌, ◌==◌, ◌∷◌, ◌≡◌,
}
use mangarr_gateway.Jobs.Model.{Job, is_live}
use mangarr_gateway.Jobs.Row.{Row, job_values, row_to_job, forget_projection}
use mangarr_gateway.Jobs.Store.{
  Table, ok, has_id, first_row, get, insert, update, delete, live_for, find_live_by_handle, err,
  integrity_error,
}
use mangarr_gateway.Jobs.Store.Valid.{write_over, insert_tests, update_tests}

first_row-none : (p : Row → Bool) (t : Table) → any p t ≡ false → first_row (keep p t) ≡ none
unfolding keep
first_row-none p [] e = refl
first_row-none p (x ∷ t) e = ground (arith, first_row-none p t)

pub first_row-some :
    (p : Row → Bool) (t : Table)
    → any p t ≡ true
    → (r : Row) × (first_row (keep p t) ≡ some (row_to_job r)) × (p r ≡ true)
unfolding keep
first_row-some p [] e = cc
first_row-some p (x ∷ t) e = elim (Bool-cases (p x)) [
  | inl q ↦ (x, rw q, q)
  | inr q ↦ let (r, f, g) = first_row-some p t (ground arith) in (r, rw q f, g)
]

-- A live handle is found, with a job that has it and is live.
pub find_live-some :
    (t : Table) (h : String)
    → any (live_for h) t ≡ true
    → (j : Job) × (find_live_by_handle t h ≡ some j)
      × (j.release_handle ≡ h)
      × (is_live j.status ≡ true)
unfolding find_live_by_handle row_to_job
find_live-some t h e =
    let (r, f, g) = first_row-some (live_for h) t e in
    (row_to_job r, f, (string_eq.beq_iff _ _).0 (ground arith), ground arith)

pub find_live-none :
    (t : Table) (h : String) → any (live_for h) t ≡ false → find_live_by_handle t h ≡ none
unfolding find_live_by_handle
find_live-none t h e = first_row-none (live_for h) t e

pub first_row-append :
    (p : Row → Bool) (t : Table) (r : Row)
    → any p t ≡ false
    → first_row (keep p (t ++ r ∷ [])) ≡ (if p r then some (row_to_job r) else none)
unfolding keep
first_row-append p [] r h = ground arith
first_row-append p (x ∷ t) r h = ground (arith, first_row-append p t r)

first_row-append_other :
    (p : Row → Bool) (t : Table) (r : Row)
    → p r ≡ false
    → first_row (keep p (t ++ r ∷ [])) ≡ first_row (keep p t)
unfolding keep
first_row-append_other p [] r h = ground arith
first_row-append_other p (x ∷ t) r h = ground (arith, first_row-append_other p t r h)

-- After an insert the new job is read back under its id, and every other id reads as before.
pub get-insert :
    (t t' : Table) (j : Job) (i : String)
    → insert t j ≡ ok t'
    → get t' i ≡ (if j.job_id == i then some (forget_projection j) else get t i)
unfolding get job_values row_to_job
get-insert t t' j i h =
    let (e, fresh, _) = insert_tests t t' j h in
    rw e (elim (Bool-cases (j.job_id == i)) [
      | inl p ↦
          let q =
            subst (λ k. any (has_id k) t ≡ false) ((string_eq.beq_iff j.job_id i).0 p) fresh in
          rw (first_row-append (has_id i) t (job_values j) q, p)
      | inr p ↦ rw (p, first_row-append_other (has_id i) t (job_values j) p)
    ])

get-write_over :
    (t : Table) (r : Row) (i : String)
    → get (map (write_over r) t) i
      ≡ (if r.job_id == i && any (has_id i) t then some (row_to_job r) else get t i)
unfolding get keep
get-write_over [] r i = ground arith
get-write_over (x ∷ t) r i = ground (
  arith,
  get-write_over t r i,
  string_eq.beq_iff r.job_id i,
  string_eq.beq_iff x.job_id r.job_id,
  string_eq.beq_iff x.job_id i,
)

-- After a successful update the job's id reads as the job less its fields that are no columns,
-- and every other id reads as before.
pub get-update :
    (t t' : Table) (j : Job) (i : String)
    → update t j ≡ ok t'
    → get t' i ≡ (if j.job_id == i then some (forget_projection j) else get t i)
unfolding job_values row_to_job
get-update t t' j i h =
    let (e, there, _) = update_tests t t' j h in
    rw (e, get-write_over t (job_values j) i)
      (elim (Bool-cases (j.job_id == i)) [
        | inl p ↦
            let q =
              subst (λ k. any (has_id k) t ≡ true) ((string_eq.beq_iff j.job_id i).0 p) there in
            rw (p, q)
        | inr p ↦ rw p
      ])

pub get-delete :
    (t : Table) (i k : String) → get (delete t i) k ≡ (if i == k then none else get t k)
unfolding get delete keep
get-delete [] i k = ground arith
get-delete (x ∷ t) i k = ground (
  arith,
  get-delete t i k,
  string_eq.beq_iff x.job_id i,
  string_eq.beq_iff x.job_id k,
  string_eq.beq_iff i k,
)

-- The job that an insert wrote, if it is live, is the one that its handle finds.
pub find_live-insert :
    (t t' : Table) (j : Job)
    → is_live j.status ≡ true
    → insert t j ≡ ok t'
    → find_live_by_handle t' j.release_handle ≡ some (forget_projection j)
unfolding find_live_by_handle job_values row_to_job
find_live-insert t t' j l h =
    let (e, _, alone) = insert_tests t t' j h in
    rw (e, first_row-append (live_for j.release_handle) t (job_values j) (alone l))
      (ground (arith, beq_refl j.release_handle))

-- A second live job under a handle is refused.
pub insert-live :
    (t : Table) (j : Job) (k : Job)
    → is_live j.status ≡ true
    → find_live_by_handle t j.release_handle ≡ some k
    → insert t j ≡ err integrity_error
unfolding insert job_values
insert-live t j k l f = elim (Bool-cases (any (live_for j.release_handle) t)) [
  | inl p ↦ ground arith
  | inr p ↦ absurd (cc (f, find_live-none t j.release_handle p))
]

-- A query that answers no job has met no row.
pub get-eq-none : (t : Table) (i : String) → get t i ≡ none → any (has_id i) t ≡ false
unfolding get
get-eq-none t i h = elim (Bool-cases (any (has_id i) t)) [
  | inl p ↦ let (r, f, _) = first_row-some (has_id i) t p in absurd (cc (f, h))
  | inr p ↦ p
]

pub find_live-eq-none :
    (t : Table) (h : String) → find_live_by_handle t h ≡ none → any (live_for h) t ≡ false
find_live-eq-none t h e = elim (Bool-cases (any (live_for h) t)) [
  | inl p ↦ let (j, f, _, _) = find_live-some t h p in absurd (cc (f, e))
  | inr p ↦ p
]

-- An insert succeeds where the id is new and the handle has no live job.
pub insert-ok :
    (t : Table) (j : Job)
    → get t j.job_id ≡ none
    → find_live_by_handle t j.release_handle ≡ none
    → insert t j ≡ ok (t ++ job_values j ∷ [])
unfolding insert job_values
insert-ok t j g f = ground (arith, get-eq-none t j.job_id g, find_live-eq-none t j.release_handle f)
