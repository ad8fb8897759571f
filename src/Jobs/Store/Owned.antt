-- ===== src/Jobs/Store/Owned.antt =====
-- The table as a running job needs it: valid, with the job's row live under its handle. Then an
-- update of the job succeeds.
use mangarr_gateway.Prelude.{
  String, [], any, any-eq-false, any-le, arith, beq_refl, count-pos, count-split, false, map, not,
  some, string_eq, true, ◌&&◌, ◌∙◌, ◌∷◌, ◌≡◌,
}
use mangarr_gateway.Jobs.Model.{Job, is_live}
use mangarr_gateway.Jobs.Row.{Row, job_values, forget_projection}
use mangarr_gateway.Jobs.Store.{Table, ok, has_id, live_for, update}
use mangarr_gateway.Jobs.Store
use mangarr_gateway.Jobs.Store.Valid.{IsValid, write_over, update-IsValid}
use mangarr_gateway.Jobs.Store.Lookup.{get-update}

pub record Owned (i h : String) (t : Table) : Type 0 where
  pub valid : IsValid t
  pub present : any (λ r. live_for h r && has_id i r) t ≡ true

alone :
    (i h : String) (t : Table) → Owned i h t → any (λ r. live_for h r && not (has_id i r)) t ≡ false
alone i h t o =
    any-eq-false (λ r. live_for h r && not (has_id i r)) t
      (omega (
        arith,
        count-split (live_for h) (has_id i) t,
        count-pos (λ r. live_for h r && has_id i r) t o.present,
        o.valid.live h,
      ))

present-write_over :
    (r : Row) (h : String) (t : Table)
    → live_for h r ≡ true
    → any (has_id r.job_id) t ≡ true
    → any (λ x. live_for h x && has_id r.job_id x) (map (write_over r) t) ≡ true
present-write_over r h [] l e = cc
present-write_over r h (x ∷ t) l e = ground (arith, beq_refl r.job_id, present-write_over r h t l)

updated : Table → Job → Table
unfolding job_values
updated t j = map (write_over (job_values j)) t

update-updated :
    (t : Table) (j : Job) → Owned j.job_id j.release_handle t → update t j ≡ ok (updated t j)
unfolding update updated job_values
update-updated t j o =
    let there =
      any-le (λ r. live_for j.release_handle r && has_id j.job_id r) (has_id j.job_id) t
        (λ x p. ground arith) o.present in
    ground (arith, there, alone j.job_id j.release_handle t o)

-- An update by the owner succeeds. It leaves a valid table, in which the job reads back, and the
-- job stays the owner while it is live.
pub update-Owned :
    (t : Table) (j : Job)
    → Owned j.job_id j.release_handle t
    → (t' : Table) × (update t j ≡ ok t')
      × IsValid t'
      × (Store.get t' j.job_id ≡ some (forget_projection j))
      × (is_live j.status ≡ true → Owned j.job_id j.release_handle t')
unfolding updated job_values
update-Owned t j o =
    let e = update-updated t j o in
    let v = update-IsValid t (updated t j) j o.valid e in
    let there =
      any-le (λ r. live_for j.release_handle r && has_id j.job_id r) (has_id j.job_id) t
        (λ x p. ground arith) o.present in
    (
      updated t j,
      e,
      v,
      get-update t (updated t j) j j.job_id e ∙ rw (beq_refl j.job_id),
      λ l. record {
        valid = v;
        present =
            present-write_over (job_values j) j.release_handle t
              (ground (arith, beq_refl j.release_handle)) there;
      },
    )
