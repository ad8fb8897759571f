-- ===== src/Jobs/Engine/Writes.antt =====
-- What `_transition` and `_fail` write, whatever the other tasks do to the table meanwhile.
use mangarr_gateway.Prelude.{
  List, String, [], any, ap, arith, false, if◌then◌else◌, inl, inr, refl, some, string_eq, subst,
  ◌++◌, ◌+◌, ◌∙◌, ◌∷◌, ◌≡◌,
}
use mangarr_gateway.Jobs.Model.{JobStatus, failed, is_live, Job}
use mangarr_gateway.Jobs.Row.{job_values, forget_projection}
use mangarr_gateway.Jobs.Store
use mangarr_gateway.Jobs.Store.{StoreError, key_error, ok, Result-cases, Table, has_id, stamp}
use mangarr_gateway.Jobs.Engine.{other, Outcome, ok, raise, World, Run, ◌>>=◌}
use mangarr_gateway.Jobs.Store.Lookup.{get-update}
use mangarr_gateway.Jobs.Engine.Rules.{Post}
use mangarr_gateway.Jobs.Engine.Drive.{store_exception, write_through, fail}

-- Only a missing row stops the update of a job that is no longer live.
update_gone :
    (t : Table) (j : Job) (x : StoreError)
    → is_live j.status ≡ false
    → Store.update t j ≡ Store.err x
    → (x ≡ key_error j.job_id) × (any (has_id j.job_id) t ≡ false)
unfolding Store.update job_values
update_gone t j x l e = ground arith

module _ (w : World) (i : String) where
  abbrev pub IsJob : Run → Type 0
  IsJob s = s.job.job_id ≡ i

  abbrev pub Written : Run → Type 0
  Written t = IsJob t × (Store.get t.table i ≡ some (forget_projection t.job))

  stamped_id : (s : Run) → IsJob s → (stamp (w.now s.readings) s.job).job_id ≡ i
  unfolding stamp
  stamped_id s h = h

  stamped_status : (s : Run) → (stamp (w.now s.readings) s.job).status ≡ s.job.status
  unfolding stamp
  stamped_status s = refl

  write_through-ok :
      (s : Run) (t : Table)
      → IsJob s
      → Store.update (w.others s.updates s.table) (stamp (w.now s.readings) s.job) ≡ Store.ok t
      → Store.get t i ≡ some (forget_projection (stamp (w.now s.readings) s.job))
  write_through-ok s t h e =
      let j = stamp (w.now s.readings) s.job in
      let before = w.others s.updates s.table in
      get-update before t j i e
      ∙ ap (λ b. if b then some (forget_projection j) else Store.get before i)
          ((string_eq.beq_iff j.job_id i).1 (stamped_id s h))

  -- The run after a write-through, with the table and the events it leaves.
  abbrev after : Run → Table → List JobStatus → Run
  after s t events = record s {
    job = stamp (w.now s.readings) s.job;
    table = t;
    updates = s.updates + 1;
    readings = s.readings + 1;
    events = events;
  }

  write_through_saves :
      (s : Run) (t : Table)
      → Store.update (w.others s.updates s.table) (stamp (w.now s.readings) s.job) ≡ Store.ok t
      → write_through w s ≡ (ok tt, after s t (s.events ++ s.job.status ∷ []))
  unfolding write_through stamp
  write_through_saves s t e = ground (arith, e)

  write_through_raises :
      (s : Run) (x : StoreError)
      → Store.update (w.others s.updates s.table) (stamp (w.now s.readings) s.job) ≡ Store.err x
      → write_through w s
        ≡ (raise (store_exception x), after s (w.others s.updates s.table) s.events)
  unfolding write_through stamp
  write_through_raises s x e = ground (arith, e)

  -- A write-through writes the job's row, or raises.
  pub write_through-Post :
      (s : Run)
      → IsJob s
      → Post (λ _ t. Written t × (t.job.status ≡ s.job.status)) (λ _ t. IsJob t) (write_through w s)
  write_through-Post s h =
      elim (Result-cases
        (Store.update (w.others s.updates s.table) (stamp (w.now s.readings) s.job))) [
          | inl (t, e) ↦
              rw (write_through_saves s t e)
                ((stamped_id s h, write_through-ok s t h e), stamped_status s)
          | inr (x, e) ↦ rw (write_through_raises s x e) (stamped_id s h)
        ]

  -- How a run ends.
  abbrev pub Settled : Outcome (Unit {0}) × Run → Type 0
  Settled (ok _, t) =
      (t.job.job_id ≡ i)
      × (is_live t.job.status ≡ false)
      × (Store.get t.table i ≡ some (forget_projection t.job))
  Settled (raise e, t) =
      (t.job.job_id ≡ i)
      × (e ≡ other "KeyError")
      × (t.job.status ≡ failed)
      × (any (has_id i) t.table ≡ false)

  -- The last write of a failed job.
  write_through-Settled : (s : Run) → IsJob s → s.job.status ≡ failed → Settled (write_through w s)
  unfolding is_live
  write_through-Settled s h l =
      let before = w.others s.updates s.table in
      let j = stamp (w.now s.readings) s.job in
      let dead = ap is_live (stamped_status s ∙ l) in
      elim (Result-cases (Store.update before j)) [
        | inl (t, e) ↦
            rw (write_through_saves s t e) (stamped_id s h, dead, write_through-ok s t h e)
        | inr (x, e) ↦
            let (f, absent) = update_gone before j x dead e in
            rw (write_through_raises s x e) (
              stamped_id s h,
              ap store_exception f,
              stamped_status s ∙ l,
              subst (λ k. any (has_id k) before ≡ false) (stamped_id s h) absent,
            )
      ]

  pub fail-Settled : (message : String) (s : Run) → IsJob s → Settled (fail w message s)
  unfolding fail ◌>>=◌
  fail-Settled message s h =
      write_through-Settled
        (record s { job = record s.job { status = failed; message = some message } }) h refl
