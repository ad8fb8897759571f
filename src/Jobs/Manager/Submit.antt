-- ===== src/Jobs/Manager/Submit.antt =====
-- `submit`: one live job for a handle, whatever is repeated or interleaved.
use mangarr_gateway.Prelude.{
  Bool, Option-cases, String, [], ap, arith, beq_refl, inl, inr, none, refl, some, string_eq, ℕ,
  ◌++◌, ◌∙◌, ◌∷◌, ◌≡◌,
}
use mangarr_gateway.Handles.Record.{ResolutionRecord}
use mangarr_gateway.Jobs.Model.{Job, JobStatus, is_live, queued}
use mangarr_gateway.Jobs.Store.{ok, find_live_by_handle, Result-cases}
use mangarr_gateway.Jobs.Store
use mangarr_gateway.Prelude.Dict
use mangarr_gateway.Jobs.Manager
use mangarr_gateway.Jobs.Manager.{
  Manager, SubmitRequest, submit_insert, new_job, submit_check, submit, submit_lost,
}
use mangarr_gateway.Jobs.Row.{job_values, forget_projection}
use mangarr_gateway.Jobs.Store.Lookup.{insert-ok, get-insert, find_live-insert, insert-live}
use mangarr_gateway.Jobs.Store.Valid.{IsValid, insert-IsValid}

module _ (float : String → String) where
  -- Once an insert has answered, its handle finds the job that it answered.
  submit_insert-live :
      (token : String) (now : ℕ) (rec : ResolutionRecord) (req : SubmitRequest) (m m1 : Manager)
      (r : String × JobStatus)
      → submit_insert float token now rec req m ≡ (ok r, m1)
      → (j : Job) × (find_live_by_handle m1.table req.release_handle ≡ some j)
        × ((j.job_id, j.status) ≡ r)
  unfolding submit_insert new_job is_live
  submit_insert-live token now rec req m m1 r h =
      let j0 = new_job float token now rec req in
      elim (Result-cases (Store.insert m.table j0)) [
        | inl (t, e) ↦ (
          forget_projection j0,
          (ground (arith, find_live-insert m.table t j0 refl e)),
          (ground arith),
        )
        | inr (x, e) ↦ elim (Option-cases (find_live_by_handle m.table req.release_handle)) [
          | inl n ↦ (ground arith)
          | inr (k, f) ↦ (k, (ground arith), (ground arith))
        ]
      ]

  -- A second insert under the handle changes nothing and answers the first one's job.
  submit_insert-second :
      (token : String) (now : ℕ) (rec : ResolutionRecord) (req : SubmitRequest) (m : Manager)
      (j : Job)
      → find_live_by_handle m.table req.release_handle ≡ some j
      → submit_insert float token now rec req m ≡ (ok (j.job_id, j.status), m)
  unfolding submit_insert submit_lost new_job is_live
  submit_insert-second token now rec req m j f =
      ground (arith, f, insert-live m.table (new_job float token now rec req) j refl f)

  -- Two submits under one handle, each past its checks: once the first has inserted, or found a
  -- job, the insert of the second changes nothing and answers the same job.
  pub submit_insert-race :
      (token token' : String) (now now' : ℕ) (rec rec' : ResolutionRecord)
      (req req' : SubmitRequest) (m m1 : Manager) (r : String × JobStatus)
      → req'.release_handle ≡ req.release_handle
      → submit_insert float token now rec req m ≡ (ok r, m1)
      → submit_insert float token' now' rec' req' m1 ≡ (ok r, m1)
  submit_insert-race token token' now now' rec rec' req req' m m1 r same h =
      let (j, f, e) = submit_insert-live token now rec req m m1 r h in
      submit_insert-second token' now' rec' req' m1 j (rw same f)
      ∙ ap (λ (x : String × JobStatus). (ok x, m1)) e

  pub submit_insert-IsValid :
      (token : String) (now : ℕ) (rec : ResolutionRecord) (req : SubmitRequest) (m : Manager)
      → IsValid m.table
      → IsValid (submit_insert float token now rec req m).1.table
  unfolding submit_insert
  submit_insert-IsValid token now rec req m v =
      let j0 = new_job float token now rec req in
      elim (Result-cases (Store.insert m.table j0)) [
        | inl (t, e) ↦ rw (e, submit_insert) (insert-IsValid m.table t j0 v e)
        | inr (x, e) ↦ rw (e, submit_insert) v
      ]

module _ (exists : String → Bool) (float : String → String) where
  submit_check-live :
      (m : Manager) (req : SubmitRequest) (j : Job)
      → find_live_by_handle m.table req.release_handle ≡ some j
      → submit_check exists m req ≡ some (j.job_id, j.status)
  unfolding submit_check
  submit_check-live m req j f = rw (f, submit_check)

  submit_check-none :
      (m : Manager) (req : SubmitRequest)
      → submit_check exists m req ≡ none
      → find_live_by_handle m.table req.release_handle ≡ none
  unfolding submit_check
  submit_check-none m req h = ground arith

  -- A submit that finds no job, under an id that no row has, answers a new queued job. Its row
  -- and its projection are there, and one task is started for it.
  pub submit-new :
      (token : String) (now : ℕ) (rec : ResolutionRecord) (req : SubmitRequest) (m : Manager)
      → submit_check exists m req ≡ none
      → Store.get m.table (new_job float token now rec req).job_id ≡ none
      → (m1 : Manager) × (submit exists float token now rec req m
          ≡ (ok ((new_job float token now rec req).job_id, queued), m1))
        × (Store.get m1.table (new_job float token now rec req).job_id
            ≡ some (forget_projection (new_job float token now rec req)))
        × (Manager.get m1 (new_job float token now rec req).job_id
            ≡ some (new_job float token now rec req))
        × (m1.tasks ≡ m.tasks ++ (new_job float token now rec req).job_id ∷ [])
  unfolding submit submit_insert Manager.get
  submit-new token now rec req m n g =
      let j = new_job float token now rec req in
      let t = m.table ++ job_values j ∷ [] in
      let done : Store.insert m.table j ≡ ok t =
        insert-ok m.table j g (unfold new_job in submit_check-none m req n) in
      (
        record m {
          table = t;
          projection = Dict.put m.projection j.job_id j;
          tasks = m.tasks ++ j.job_id ∷ [];
        },
        rw (submit, n, submit_insert, done),
        get-insert m.table t j j.job_id done ∙ rw (beq_refl j.job_id),
        Dict.get-put m.projection j.job_id j j.job_id ∙ rw (beq_refl j.job_id),
        refl,
      )

  -- A repeated submit of a handle answers the same job with the same status, and changes nothing.
  pub submit-again :
      (token token' : String) (now now' : ℕ) (rec rec' : ResolutionRecord) (req : SubmitRequest)
      (m m1 : Manager) (r : String × JobStatus)
      → submit exists float token now rec req m ≡ (ok r, m1)
      → submit exists float token' now' rec' req m1 ≡ (ok r, m1)
  unfolding submit
  submit-again token token' now now' rec rec' req m m1 r h =
      elim (Option-cases (submit_check exists m req)) [
        | inl n ↦
            let (j, f, e) = submit_insert-live float token now rec req m m1 r (ground arith) in
            ground (arith, submit_check-live m1 req j f)
        | inr (found, f) ↦ ground (arith)
      ]

  -- A submit from a valid table, whatever its outcome, leaves a valid table.
  pub submit-IsValid :
      (token : String) (now : ℕ) (rec : ResolutionRecord) (req : SubmitRequest) (m : Manager)
      → IsValid m.table
      → IsValid (submit exists float token now rec req m).1.table
  unfolding submit
  submit-IsValid token now rec req m v =
      ground (arith, submit_insert-IsValid float token now rec req m v)
