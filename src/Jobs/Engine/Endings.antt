-- ===== src/Jobs/Engine/Endings.antt =====
-- How a run ends, where the other tasks leave the job's row alone.
use mangarr_gateway.Prelude.{
  List, String, [], inr, length, refl, some, subst, sym, true, ℕ, ◌++◌, ◌+◌, ◌∷◌, ◌≡◌, ◌⊎◌,
}
use mangarr_gateway.Jobs.Model.{
  Job, JobStatus, resolving, downloading, archiving, completed, failed, is_live,
}
use mangarr_gateway.Jobs.Row.{forget_projection}
use mangarr_gateway.Jobs.Store.{Table, stamp}
use mangarr_gateway.Jobs.Store
use mangarr_gateway.Jobs.Store.Valid.{IsValid}
use mangarr_gateway.Jobs.Store.Owned.{Owned, update-Owned}
use mangarr_gateway.Jobs.Engine.{Page, ok, World, Run, ◌>>=◌}
use mangarr_gateway.Jobs.Engine.Rules.{Post}
use mangarr_gateway.Jobs.Engine.Progress.{Whole, total_size}
use mangarr_gateway.Jobs.Engine.Drive.{write_through, transition, handle, fail}

-- Other tasks keep the row of the job.
abbrev pub Peaceful : String → String → World → Type 0
Peaceful i h w = (n : ℕ) (t : Table) → Owned i h t → Owned i h (w.others n t)

-- What holds of a run that has not ended.
pub record Midway (s0 s : Run) : Type 0 where
  pub id : s.job.job_id ≡ s0.job.job_id
  pub handle : s.job.release_handle ≡ s0.job.release_handle
  pub owned : Owned s0.job.job_id s0.job.release_handle s.table
  pub path : s.job.output_path ≡ s0.job.output_path
  pub time : s.job.completed_at ≡ s0.job.completed_at
  pub published : s.published ≡ s0.published

-- The durable row is the job's.
abbrev pub Saved : Run → Type 0
Saved s = IsValid s.table × (Store.get s.table s.job.job_id ≡ some (forget_projection s.job))

-- A completed run has published a whole manifest, as many pages as its job counts, to the byte, and
-- each is an image.
pub record Completed (w : World) (s0 s : Run) : Type 0 where
  pub status : s.job.status ≡ completed
  pub events : s.events ≡ s0.events ++ resolving ∷ downloading ∷ archiving ∷ completed ∷ []
  pub pages : List Page
  pub published : s.published ≡ some pages
  pub whole : Whole w pages
  pub downloaded : s.job.downloaded_pages ≡ some (length pages)
  pub bytes : (s.job.total_bytes ≡ total_size pages) × (s.job.remaining_bytes ≡ 0)
  pub path : (p : String) × (s.job.output_path ≡ some p)
  pub saved : Saved s

-- A failed run has published nothing and says why.
pub record Failed (s0 s : Run) : Type 0 where
  pub status : s.job.status ≡ failed
  pub message : (m : String) × (s.job.message ≡ some m)
  pub published : s.published ≡ s0.published
  pub path : s.job.output_path ≡ s0.job.output_path
  pub time : s.job.completed_at ≡ s0.job.completed_at
  pub saved : Saved s

abbrev pub Ended : World → Run → Run → Type 0
Ended w s0 s = Completed w s0 s ⊎ Failed s0 s

module _ (w : World) (s0 : Run) (peaceful : Peaceful s0.job.job_id s0.job.release_handle w) where
  -- What a write-through leaves, with a status of the job that is set already.
  pub write_through_lem :
      (s : Run)
      → s.job.job_id ≡ s0.job.job_id
      → s.job.release_handle ≡ s0.job.release_handle
      → Owned s0.job.job_id s0.job.release_handle s.table
      → (t' : Table) × (j : Job) × (j ≡ stamp (w.now s.readings) s.job)
        × (write_through w s ≡ (
          ok tt,
          record s {
            job = j;
            table = t';
            updates = s.updates + 1;
            readings = s.readings + 1;
            events = s.events ++ s.job.status ∷ [];
          },
        ))
        × IsValid t'
        × (Store.get t' j.job_id ≡ some (forget_projection j))
        × (is_live s.job.status ≡ true → Owned s0.job.job_id s0.job.release_handle t')
  unfolding write_through stamp
  write_through_lem s id handle owned =
      let j = stamp (w.now s.readings) s.job in
      let o : Owned j.job_id j.release_handle (w.others s.updates s.table) =
        subst (λ i. Owned i s.job.release_handle (w.others s.updates s.table)) (sym id)
          (subst (λ h. Owned s0.job.job_id h (w.others s.updates s.table)) (sym handle)
            (peaceful s.updates s.table owned)) in
      let (t', e, v, g, l) = update-Owned (w.others s.updates s.table) j o in
      (
        t',
        j,
        refl,
        rw (write_through, e),
        v,
        g,
        λ live.
            subst (λ i. Owned i s0.job.release_handle t') id
              (subst (λ h. Owned s.job.job_id h t') handle (l live)),
      )

  -- A transition to a live status.
  pub transition_lem :
      (status : JobStatus) (s : Run)
      → is_live status ≡ true
      → Midway s0 s
      → (t : Run) × (transition w status s ≡ (ok tt, t))
        × Midway s0 t
        × (t.events ≡ s.events ++ status ∷ [])
        × (t.job.downloaded_pages ≡ s.job.downloaded_pages)
        × (t.job.downloaded_bytes ≡ s.job.downloaded_bytes)
  unfolding transition stamp ◌>>=◌
  transition_lem status s live m =
      let s1 = record s { job = record s.job { status = status } } in
      let (t', j, ej, e, v, g, l) = write_through_lem s1 m.id m.handle m.owned in
      (
        record s1 {
          job = j;
          table = t';
          updates = s.updates + 1;
          readings = s.readings + 1;
          events = s.events ++ status ∷ [];
        },
        e,
        rw ej (record {
          id = m.id;
          handle = m.handle;
          owned = l live;
          path = m.path;
          time = m.time;
          published = m.published;
        }),
        refl,
        rw ej,
        rw ej,
      )

  -- A failure midway ends the run failed.
  pub fail_lem :
      (message : String) (s : Run)
      → Midway s0 s
      → (t : Run) × (fail w message s ≡ (ok tt, t)) × Failed s0 t
  unfolding fail stamp ◌>>=◌
  fail_lem message s m =
      let s1 = record s { job = record s.job { status = failed; message = some message } } in
      let (t', j, ej, e, v, g, l) = write_through_lem s1 m.id m.handle m.owned in
      (
        record s1 {
          job = j;
          table = t';
          updates = s.updates + 1;
          readings = s.readings + 1;
          events = s.events ++ failed ∷ [];
        },
        e,
        record {
          status = rw ej;
          message = (message, rw ej);
          published = m.published;
          path = rw ej m.path;
          time = rw ej m.time;
          saved = (v, g);
        },
      )

  pub fail-Ended :
      (message : String) (s : Run)
      → Midway s0 s
      → Post (λ _ t. Ended w s0 t) (λ _ t. Midway s0 t) (fail w message s)
  fail-Ended message s m = let (t, e, f) = fail_lem message s m in rw e (inr f)

  -- The counters of a finished download.
  abbrev pub Fetched : List JobStatus → List Page → Run → Type 0
  Fetched events pages t =
      Midway s0 t
      × (t.events ≡ events)
      × (t.job.downloaded_pages ≡ some (length pages))
      × (t.job.downloaded_bytes ≡ total_size pages)
      × Whole w pages
