-- ===== src/Jobs/Engine/Settled.antt =====
-- How `run` ends, whatever the other tasks do to the table meanwhile.
use mangarr_gateway.Prelude.{
  Bool, List, Option, String, [], ap, false, none, refl, some, suc, zero, ℕ, ◌+◌, ◌∙◌, ◌∷◌, ◌≡◌,
}
use mangarr_gateway.Jobs.Engine.{
  Page, Exception, source_error, stale_manifest, other, Outcome, ok, raise, World, Run, Exec, ◌>>=◌,
  ◌>>◌, throw,
}
use mangarr_gateway.Jobs.Engine.Rules.{Post, any-Post, >>=-Post}
use mangarr_gateway.Jobs.Engine.Pages.{
  page_tasks, settle, fetch_manifest, next_round, fetch_pages_once, fetch_all_pages,
}
use mangarr_gateway.Jobs.Engine.Limits.{on_stale-after, continue-after}
use mangarr_gateway.Jobs.Engine.Drive.{
  max_manifest_reresolves, transition, fail, begin_download, written, write_archive, pin_totals,
  download, with_chapter, with_source, run_inner, handle, run,
}
use mangarr_gateway.Jobs.Model.{
  JobStatus, resolving, downloading, archiving, completed, failed, is_live,
}
use mangarr_gateway.Jobs.Engine.Progress.{SameJob-progress}
use mangarr_gateway.Jobs.Engine.Writes.{IsJob, Written, Settled, write_through-Post, fail-Settled}

module _ (w : World) (i : String) where
  -- A finished action: it has written a row that is no longer live, or it raises.
  abbrev Done : Outcome (Unit {0}) × Run → Type 0
  Done = Post (λ _ t. Written w i t × (is_live t.job.status ≡ false)) (λ _ t. IsJob w i t)

  final_write-Done :
      (st : JobStatus) (r : Outcome (Unit {0}) × Run)
      → is_live st ≡ false
      → Post (λ _ t. Written w i t × (t.job.status ≡ st)) (λ _ t. IsJob w i t) r
      → Done r
  final_write-Done st (ok _, t) l (h, e) = (h, ap is_live e ∙ l)
  final_write-Done st (raise x, t) l h = h

  transition-Post :
      (st : JobStatus) (s : Run)
      → IsJob w i s
      → Post (λ _ t. Written w i t × (t.job.status ≡ st)) (λ _ t. IsJob w i t) (transition w st s)
  unfolding transition ◌>>=◌
  transition-Post st s h =
      write_through-Post w i (record s { job = record s.job { status = st } }) h

  fail-Done : (message : String) (s : Run) → IsJob w i s → Done (fail w message s)
  unfolding fail ◌>>=◌ is_live
  fail-Done message s h = final_write-Done failed (fail w message s) refl (
      write_through-Post w i
        (record s { job = record s.job { status = failed; message = some message } }) h)

  fetch_all_pages-IsJob :
      (reresolve : Bool) (budget : ℕ) (chapter : String) (urls : List String) (s : Run)
      → IsJob w i s
      → IsJob w i (fetch_all_pages w reresolve budget chapter urls s).1
  unfolding fetch_all_pages fetch_pages_once next_round fetch_manifest ◌>>=◌
  fetch_all_pages-IsJob b zero chapter urls s h =
      let (r, t) = fetch_pages_once w b urls s in
      let same =
        (SameJob-progress s.job
          ((settle (w.finished s.passes) (page_tasks w s.passes 0 urls)).0)).id
        ∙ h in
      on_stale-after (IsJob w i)
        (throw (source_error "source_unavailable" "stale manifest re-resolve budget exceeded" none))
        r t same same
  fetch_all_pages-IsJob b (suc n) chapter urls s h =
      let (r, t) = fetch_pages_once w b urls s in
      let same =
        (SameJob-progress s.job
          ((settle (w.finished s.passes) (page_tasks w s.passes 0 urls)).0)).id
        ∙ h in
      let rest = fetch_all_pages w b n chapter in
      let t1 = record t {
        job = record t.job { downloaded_pages = some 0; downloaded_bytes = 0 };
        manifests = t.manifests + 1;
      } in
      on_stale-after (IsJob w i) (next_round w chapter rest) r t same (
        continue-after (IsJob w i) t1 rest (w.manifest t.manifests chapter) same
          (λ us. fetch_all_pages-IsJob b n chapter us t1 same))

  -- Any action that keeps the id of the job, whatever it returns.
  IsJob-Post {ℓ} :
      {A : Type ℓ} (r : Outcome A × Run)
      → IsJob w i r.1
      → Post (λ _ t. IsJob w i t) (λ _ t. IsJob w i t) r
  IsJob-Post (r, t) h = any-Post (λ _ t. IsJob w i t) (λ _ t. IsJob w i t) r t (λ _. h) (λ _. h)

  Post-IsJob :
      {A : Type 0} (P : A → Run → Type 0) (r : Outcome A × Run)
      → ((x : A) (t : Run) → P x t → IsJob w i t)
      → Post P (λ _ t. IsJob w i t) r
      → IsJob w i r.1
  Post-IsJob P (ok x, t) k h = k x t h
  Post-IsJob P (raise e, t) k h = h

  transition-IsJob : (st : JobStatus) (s : Run) → IsJob w i s → IsJob w i (transition w st s).1
  transition-IsJob st s h =
      Post-IsJob (λ _ t. Written w i t × (t.job.status ≡ st)) (transition w st s) (λ _ t k. k.0.0)
        (transition-Post st s h)

  complete-Done :
      (path : String) (s : Run)
      → IsJob w i s
      → Done ((do pin_totals w path; transition w completed) s)
  unfolding pin_totals ◌>>=◌ is_live
  complete-Done path s h =
      let s1 = (pin_totals w path s).1 in
      final_write-Done completed (transition w completed s1) refl (transition-Post completed s1 h)

  written-IsJob :
      (o : Option Exception) (path : String) (pages : List Page) (s : Run)
      → IsJob w i s
      → IsJob w i (written w o path pages s).1
  written-IsJob none path pages s h = h
  written-IsJob (some e) path pages s h = h

  -- What follows an action that keeps the id of the job.
  >>=-Done {ℓ} :
      {A : Type ℓ} (m : Exec A) (f : A → Exec (Unit {0})) (s : Run)
      → IsJob w i (m s).1
      → ((x : A) (t : Run) → IsJob w i t → Done (f x t))
      → Done ((m >>= f) s)
  >>=-Done m f s h k =
      >>=-Post (λ _ t. IsJob w i t) (λ _ t. Written w i t × (is_live t.job.status ≡ false))
        (λ _ t. IsJob w i t) m f s (IsJob-Post (m s) h) k

  archive-Done :
      (pages : List Page) (s : Run)
      → IsJob w i s
      → Done (
          (do
            transition w archiving
            path ← write_archive w pages
            pin_totals w path
            transition w completed)
            s)
  unfolding write_archive
  archive-Done pages s h =
      >>=-Done (transition w archiving) _ s (transition-IsJob archiving s h) (λ _ t k.
        >>=-Done (write_archive w pages) _ t
          (written-IsJob (w.write t.job.output_format pages (w.output_path t.job))
            (w.output_path t.job) pages t k)
          (λ path u l. complete-Done path u l))

  download-Done :
      (reresolve : Bool) (chapter : String) (urls : List String) (s : Run)
      → IsJob w i s
      → Done (download w reresolve chapter urls s)
  unfolding download begin_download
  download-Done reresolve chapter [] s h = fail-Done _ s h
  download-Done reresolve chapter (url ∷ urls) s h =
      >>=-Done (begin_download w (url ∷ urls)) _ s h (λ _ t k.
        >>=-Done (transition w downloading) _ t (transition-IsJob downloading t k) (λ _ u l.
          >>=-Done (fetch_all_pages w reresolve max_manifest_reresolves chapter (url ∷ urls)) _ u
            (fetch_all_pages-IsJob reresolve max_manifest_reresolves chapter (url ∷ urls) u l)
            (λ pages x j. archive-Done pages x j)))

  with_chapter-Done :
      (reresolve : Bool) (chapter : Option String) (s : Run)
      → IsJob w i s
      → Done (with_chapter w reresolve chapter s)
  unfolding fetch_manifest
  with_chapter-Done reresolve none s h = fail-Done _ s h
  with_chapter-Done reresolve (some chapter) s h =
      >>=-Done (fetch_manifest w chapter) _ s h
        (λ urls t k. download-Done reresolve chapter urls t k)

  with_source-Done : (o : Option Bool) (s : Run) → IsJob w i s → Done (with_source w o s)
  with_source-Done none s h = fail-Done _ s h
  with_source-Done (some reresolve) s h =
      >>=-Done (transition w resolving) _ s (transition-IsJob resolving s h)
        (λ _ t k. with_chapter-Done reresolve s.job.chapter_id t k)

  handle-Settled : (r : Outcome (Unit {0}) × Run) → Done r → Settled w i (handle w r)
  unfolding handle
  handle-Settled (ok _, t) ((h, g), l) = (h, l, g)
  handle-Settled (raise (source_error c m st), t) h = fail-Settled w i _ t h
  handle-Settled (raise stale_manifest, t) h = fail-Settled w i _ t h
  handle-Settled (raise (other x), t) h = fail-Settled w i _ t h

  -- However the other tasks change the table meanwhile, a run that is not cancelled ends in one of
  -- two ways. It returns, with the job no longer live and the job's row in the table. Or a
  -- KeyError leaves it, with the job failed, and then the table has no row with the job's id.
  pub run-Settled : (s : Run) → s.job.job_id ≡ i → Settled w i (run w s)
  unfolding run run_inner
  run-Settled s h =
      handle-Settled (run_inner w s) (with_source-Done (w.reresolve_on_403 s.job.source_key) s h)
