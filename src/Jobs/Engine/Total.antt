-- ===== src/Jobs/Engine/Total.antt =====
-- Every run ends, with its job completed or failed.
use mangarr_gateway.Prelude.{
  Bool, List, Option, String, [], ap, inl, inr, length, none, refl, some, ◌++◌, ◌+◌, ◌∙◌, ◌∷◌, ◌≡◌,
}
use mathlib.Core.List.{append_assoc}
use mangarr_gateway.Jobs.Model.{resolving, downloading, archiving, completed, is_live}
use mangarr_gateway.Jobs.Engine.{
  Page, Exception, source_error, stale_manifest, other, Outcome, ok, raise, World, Run, ◌>>=◌, ◌>>◌,
}
use mangarr_gateway.Jobs.Engine.Rules.{known-Post, Post, >>=-Post}
use mangarr_gateway.Jobs.Engine.Pages.{fetch_all_pages, fetch_manifest}
use mangarr_gateway.Jobs.Engine.Progress.{Given, Whole, total_size}
use mangarr_gateway.Jobs.Store.Owned.{Owned}
use mangarr_gateway.Jobs.Engine.Passes.{all-Post}
use mangarr_gateway.Jobs.Engine.Drive.{
  with_source, with_chapter, written, handle, transition, write_archive, pin_totals, download,
  begin_download, max_manifest_reresolves, with_source, with_chapter, run_inner, run,
}
use mangarr_gateway.Jobs.Engine.Endings.{
  write_through_lem, Peaceful, Midway, Fetched, Ended, fail-Ended, transition_lem, fail_lem,
}
use mangarr_gateway.Jobs.Store.{stamp}

module _ (w : World) (s0 : Run) (peaceful : Peaceful s0.job.job_id s0.job.release_handle w) where
  -- A run whose archive is published, before its last transition.
  record Written (pages : List Page) (s : Run) : Type 0 where
    id : s.job.job_id ≡ s0.job.job_id
    handle : s.job.release_handle ≡ s0.job.release_handle
    owned : Owned s0.job.job_id s0.job.release_handle s.table
    published : s.published ≡ some pages
    events : s.events ≡ s0.events ++ resolving ∷ downloading ∷ archiving ∷ []
    downloaded : s.job.downloaded_pages ≡ some (length pages)
    bytes : s.job.downloaded_bytes ≡ total_size pages
    whole : Whole w pages

  complete-Ended :
      (pages : List Page) (path : String) (s : Run)
      → Written pages s
      → Post
          (λ _ t. Ended w s0 t)
          (λ _ t. Midway s0 t)
          ((do pin_totals w path; transition w completed) s)
  unfolding pin_totals transition ◌>>=◌ stamp
  complete-Ended pages path s h =
      let s1 = record s {
        job = record s.job {
          output_path = some path;
          completed_at = some (w.now s.readings);
          total_bytes = s.job.downloaded_bytes;
          remaining_bytes = 0;
          status = completed;
        };
        readings = s.readings + 1;
      } in
      let (t', j, ej, eq, v, g, l) = write_through_lem w s0 peaceful s1 h.id h.handle h.owned in
      rw eq (
        inl (record {
          status = rw ej;
          events = ap (λ x. x ++ completed ∷ []) h.events ∙ append_assoc s0.events _ _;
          pages = pages;
          published = h.published;
          whole = h.whole;
          downloaded = rw ej h.downloaded;
          bytes = (rw ej h.bytes, rw ej);
          path = (path, rw ej);
          saved = (v, g);
        }))

  written-Post :
      (o : Option Exception) (path : String) (pages : List Page) (s : Run)
      → Fetched w s0 peaceful (s0.events ++ resolving ∷ downloading ∷ archiving ∷ []) pages s
      → Post (λ _ t. Written pages t) (λ _ t. Midway s0 t) (written w o path pages s)
  written-Post none path pages s (m, e, p, b, im) = record {
    id = m.id;
    handle = m.handle;
    owned = m.owned;
    published = refl;
    events = e;
    downloaded = p;
    bytes = b;
    whole = im;
  }
  written-Post (some x) path pages s h = h.0

  archive-Ended :
      (pages : List Page) (s : Run)
      → Fetched w s0 peaceful (s0.events ++ resolving ∷ downloading ∷ []) pages s
      → Post
          (λ _ t. Ended w s0 t)
          (λ _ t. Midway s0 t)
          ((do
            transition w archiving
            path ← write_archive w pages
            pin_totals w path
            transition w completed)
            s)
  unfolding write_archive is_live
  archive-Ended pages s (m, e, p, b, im) =
      let (t, eq, mt, et, pt, bt) = transition_lem w s0 peaceful archiving s refl m in
      >>=-Post (λ _ u. u ≡ t) (λ _ u. Ended w s0 u) (λ _ u. Midway s0 u) (transition w archiving) _
        s (rw eq refl)
        (λ _ u same.
          >>=-Post (λ _ x. Written pages x) (λ _ x. Ended w s0 x) (λ _ x. Midway s0 x)
            (write_archive w pages) _ u
            (rw same (
              written-Post (w.write t.job.output_format pages (w.output_path t.job))
                (w.output_path t.job) pages t
                (
                  mt,
                  et ∙ ap (λ x. x ++ archiving ∷ []) e ∙ append_assoc s0.events _ _,
                  pt ∙ p,
                  bt ∙ b,
                  im,
                )))
            (λ path x h. complete-Ended pages path x h))

  download-Ended :
      (reresolve : Bool) (chapter : String) (urls : List String) (s : Run)
      → Midway s0 s
      → s.events ≡ s0.events ++ resolving ∷ []
      → Given w urls
      → Post (λ _ t. Ended w s0 t) (λ _ t. Midway s0 t) (download w reresolve chapter urls s)
  unfolding download is_live begin_download
  download-Ended reresolve chapter [] s m e g = fail-Ended w s0 peaceful _ s m
  download-Ended reresolve chapter (url ∷ urls) s m e g =
      let s1 = (begin_download w (url ∷ urls) s).1 in
      let m1 : Midway s0 s1 = record {
        id = m.id;
        handle = m.handle;
        owned = m.owned;
        path = m.path;
        time = m.time;
        published = m.published;
      } in
      let (t, eq, mt, et, pt, bt) = transition_lem w s0 peaceful downloading s1 refl m1 in
      let ev = s0.events ++ resolving ∷ downloading ∷ [] in
      >>=-Post (λ _ u. u ≡ s1) (λ _ u. Ended w s0 u) (λ _ u. Midway s0 u)
        (begin_download w (url ∷ urls)) _ s refl
        (λ _ u same.
          >>=-Post (λ _ x. x ≡ t) (λ _ x. Ended w s0 x) (λ _ x. Midway s0 x)
            (transition w downloading) _ u (rw (same, eq) refl)
            (λ _ x at.
              >>=-Post (Fetched w s0 peaceful ev) (λ _ y. Ended w s0 y) (λ _ y. Midway s0 y)
                (fetch_all_pages w reresolve max_manifest_reresolves chapter (url ∷ urls)) _ x
                (rw at (
                  all-Post w s0 peaceful reresolve chapter ev max_manifest_reresolves (url ∷ urls) t
                    (
                      (
                        mt,
                        et ∙ ap (λ l. l ++ downloading ∷ []) e ∙ append_assoc s0.events _ _,
                        pt,
                        bt,
                      ),
                      g,
                    )))
                (λ pages y h. archive-Ended pages y h)))

  with_chapter-Ended :
      (reresolve : Bool) (chapter : Option String) (s : Run)
      → Midway s0 s
      → s.events ≡ s0.events ++ resolving ∷ []
      → Post (λ _ t. Ended w s0 t) (λ _ t. Midway s0 t) (with_chapter w reresolve chapter s)
  unfolding fetch_manifest
  with_chapter-Ended reresolve none s m e = fail-Ended w s0 peaceful _ s m
  with_chapter-Ended reresolve (some chapter) s m e =
      let s1 = record s { manifests = s.manifests + 1 } in
      let m1 : Midway s0 s1 = record {
        id = m.id;
        handle = m.handle;
        owned = m.owned;
        path = m.path;
        time = m.time;
        published = m.published;
      } in
      >>=-Post (λ us t. (t ≡ s1) × Given w us) (λ _ t. Ended w s0 t) (λ _ t. Midway s0 t)
        (fetch_manifest w chapter) _ s
        (known-Post (λ us t. (t ≡ s1) × Given w us) (λ _ t. Midway s0 t)
          (w.manifest s.manifests chapter) s1 (λ us q. (refl, (s.manifests, chapter, q))) (λ _. m1))
        (λ urls t h. rw (h.0) (download-Ended reresolve chapter urls s1 m1 e h.1))

  with_source-Ended :
      (o : Option Bool)
      → Midway s0 s0
      → Post (λ _ t. Ended w s0 t) (λ _ t. Midway s0 t) (with_source w o s0)
  unfolding is_live
  with_source-Ended none m = fail-Ended w s0 peaceful _ s0 m
  with_source-Ended (some reresolve) m =
      let (t, eq, mt, et, pt, bt) = transition_lem w s0 peaceful resolving s0 refl m in
      >>=-Post (λ _ u. u ≡ t) (λ _ u. Ended w s0 u) (λ _ u. Midway s0 u) (transition w resolving) _
        s0 (rw eq refl)
        (λ _ u same. rw same (with_chapter-Ended reresolve s0.job.chapter_id t mt et))

  handle-Ended :
      (r : Outcome (Unit {0})) (s : Run)
      → Post (λ _ t. Ended w s0 t) (λ _ t. Midway s0 t) (r, s)
      → (t : Run) × (handle w (r, s) ≡ (ok tt, t)) × Ended w s0 t
  unfolding handle
  handle-Ended (ok _) s h = (s, refl, h)
  handle-Ended (raise (source_error c m st)) s h =
      let (t, e, f) = fail_lem w s0 peaceful _ s h in (t, e, inr f)
  handle-Ended (raise stale_manifest) s h =
      let (t, e, f) = fail_lem w s0 peaceful _ s h in (t, e, inr f)
  handle-Ended (raise (other n)) s h = let (t, e, f) = fail_lem w s0 peaceful _ s h in (t, e, inr f)

  -- A run from a valid table that holds the job's live row, a row that the other tasks keep,
  -- returns. Then either the job is completed: the published archive has one page for each URL of
  -- a manifest that the source gave, in order, each page is an image, `downloaded_pages` is their
  -- number, the byte total is exact, and the job went through resolving, downloading and
  -- archiving. Or the job is failed with a message, and nothing is published. Either way the row
  -- in the table is the job's.
  pub run-Ended :
      Owned s0.job.job_id s0.job.release_handle s0.table
      → (t : Run) × (run w s0 ≡ (ok tt, t)) × Ended w s0 t
  unfolding run run_inner
  run-Ended owned =
      let m : Midway s0 s0 = record {
        id = refl;
        handle = refl;
        owned = owned;
        path = refl;
        time = refl;
        published = refl;
      } in
      let (r, s) = run_inner w s0 in
      handle-Ended r s (with_source-Ended (w.reresolve_on_403 s0.job.source_key) m)
