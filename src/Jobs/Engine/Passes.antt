-- ===== src/Jobs/Engine/Passes.antt =====
-- What `_fetch_all_pages` leaves on the job, and that it ends within its budget.
use mangarr_gateway.Prelude.{
  Bool, List, String, [], ap, arith, refl, some, suc, zero, ℕ, ◌+◌, ◌∙◌, ◌∷◌, ◌≡◌,
}
use mangarr_gateway.Jobs.Model.{JobStatus}
use mangarr_gateway.Jobs.Engine.{
  Page, Exception, source_error, stale_manifest, other, Outcome, ok, raise, World, Run, Exec, ◌>>=◌,
}
use mangarr_gateway.Jobs.Engine.Rules.{known-Post, Post, >>=-Post}
use mangarr_gateway.Jobs.Engine.Pages.{
  settle, next_round, fetch_pages_once, fetch_all_pages, on_stale, pass_outcome, page_tasks,
  results, progress, require_pages,
}
use mangarr_gateway.Jobs.Engine.Progress.{Given, pass-Whole, SameJob-progress, progress_counts}
use mangarr_gateway.Jobs.Engine.Endings.{Peaceful, Midway, Fetched}

on_stale-Post :
    (Q : List Page → Run → Type 0) (E F : Exception → Run → Type 0) (again : Exec (List Page))
    (r : Outcome (List Page)) (s : Run)
    → Post Q E (r, s)
    → ((t : Run) → E stale_manifest t → Post Q F (again t))
    → ((e : Exception) (t : Run) → E e t → F e t)
    → Post Q F (on_stale again (r, s))
unfolding on_stale
on_stale-Post Q E F again (ok pages) s h k l = h
on_stale-Post Q E F again (raise (source_error c m st)) s h k l = l _ s h
on_stale-Post Q E F again (raise stale_manifest) s h k l = k s h
on_stale-Post Q E F again (raise (other n)) s h k l = l _ s h

pass-Post :
    (Q : List Page → Run → Type 0) (E : Exception → Run → Type 0) (b : Bool) (pages : List Page)
    (es : List Exception) (s : Run)
    → (es ≡ [] → Q pages s)
    → ((e : Exception) → E e s)
    → Post Q E (pass_outcome b pages es, s)
pass-Post Q E b pages [] s h k = h refl
pass-Post Q E b pages (e ∷ es) s h k = k _

module _ (w : World) (s0 : Run) (peaceful : Peaceful s0.job.job_id s0.job.release_handle w) where
  abbrev Retry : List JobStatus → Exception → Run → Type 0
  Retry events e t = Midway s0 t × (t.events ≡ events)

  module _ (reresolve : Bool) (chapter : String) (ev : List JobStatus) where
    once-Post :
        (urls : List String) (s : Run)
        → Midway s0 s
        → s.events ≡ ev
        → s.job.downloaded_pages ≡ some 0
        → s.job.downloaded_bytes ≡ 0
        → Given w urls
        → Post (Fetched w s0 peaceful ev) (Retry ev) (fetch_pages_once w reresolve urls s)
    unfolding fetch_pages_once
    once-Post urls s m e p b g =
        let (ts, es) = settle (w.finished s.passes) (page_tasks w s.passes 0 urls) in
        let same = SameJob-progress s.job ts in
        let counts = progress_counts w.page_filename s.job ts 0 p in
        let t = record s { job = progress s.job ts; passes = s.passes + 1 } in
        let m' : Midway s0 t = record {
          id = same.id ∙ m.id;
          handle = same.handle ∙ m.handle;
          owned = m.owned;
          path = same.path ∙ m.path;
          time = same.time ∙ m.time;
          published = m.published;
        } in
        pass-Post (Fetched w s0 peaceful ev) (Retry ev) reresolve (results w.page_filename ts) es t
          (λ z. (
            m',
            e,
            counts.0 ∙ ap some (omega arith),
            counts.1 ∙ omega arith,
            pass-Whole w s.passes (w.finished s.passes) urls g z,
          ))
          (λ _. (m', e))

    abbrev pub Ready : Run → Type 0
    Ready s =
        Midway s0 s
        × (s.events ≡ ev)
        × (s.job.downloaded_pages ≡ some 0)
        × (s.job.downloaded_bytes ≡ 0)

    require_pages-Post :
        (urls : List String) (s : Run)
        → Ready s
        → Given w urls
        → Post (λ us t. Ready t × Given w us) (λ _ t. Midway s0 t) (require_pages urls s)
    unfolding require_pages
    require_pages-Post [] s h g = h.0
    require_pages-Post (u ∷ urls) s h g = (h, g)

    again-Post :
        (rest : List String → Exec (List Page)) (t : Run)
        → Midway s0 t
        → t.events ≡ ev
        → ((urls : List String) (s : Run)
            → Ready s × Given w urls
            → Post (Fetched w s0 peaceful ev) (λ _ u. Midway s0 u) (rest urls s))
        → Post (Fetched w s0 peaceful ev) (λ _ u. Midway s0 u) (next_round w chapter rest t)
    unfolding ◌>>=◌ next_round
    again-Post rest t m e k =
        let t1 = record t {
          job = record t.job { downloaded_pages = some 0; downloaded_bytes = 0 };
          manifests = t.manifests + 1;
        } in
        let m1 : Midway s0 t1 = record {
          id = m.id;
          handle = m.handle;
          owned = m.owned;
          path = m.path;
          time = m.time;
          published = m.published;
        } in
        >>=-Post (λ us u. Ready u × Given w us) (Fetched w s0 peaceful ev) (λ _ u. Midway s0 u)
          (λ _. (w.manifest t.manifests chapter, t1)) (λ again. require_pages again >>= rest) t
          (known-Post (λ us u. Ready u × Given w us) (λ _ u. Midway s0 u)
            (w.manifest t.manifests chapter) t1
            (λ us q. ((m1, e, refl, refl), (t.manifests, chapter, q))) (λ _. m1))
          (λ urls u h.
            >>=-Post (λ us x. Ready x × Given w us) (Fetched w s0 peaceful ev) (λ _ x. Midway s0 x)
              (require_pages urls) rest u (require_pages-Post urls u h.0 h.1) k)

    pub all-Post :
        (budget : ℕ) (urls : List String) (s : Run)
        → Ready s × Given w urls
        → Post
            (Fetched w s0 peaceful ev)
            (λ _ t. Midway s0 t)
            (fetch_all_pages w reresolve budget chapter urls s)
    unfolding fetch_all_pages
    all-Post zero urls s ((m, e, p, b), g) =
        let (r, t) = fetch_pages_once w reresolve urls s in
        on_stale-Post (Fetched w s0 peaceful ev) (Retry ev) (λ _ t. Midway s0 t) _ r t
          (once-Post urls s m e p b g) (λ t h. h.0) (λ _ t h. h.0)
    all-Post (suc budget) urls s ((m, e, p, b), g) =
        let (r, t) = fetch_pages_once w reresolve urls s in
        on_stale-Post (Fetched w s0 peaceful ev) (Retry ev) (λ _ t. Midway s0 t) _ r t
          (once-Post urls s m e p b g)
          (λ t h.
            again-Post (fetch_all_pages w reresolve budget chapter) t h.0 h.1 (all-Post budget))
          (λ _ t h. h.0)
