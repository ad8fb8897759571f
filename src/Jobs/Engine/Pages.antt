-- ===== src/Jobs/Engine/Pages.antt =====
-- `_fetch_pages_once` and `_fetch_all_pages` of engine.py.
use mangarr_gateway.Prelude.{
  Bool, List, Option, String, [], any, false, if◌then◌else◌, keep, length, nat_beq, none, not, some,
  suc, true, zero, ℕ, ◌&&◌, ◌++◌, ◌+◌, ◌∷◌,
}
use mangarr_gateway.Jobs.Model.{Job}
use mangarr_gateway.Jobs.Engine.{
  Bytes, Page, Exception, source_error, stale_manifest, other, Outcome, ok, raise, Fetched, body,
  http_error, raises, World, Run, Exec, pure, throw, modify_job, ◌>>=◌, ◌>>◌,
}

module _ (w : World) where
  abbrev pub check : (Bytes → Outcome Bytes) → ℕ → Fetched → Outcome Bytes
  check again i (body c) = if w.is_valid_image c then ok c else again c
  check again i (http_error text) =
      raise (source_error "source_unavailable" (w.say_failed (i + 1) text) none)
  check again i (raises e) = raise e

  -- `_one`: the attempts on one page. A body that is no image is fetched again.
  unfoldable pub fetch_page : ℕ → ℕ → ℕ → String → ℕ → Outcome Bytes
  fetch_page zero pass i url a = raise (other "UnboundLocalError")
  fetch_page (suc zero) pass i url a =
      check (λ c. raise (source_error "source_unavailable" (w.say_invalid (i + 1) c) none)) i
        (w.page pass i url a)
  fetch_page (suc (suc n)) pass i url a =
      let rest = fetch_page (suc n) pass i url (suc a) in check (λ _. rest) i (w.page pass i url a)

  -- The outcome of each page task of a pass, in manifest order.
  unfoldable pub page_tasks : ℕ → ℕ → List String → List (ℕ × String × Outcome Bytes)
  page_tasks pass i [] = []
  page_tasks pass i (url ∷ urls) =
      (i, url, fetch_page w.validate_attempts pass i url 0) ∷ page_tasks pass (suc i) urls

abbrev pub ended : List ℕ → ℕ × String × Outcome Bytes → Bool
ended done t = any (λ i. nat_beq i t.0) done

-- The tasks that ended, in the order of their ends.
unfoldable pub arrivals :
    List ℕ → List (ℕ × String × Outcome Bytes) → List (ℕ × String × Outcome Bytes)
arrivals [] ts = []
arrivals (i ∷ is) ts = keep (λ t. nat_beq i t.0) ts ++ arrivals is ts

-- `x or 0`
abbrev pub or_zero : Option ℕ → ℕ
or_zero (some n) = n
or_zero none = 0

-- `job.downloaded_pages` and `job.downloaded_bytes` grow with each page that is there.
unfoldable pub count_page : Job → Bytes → Job
count_page j c = record j {
  downloaded_pages = some (or_zero j.downloaded_pages + 1);
  downloaded_bytes = j.downloaded_bytes + length c;
}

-- The pages of the tasks, their exceptions, and the progress on the job.
unfoldable pub results : (String → String) → List (ℕ × String × Outcome Bytes) → List Page
results filename [] = []
results filename ((i, url, ok c) ∷ ts) = (filename url, c) ∷ results filename ts
results filename ((i, url, raise e) ∷ ts) = results filename ts

unfoldable pub errors : List (ℕ × String × Outcome Bytes) → List Exception
errors [] = []
errors ((i, url, ok c) ∷ ts) = errors ts
errors ((i, url, raise e) ∷ ts) = e ∷ errors ts

unfoldable pub progress : Job → List (ℕ × String × Outcome Bytes) → Job
unfolding count_page
progress j [] = j
progress j ((i, url, ok c) ∷ ts) = progress (count_page j c) ts
progress j ((i, url, raise e) ∷ ts) = progress j ts

-- The task group: the first exception cancels the tasks that have not ended, and without one they
-- all end. The tasks that end, and the exceptions in the order they came.
abbrev pub settled :
    List ℕ
    → List (ℕ × String × Outcome Bytes)
    → List Exception
    → List (ℕ × String × Outcome Bytes) × List Exception
settled done ts [] = (ts, errors ts)
settled done ts (e ∷ es) = (keep (ended done) ts, e ∷ es)

unfoldable pub settle :
    List ℕ → List (ℕ × String × Outcome Bytes) → List (ℕ × String × Outcome Bytes) × List Exception
unfolding arrivals errors
settle done ts = settled done ts (errors (arrivals done ts))

abbrev pub is_source_error : Exception → Bool
is_source_error (source_error _ _ _) = true
is_source_error _ = false

abbrev pub is_403 : Exception → Bool
is_403 (source_error _ _ (some status)) = nat_beq status 403
is_403 _ = false

-- `type(exc).__name__`
unfoldable pub type_name : Exception → String
type_name (source_error _ _ _) = "SourceError"
type_name stale_manifest = "_StaleManifest"
type_name (other n) = n

-- What `except* SourceError` raises: `eg` holds the SourceErrors, in their order.
unfoldable pub handled : Bool → List Exception → Exception
handled reresolve [] = stale_manifest
handled reresolve (e ∷ eg) = if reresolve && any is_403 (e ∷ eg) then stale_manifest else e

-- The exception that leaves the task group. Other exceptions stay in a group, of which the first
-- leaf is kept: what the handler raised comes before them.
unfoldable pub group : Bool → Exception → List Exception → Exception
unfolding handled type_name
group reresolve first es = elim (keep is_source_error es) [
  | [] ↦ other (type_name first)
  | e ∷ eg ↦
      if any (λ x. not (is_source_error x)) es
      then other (type_name (handled reresolve (e ∷ eg)))
      else handled reresolve (e ∷ eg)
]

abbrev pub pass_outcome : Bool → List Page → List Exception → Outcome (List Page)
pass_outcome reresolve pages [] = ok pages
pass_outcome reresolve pages (e ∷ es) = raise (group reresolve e (e ∷ es))

-- `if not manifest: raise`
unfoldable pub require_pages : List String → Exec (List String)
require_pages [] =
    throw (source_error "source_unavailable" "manifest re-resolved to zero pages" none)
require_pages (url ∷ urls) = pure (url ∷ urls)

-- What the loop does with a pass: `again` is the next round.
unfoldable pub on_stale : Exec (List Page) → Outcome (List Page) × Run → Outcome (List Page) × Run
on_stale again (ok pages, s) = (ok pages, s)
on_stale again (raise stale_manifest, s) = again s
on_stale again (raise e, s) = (raise e, s)

-- `source.fetch_manifest(job.chapter_id, ctx)`
unfoldable pub fetch_manifest : World → String → Exec (List String)
fetch_manifest w chapter s =
    (w.manifest s.manifests chapter, record s { manifests = s.manifests + 1 })

-- The round after a stale pass: the counters start again on a fresh manifest.
unfoldable pub next_round : World → String → (List String → Exec (List Page)) → Exec (List Page)
unfolding fetch_manifest require_pages
next_round w chapter rest = do
  modify_job (λ j. record j { downloaded_pages = some 0; downloaded_bytes = 0 })
  again ← fetch_manifest w chapter
  fresh ← require_pages again
  rest fresh

module _ (w : World) (reresolve : Bool) where
  -- `_fetch_pages_once`
  unfoldable pub fetch_pages_once : List String → Exec (List Page)
  unfolding page_tasks results settle progress group
  fetch_pages_once urls s =
      let (ts, es) = settle (w.finished s.passes) (page_tasks w s.passes 0 urls) in
      (
        pass_outcome reresolve (results w.page_filename ts) es,
        record s { job = progress s.job ts; passes = s.passes + 1 },
      )

  -- `_fetch_all_pages`, with `budget` re-resolves left of `_MAX_MANIFEST_RERESOLVES`.
  unfoldable pub fetch_all_pages : ℕ → String → List String → Exec (List Page)
  unfolding fetch_pages_once on_stale next_round
  fetch_all_pages zero chapter urls s =
      on_stale
        (throw (source_error "source_unavailable" "stale manifest re-resolve budget exceeded" none))
        (fetch_pages_once urls s)
  fetch_all_pages (suc budget) chapter urls s =
      on_stale (next_round w chapter (fetch_all_pages budget chapter)) (fetch_pages_once urls s)
