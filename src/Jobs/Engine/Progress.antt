-- ===== src/Jobs/Engine/Progress.antt =====
-- What a pass over the pages leaves on the job.
use mangarr_gateway.Prelude.{
  All, Bool-cases, List, String, [], ap, arith, inl, inr, length, map, refl, some, suc, true, zero,
  ℕ, ◌+◌, ◌∙◌, ◌∷◌, ◌≡◌,
}
use mangarr_gateway.Jobs.Model.{Job}
use mangarr_gateway.Jobs.Engine.{
  Fetched, body, http_error, raises, Bytes, Page, Exception, Outcome, ok, raise, World,
}
use mangarr_gateway.Jobs.Engine.Pages.{
  check, results, progress, count_page, fetch_page, page_tasks, errors, arrivals, settled, settle,
}

-- The bytes of the pages.
abbrev pub total_size : List Page → ℕ
total_size [] = 0
total_size (p ∷ ps) = length p.1 + total_size ps

-- The fields of a job that its passes leave alone.
pub record SameJob (j k : Job) : Type 0 where
  pub id : k.job_id ≡ j.job_id
  pub handle : k.release_handle ≡ j.release_handle
  pub status : k.status ≡ j.status
  pub path : k.output_path ≡ j.output_path
  pub time : k.completed_at ≡ j.completed_at
  pub total : k.total_pages ≡ j.total_pages

pub SameJob-progress :
    (j : Job) (ts : List (ℕ × String × Outcome Bytes)) → SameJob j (progress j ts)
unfolding progress
SameJob-progress j [] = record {
  id = refl;
  handle = refl;
  status = refl;
  path = refl;
  time = refl;
  total = refl;
}
SameJob-progress j ((i, url, ok c) ∷ ts) =
    let s = SameJob-progress (count_page j c) ts in
    record {
      id = s.id;
      handle = s.handle;
      status = s.status;
      path = s.path;
      time = s.time;
      total = s.total;
    }
SameJob-progress j ((i, url, raise e) ∷ ts) = SameJob-progress j ts

-- The counters grow by the pages that are there and by their bytes.
pub progress_counts :
    (filename : String → String) (j : Job) (ts : List (ℕ × String × Outcome Bytes)) (n : ℕ)
    → j.downloaded_pages ≡ some n
    → ((progress j ts).downloaded_pages ≡ some (n + length (results filename ts)))
      × ((progress j ts).downloaded_bytes ≡ j.downloaded_bytes + total_size (results filename ts))
unfolding progress results
progress_counts filename j [] n h = (h ∙ ap some (omega arith), omega arith)
progress_counts filename j ((i, url, ok c) ∷ ts) n h =
    let s = progress_counts filename (count_page j c) ts (n + 1) (rw h) in
    (s.0 ∙ ap some (omega arith), s.1 ∙ omega arith)
progress_counts filename j ((i, url, raise e) ∷ ts) n h = progress_counts filename j ts n h

-- A page is taken only if it is an image.
pub check_image :
    (w : World) (again : Bytes → Outcome Bytes) (i : ℕ) (f : Fetched) (c : Bytes)
    → ((b : Bytes) → again b ≡ ok c → w.is_valid_image c ≡ true)
    → check w again i f ≡ ok c
    → w.is_valid_image c ≡ true
check_image w again i (body b) c h e = elim (Bool-cases (w.is_valid_image b)) [
  | inl v ↦ ground (arith, v)
  | inr v ↦ h b (ground (arith, v))
]
check_image w again i (http_error t) c h e = cc
check_image w again i (raises x) c h e = cc

pub fetch_page-image :
    (w : World) (n pass i : ℕ) (url : String) (a : ℕ) (c : Bytes)
    → fetch_page w n pass i url a ≡ ok c
    → w.is_valid_image c ≡ true
unfolding fetch_page
fetch_page-image w zero pass i url a c h = cc
fetch_page-image w (suc zero) pass i url a c h =
    check_image w _ i (w.page pass i url a) c (λ b e. cc) h
fetch_page-image w (suc (suc n)) pass i url a c h =
    check_image w _ i (w.page pass i url a) c
      (λ b e. fetch_page-image w (suc n) pass i url (suc a) c e) h

abbrev pub AreImages : World → List Page → Type 0
AreImages w = All (λ p. w.is_valid_image p.1 ≡ true)

abbrev Sound : World → List (ℕ × String × Outcome Bytes) → Type 0
Sound w = All (λ t. (c : Bytes) → t.2 ≡ ok c → w.is_valid_image c ≡ true)

Sound-page_tasks :
    (w : World) (pass i : ℕ) (urls : List String) → Sound w (page_tasks w pass i urls)
unfolding page_tasks
Sound-page_tasks w pass i [] = tt
Sound-page_tasks w pass i (url ∷ urls) = (
  λ c h. fetch_page-image w w.validate_attempts pass i url 0 c h,
  Sound-page_tasks w pass (suc i) urls,
)

-- The source has answered these URLs to a request for a manifest.
abbrev pub Given : World → List String → Type 0
Given w urls = (n : ℕ) × (chapter : String) × (w.manifest n chapter ≡ ok urls)

-- The pages are those of a whole manifest that the source gave: one for each of its URLs, in order.
pub record Whole (w : World) (pages : List Page) : Type 0 where
  pub images : AreImages w pages
  pub urls : List String
  pub given : Given w urls
  pub names : map (λ p. p.0) pages ≡ map w.page_filename urls

AreImages-results :
    (w : World) (filename : String → String) (ts : List (ℕ × String × Outcome Bytes))
    → Sound w ts
    → AreImages w (results filename ts)
unfolding results
AreImages-results w filename [] h = tt
AreImages-results w filename ((i, url, ok c) ∷ ts) h =
    (h.0 c refl, AreImages-results w filename ts h.1)
AreImages-results w filename ((i, url, raise e) ∷ ts) h = AreImages-results w filename ts h.1

results-names :
    (filename : String → String) (ts : List (ℕ × String × Outcome Bytes))
    → errors ts ≡ []
    → map (λ p. p.0) (results filename ts) ≡ map (λ t. filename t.1) ts
unfolding results errors
results-names filename [] h = refl
results-names filename ((i, url, ok c) ∷ ts) h =
    ap (λ l. filename url ∷ l) (results-names filename ts h)
results-names filename ((i, url, raise e) ∷ ts) h = cc

names-page_tasks :
    (w : World) (pass i : ℕ) (urls : List String)
    → map (λ t. w.page_filename t.1) (page_tasks w pass i urls) ≡ map w.page_filename urls
unfolding page_tasks
names-page_tasks w pass i [] = refl
names-page_tasks w pass i (url ∷ urls) =
    ap (λ l. w.page_filename url ∷ l) (names-page_tasks w pass (suc i) urls)

-- A task group without an exception has run all its tasks.
settled_all :
    (done : List ℕ) (ts : List (ℕ × String × Outcome Bytes)) (es : List Exception)
    → (settled done ts es).1 ≡ []
    → ((settled done ts es).0 ≡ ts) × (errors ts ≡ [])
settled_all done ts [] h = (refl, h)
settled_all done ts (e ∷ es) h = cc

pub pass-Whole :
    (w : World) (pass : ℕ) (done : List ℕ) (urls : List String)
    → Given w urls
    → (settle done (page_tasks w pass 0 urls)).1 ≡ []
    → Whole w (results w.page_filename (settle done (page_tasks w pass 0 urls)).0)
unfolding settle
pass-Whole w pass done urls given h =
    let ts = page_tasks w pass 0 urls in
    let (all, fine) = settled_all done ts (errors (arrivals done ts)) h in
    record {
      images = rw all (AreImages-results w w.page_filename ts (Sound-page_tasks w pass 0 urls));
      urls = urls;
      given = given;
      names = rw all (results-names w.page_filename ts fine ∙ names-page_tasks w pass 0 urls);
    }
