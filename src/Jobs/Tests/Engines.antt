-- ===== src/Jobs/Tests/Engines.antt =====
-- Concrete inputs for the theorems on the engine: a job of one source, whose first manifest goes
-- stale on its second page.
use mangarr_gateway.Prelude.{
  List, String, [], keep, none, refl, some, suc, true, zero, ℕ, ◌+◌, ◌∷◌, ◌≡◌,
}
use mangarr_gateway.Jobs.Model.{queued, completed, is_live, Job}
use mangarr_gateway.Jobs.Row.{job_values}
use mangarr_gateway.Jobs.Store.{ok, insert}
use mangarr_gateway.Jobs.Store
use mangarr_gateway.Jobs.Store.Valid.{IsValid-empty, insert-IsValid}
use mangarr_gateway.Jobs.Store.Owned.{Owned}
use mangarr_gateway.Jobs.Engine.{
  World, Run, Outcome, raise, source_error, other, Fetched, body, raises, ◌>>=◌,
}
use mangarr_gateway.Jobs.Engine.Pages.{fetch_page, fetch_all_pages}
use mangarr_gateway.Jobs.Engine.Drive.{
  write_through, transition, fail, begin_download, write_archive, pin_totals, download, run,
}
use mangarr_gateway.Jobs.Engine.Endings.{Ended}
use mangarr_gateway.Jobs.Engine.Total.{run-Ended}
use mangarr_gateway.Jobs.Engine.Limits.{Within, fetch_all_pages-Within, Absent, run_deleted}
use mangarr_gateway.Jobs.Engine.Settled.{run-Settled}
use mangarr_gateway.Jobs.Engine.Writes.{Settled}
use mangarr_gateway.Jobs.Engine

abbrev job : Job
job = record {
  job_id = "j_a";
  release_handle = "h1";
  source_key = "mangadex";
  title = "One";
  status = queued;
  manga_id = none;
  output_format = "cbz";
  chapter_id = some "c1";
  language = some "en";
  total_pages = none;
  downloaded_pages = none;
  total_bytes = 0;
  remaining_bytes = 0;
  output_path = none;
  message = none;
  created_at = 7;
  updated_at = 7;
  completed_at = none;
  downloaded_bytes = 0;
  download_started_at = none;
  manga_title = none;
  chapter_number = none;
  page_count = none;
}

abbrev manifests : ℕ → String → Outcome (List String)
manifests zero _ = Engine.ok ("u1" ∷ "u2" ∷ [])
manifests (suc n) _ = Engine.ok ("v1" ∷ [])

abbrev pages : ℕ → ℕ → String → ℕ → Fetched
pages zero (suc i) url a = raises (source_error "source_unavailable" "forbidden" (some 403))
pages _ _ url a = body (1 ∷ 2 ∷ 3 ∷ [])

abbrev world : World
world = record {
  reresolve_on_403 = λ _. some true;
  manifest = manifests;
  page = pages;
  finished = λ _. 0 ∷ 1 ∷ [];
  is_valid_image = λ _. true;
  page_filename = λ url. url;
  say_failed = λ i text. text;
  say_invalid = λ i c. "invalid";
  output_path = λ j. "/out/One.cbz";
  write = λ format ps path. none;
  others = λ n t. t;
  now = λ n. n + 10;
  validate_attempts = 3;
}

abbrev start : Run
start = record {
  job = job;
  table =
      record {
        job_id = "j_a";
        release_handle = "h1";
        source_key = "mangadex";
        title = "One";
        status = queued;
        manga_id = none;
        output_format = "cbz";
        chapter_id = some "c1";
        language = some "en";
        total_pages = none;
        downloaded_pages = none;
        total_bytes = 0;
        remaining_bytes = 0;
        output_path = none;
        message = none;
        created_at = 7;
        updated_at = 7;
        completed_at = none;
        manga_title = none;
        chapter_number = none;
      }
      ∷ [];
  events = [];
  published = none;
  manifests = 0;
  passes = 0;
  updates = 0;
  readings = 0;
}

inserted : insert [] job ≡ ok start.table
unfolding insert job_values is_live
inserted = refl

owned : Owned "j_a" "h1" start.table
unfolding is_live
owned = record { valid = insert-IsValid [] start.table job IsValid-empty inserted; present = refl }

run-Ended_example : (t : Run) × (run world start ≡ (Engine.ok tt, t)) × Ended world start t
run-Ended_example = run-Ended world start (λ n t o. o) owned

-- The completed job says two pages, and its archive holds one.
stale_count :
    ((run world start).1.job.status ≡ completed)
    × ((run world start).1.job.total_pages ≡ some 2)
    × ((run world start).1.job.downloaded_pages ≡ some 1)
unfolding run fetch_all_pages fetch_page write_through transition fail begin_download write_archive
    pin_totals download Store.update Store.stamp job_values is_live keep ◌>>=◌
stale_count = (refl, refl, refl)

fetch_all_pages-Within_example :
    Within 3 2 start (fetch_all_pages world true 2 "c1" ("u1" ∷ "u2" ∷ []) start).1
fetch_all_pages-Within_example = fetch_all_pages-Within world true 2 "c1" ("u1" ∷ "u2" ∷ []) start

abbrev deleted : Run
deleted = record start { table = [] }

run-Settled_example : Settled world "j_a" (run world deleted)
run-Settled_example = run-Settled world "j_a" deleted refl

row_gone : (t : Run) × (run world deleted ≡ (raise (other "KeyError"), t)) × Absent "j_a" t.table
row_gone = run_deleted world "j_a" (λ n t a. a) deleted refl refl
