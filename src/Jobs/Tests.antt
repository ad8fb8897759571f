-- ===== src/Jobs/Tests.antt =====
-- Concrete inputs for the theorems on the download jobs: the table and the manager.
mod Engines
mod Contracts
use mangarr_gateway.Prelude.Latest
use mangarr_gateway.Prelude.{
  Bool, String, [], arith, count, false, keep, length, map, max, none, refl, some, string_eq, take,
  ℕ, ◌&&◌, ◌++◌, ◌∷◌, ◌≡◌, ◌≤◌,
}
use mangarr_gateway.Prelude.Dict
use mangarr_gateway.Handles.Record.{ResolutionRecord}
use mangarr_gateway.Jobs.Model.{Job, queued, completed, is_live}
use mangarr_gateway.Jobs.Row.{Row, job_values, row_to_job}
use mangarr_gateway.Jobs.Store.{
  Table, ok, insert, latest_first, prune_terminal, is_terminal, find_live_by_handle,
  find_latest_by_handle, update,
}
use mangarr_gateway.Jobs.Store
use mangarr_gateway.Jobs.Store.Valid.{IsValid, IsValid-empty, insert-IsValid, update-IsValid}
use mangarr_gateway.Jobs.Store.Retention.{prune_terminal-latest}
use mangarr_gateway.Jobs.Manager.{
  Manager, SubmitRequest, submit, submit_insert, new_job, rehydrate, resume_interrupted, known_job,
}
use mangarr_gateway.Jobs.Manager
use mangarr_gateway.Jobs.Manager.Submit.{submit-again, submit_insert-race}
use mangarr_gateway.Jobs.Manager.Lifecycle.{resume_interrupted-rehydrate}
use mangarr_gateway.Jobs.Manager.Slots.{
  Slots, waiting_source, Reach, here, next, Step, start, is_running, of_source,
}
use mangarr_gateway.Jobs.Manager.Slots.Bounds.{all_free, Reach-running-le, Reach-progress}

abbrev record_one : ResolutionRecord
record_one = record {
  source_key = "mangadex";
  chapter_id = "c1";
  language = "en";
  title = "One";
  manga_title = some "Series";
  chapter_number = some "1.5";
  volume = none;
  scanlation_group = none;
  page_count = some 2;
}

abbrev request : SubmitRequest
request = record {
  release_handle = "h1";
  download_url = none;
  source_key = "mangadex";
  title = none;
  manga_id = none;
  manga_title = none;
  chapter_ids = none;
  chapter_numbers = none;
  output_format = "cbz";
}

abbrev float : String → String
float s = s

abbrev no_file : String → Bool
no_file _ = false

abbrev nothing : Manager
nothing = record { table = []; projection = []; tasks = [] }

abbrev job_one : Job
job_one = record {
  job_id = "j_a";
  release_handle = "h1";
  source_key = "mangadex";
  title = "One";
  status = queued;
  manga_id = none;
  output_format = "cbz";
  chapter_id = some "c1";
  language = some "en";
  total_pages = none;
  downloaded_pages = none;
  total_bytes = 0;
  remaining_bytes = 0;
  output_path = none;
  message = none;
  created_at = 7;
  updated_at = 7;
  completed_at = none;
  downloaded_bytes = 0;
  download_started_at = none;
  manga_title = some "Series";
  chapter_number = some "1.5";
  page_count = some 2;
}

new_job_one : new_job float "a" 7 record_one request ≡ job_one
unfolding new_job
new_job_one = refl

abbrev row_one : Row
row_one = record {
  job_id = "j_a";
  release_handle = "h1";
  source_key = "mangadex";
  title = "One";
  status = queued;
  manga_id = none;
  output_format = "cbz";
  chapter_id = some "c1";
  language = some "en";
  total_pages = none;
  downloaded_pages = none;
  total_bytes = 0;
  remaining_bytes = 0;
  output_path = none;
  message = none;
  created_at = 7;
  updated_at = 7;
  completed_at = none;
  manga_title = some "Series";
  chapter_number = some "1.5";
}

abbrev one : Manager
one = record { table = row_one ∷ []; projection = ("j_a", job_one) ∷ []; tasks = "j_a" ∷ [] }

program : Unit {0}
unfolding submit find_live_by_handle find_latest_by_handle keep Latest.latest_first Latest.place
    insert job_values row_to_job Dict.put Dict.get Store.get is_live
program = tt

submitted : submit no_file float "a" 7 record_one request nothing ≡ (ok ("j_a", queued), one)
unfolding program
submitted = refl

inserted : insert [] job_one ≡ ok one.table
unfolding program
inserted = refl

IsValid-one : IsValid one.table
IsValid-one = insert-IsValid [] one.table job_one IsValid-empty inserted

abbrev done_one : Job
done_one = record job_one { status = completed; output_path = some "/out/One.cbz"; updated_at = 9 }

abbrev after_one : Table
after_one =
    record row_one { status = completed; output_path = some "/out/One.cbz"; updated_at = 9 } ∷ []

updated_one : update one.table done_one ≡ ok after_one
unfolding update program is_live
updated_one = refl

IsValid-after : IsValid after_one
IsValid-after = update-IsValid one.table after_one done_one IsValid-one updated_one

prune_terminal-latest_example :
    latest_first (keep is_terminal (prune_terminal 1 after_one).0)
    ≡ take (max 1 1) (latest_first (keep is_terminal after_one))
prune_terminal-latest_example = prune_terminal-latest 1 after_one IsValid-after

submit-again_example : submit no_file float "b" 8 record_one request one ≡ (ok ("j_a", queued), one)
submit-again_example =
    submit-again no_file float "a" "b" 7 8 record_one record_one request nothing one ("j_a", queued)
      submitted

inserted_one : submit_insert float "a" 7 record_one request nothing ≡ (ok ("j_a", queued), one)
unfolding submit_insert program
inserted_one = refl

submit_insert-race_example :
    submit_insert float "b" 8 record_one request one ≡ (ok ("j_a", queued), one)
submit_insert-race_example =
    submit_insert-race float "a" "b" 7 8 record_one record_one request request nothing one
      ("j_a", queued) refl inserted_one

known_one : known_job one "j_a" ≡ some job_one
unfolding known_job program
known_one = refl

resume_interrupted-rehydrate_example :
    (resume_interrupted (rehydrate 500 9 one)).1.tasks
    ≡ one.tasks ++ map (λ (r : Row). r.job_id) (keep (λ (r : Row). is_live r.status) one.table)
resume_interrupted-rehydrate_example = resume_interrupted-rehydrate 500 9 one

abbrev one_each : String → ℕ
one_each _ = 1

abbrev waiting : Slots
waiting = record {
  global_free = 3;
  source_free = ("mangadex", 1) ∷ [];
  tasks = record { job_id = "j_a"; source_key = "mangadex"; phase = waiting_source } ∷ [];
}

reached : Reach one_each (all_free 3) waiting
unfolding Dict.get Dict.put
reached = next here (start (all_free 3) "j_a" "mangadex")

Reach-running-le_example :
    (count is_running waiting.tasks ≤ 3)
    × ((k : String) → count (λ t. of_source k t && is_running t) waiting.tasks ≤ 1)
Reach-running-le_example = Reach-running-le one_each 3 waiting reached

Reach-progress_example :
    (t : Slots) × Step one_each waiting t × (length t.tasks ≤ length waiting.tasks)
Reach-progress_example =
    Reach-progress one_each 3 waiting (omega arith) (λ k. omega arith) reached (omega arith)
