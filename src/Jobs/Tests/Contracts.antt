-- ===== src/Jobs/Tests/Contracts.antt =====
-- Requests for the contract of the store.
use mangarr_gateway.Prelude.{List, String, [], none, ◌∷◌}
use mangarr_gateway.Jobs.Model.{Job, queued}
use mangarr_gateway.Jobs.Store.Contract.{Request, insert, delete, find_live_by_handle, Conforms}
use mangarr_gateway.Jobs.Store.Contract.Refines.{serve-Conforms}

abbrev job : String → Job
job i = record {
  job_id = i;
  release_handle = "h1";
  source_key = "mangadex";
  title = "One";
  status = queued;
  manga_id = none;
  output_format = "cbz";
  chapter_id = none;
  language = none;
  total_pages = none;
  downloaded_pages = none;
  total_bytes = 0;
  remaining_bytes = 0;
  output_path = none;
  message = none;
  created_at = 1;
  updated_at = 1;
  completed_at = none;
  downloaded_bytes = 0;
  download_started_at = none;
  manga_title = none;
  chapter_number = none;
  page_count = none;
}

-- The second insert is refused.
abbrev asked : List Request
asked = insert (job "j_a") ∷ insert (job "j_b") ∷ find_live_by_handle "h1" ∷ delete "j_a" ∷ []

serve-Conforms_example : Conforms asked (λ _. none) []
serve-Conforms_example = serve-Conforms asked
