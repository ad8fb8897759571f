-- ===== src/Jobs/Model.antt =====
-- src/manga_gateway/jobs/model.py: the lifecycle states and the durable job record. A time is the
-- instant that its ISO-8601 text stands for, and a float is the text of the number.
use mangarr_gateway.Prelude.{Bool, Option, String, false, true, ℕ}

pub data JobStatus : Type 0 where
  queued resolving downloading archiving completed failed : JobStatus

pub JobStatus-discrete : Discrete JobStatus
JobStatus-discrete = hlevel

-- `_LIVE_STATUSES`
unfoldable pub is_live : JobStatus → Bool
is_live queued = true
is_live resolving = true
is_live downloading = true
is_live archiving = true
is_live completed = false
is_live failed = false

pub record Job : Type 0 where
  pub job_id : String
  pub release_handle : String
  pub source_key : String
  pub title : String
  pub status : JobStatus
  pub manga_id : Option ℕ
  pub output_format : String
  pub chapter_id : Option String
  pub language : Option String
  pub total_pages : Option ℕ
  pub downloaded_pages : Option ℕ
  pub total_bytes : ℕ
  pub remaining_bytes : ℕ
  pub output_path : Option String
  pub message : Option String
  pub created_at : ℕ
  pub updated_at : ℕ
  pub completed_at : Option ℕ
  pub downloaded_bytes : ℕ
  pub download_started_at : Option ℕ
  pub manga_title : Option String
  pub chapter_number : Option String
  pub page_count : Option ℕ
