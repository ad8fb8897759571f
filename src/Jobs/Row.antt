-- ===== src/Jobs/Row.antt =====
-- The columns of the `jobs` table and their conversions (src/manga_gateway/jobs/store.py).
use mangarr_gateway.Prelude.{Option, String, none, refl, ℕ, ◌≡◌}
use mangarr_gateway.Jobs.Model.{Job, JobStatus}

-- The columns of `_CREATE_SCHEMA`.
pub record Row : Type 0 where
  pub job_id : String
  pub release_handle : String
  pub source_key : String
  pub title : String
  pub status : JobStatus
  pub manga_id : Option ℕ
  pub output_format : String
  pub chapter_id : Option String
  pub language : Option String
  pub total_pages : Option ℕ
  pub downloaded_pages : Option ℕ
  pub total_bytes : ℕ
  pub remaining_bytes : ℕ
  pub output_path : Option String
  pub message : Option String
  pub created_at : ℕ
  pub updated_at : ℕ
  pub completed_at : Option ℕ
  pub manga_title : Option String
  pub chapter_number : Option String

-- `_job_values`
unfoldable pub job_values : Job → Row
job_values j = record {
  job_id = j.job_id;
  release_handle = j.release_handle;
  source_key = j.source_key;
  title = j.title;
  status = j.status;
  manga_id = j.manga_id;
  output_format = j.output_format;
  chapter_id = j.chapter_id;
  language = j.language;
  total_pages = j.total_pages;
  downloaded_pages = j.downloaded_pages;
  total_bytes = j.total_bytes;
  remaining_bytes = j.remaining_bytes;
  output_path = j.output_path;
  message = j.message;
  created_at = j.created_at;
  updated_at = j.updated_at;
  completed_at = j.completed_at;
  manga_title = j.manga_title;
  chapter_number = j.chapter_number;
}

-- `_row_to_job`: the fields that are no columns take the defaults of the dataclass.
unfoldable pub row_to_job : Row → Job
row_to_job r = record {
  job_id = r.job_id;
  release_handle = r.release_handle;
  source_key = r.source_key;
  title = r.title;
  status = r.status;
  manga_id = r.manga_id;
  output_format = r.output_format;
  chapter_id = r.chapter_id;
  language = r.language;
  total_pages = r.total_pages;
  downloaded_pages = r.downloaded_pages;
  total_bytes = r.total_bytes;
  remaining_bytes = r.remaining_bytes;
  output_path = r.output_path;
  message = r.message;
  created_at = r.created_at;
  updated_at = r.updated_at;
  completed_at = r.completed_at;
  downloaded_bytes = 0;
  download_started_at = none;
  manga_title = r.manga_title;
  chapter_number = r.chapter_number;
  page_count = none;
}

-- What a job loses when it is written and read back: the fields that are no columns.
abbrev pub forget_projection : Job → Job
forget_projection j = record j {
  downloaded_bytes = 0;
  download_started_at = none;
  page_count = none;
}

pub row_to_job-job_values : (j : Job) → row_to_job (job_values j) ≡ forget_projection j
unfolding row_to_job job_values
row_to_job-job_values j = refl

pub job_values-row_to_job : (r : Row) → job_values (row_to_job r) ≡ r
unfolding row_to_job job_values
job_values-row_to_job r = refl
