-- ===== src/Jobs/Manager.antt =====
-- src/manga_gateway/jobs/manager.py, and `SubmitRequest` of models/download.py: the table, the in-memory projection and the tasks started.
-- A method is a function on this state. What the disk, the clock and the random source answer are
-- arguments.
use mangarr_gateway.Prelude.{
  Bool, List, Option, String, [], false, if◌then◌else◌, keep, length, map, max, min, none, some,
  string_eq, true, ℕ, ◌&&◌, ◌++◌, ◌==◌, ◌∷◌,
}
pub mod Submit
pub mod Lifecycle
pub mod Telemetry
pub mod Slots
use mathlib.Core.Option
use Prim.Native.String.{◌++◌ as append_text}
use mangarr_gateway.Prelude.Dict
use mangarr_gateway.Prelude.Dict.{Dict}
use mangarr_gateway.Handles.Record.{ResolutionRecord}
use mangarr_gateway.Jobs.Model.{Job, JobStatus, queued, completed}
use mangarr_gateway.Jobs.Store.{Table, Result, ok, err}
use mangarr_gateway.Jobs.Store

pub record SubmitRequest : Type 0 where
  pub release_handle : String
  pub download_url : Option String
  pub source_key : String
  pub title : Option String
  pub manga_id : Option ℕ
  pub manga_title : Option String
  pub chapter_ids : Option (List ℕ)
  pub chapter_numbers : Option (List String)
  pub output_format : String

pub record Manager : Type 0 where
  pub table : Table
  pub projection : Dict String Job
  pub tasks : List String

-- `a or b` on an optional text: the empty text counts as absent.
abbrev pub or_else : Option String → String → String
or_else none b = b
or_else (some a) b = if a == "" then b else a

-- `status is JobStatus.COMPLETED`
abbrev pub is_completed : JobStatus → Bool
is_completed completed = true
is_completed _ = false

-- `status is JobStatus.QUEUED`
abbrev pub is_queued : JobStatus → Bool
is_queued queued = true
is_queued _ = false

-- `exists` is `os.path.exists`.
module _ (exists : String → Bool) where
  -- The path is there, by one stat.
  abbrev output_there : Option String → Bool
  output_there none = false
  output_there (some p) = exists p

  reusable : Option Job → Option (String × JobStatus)
  reusable none = none
  reusable (some latest) =
      if is_completed latest.status && output_there latest.output_path
      then some (latest.job_id, latest.status)
      else none

  -- The two checks of `submit` that find an existing job.
  unfoldable pub submit_check : Manager → SubmitRequest → Option (String × JobStatus)
  unfolding reusable
  submit_check m req = elim (Store.find_live_by_handle m.table req.release_handle) [
    | some live ↦ some (live.job_id, live.status)
    | none ↦ reusable (Store.find_latest_by_handle m.table req.release_handle)
  ]

-- `except aiosqlite.IntegrityError`: the job that won, or the error again.
unfoldable pub submit_lost : Manager → String → Store.StoreError → Result (String × JobStatus)
submit_lost m handle e = elim (Store.find_live_by_handle m.table handle) [
  | some existing ↦ ok (existing.job_id, existing.status)
  | none ↦ err e
]

-- `token` is what `secrets.token_urlsafe` answers.
module _ (float : String → String) where
  unfoldable pub new_job : String → ℕ → ResolutionRecord → SubmitRequest → Job
  new_job token now rec req = record {
    job_id = append_text "j_" token;
    release_handle = req.release_handle;
    source_key = or_else (some req.source_key) rec.source_key;
    title = or_else req.title rec.title;
    status = queued;
    manga_id = req.manga_id;
    output_format = req.output_format;
    chapter_id = some rec.chapter_id;
    language = some rec.language;
    total_pages = none;
    downloaded_pages = none;
    total_bytes = 0;
    remaining_bytes = 0;
    output_path = none;
    message = none;
    created_at = now;
    updated_at = now;
    completed_at = none;
    downloaded_bytes = 0;
    download_started_at = none;
    manga_title = rec.manga_title;
    chapter_number = Option.map float rec.chapter_number;
    page_count = rec.page_count;
  }

  -- From the insert on: write-through first, then the projection, then the task.
  unfoldable pub submit_insert :
      String
      → ℕ
      → ResolutionRecord
      → SubmitRequest
      → Manager
      → Result (String × JobStatus) × Manager
  unfolding new_job submit_lost
  submit_insert token now rec req m =
      let j = new_job token now rec req in
      elim (Store.insert m.table j) [
        | ok t ↦ (
          ok (j.job_id, queued),
          record m {
            table = t;
            projection = Dict.put m.projection j.job_id j;
            tasks = m.tasks ++ j.job_id ∷ [];
          },
        )
        | err e ↦ (submit_lost m req.release_handle e, m)
      ]

unfoldable pub submit :
    (String → Bool)
    → (String → String)
    → String
    → ℕ
    → ResolutionRecord
    → SubmitRequest
    → Manager
    → Result (String × JobStatus) × Manager
unfolding submit_check submit_insert
submit exists float token now rec req m = elim (submit_check exists m req) [
  | some found ↦ (ok found, m)
  | none ↦ submit_insert float token now rec req m
]

unfoldable pub get : Manager → String → Option Job
get m i = Dict.get m.projection i

-- The projected job, or else the row.
unfoldable pub known_job : Manager → String → Option Job
known_job m i = elim (Dict.get m.projection i) [ some j ↦ some j | none ↦ Store.get m.table i ]

-- `remove`: whether the job was known, the job whose files are unlinked, and the state after.
unfoldable pub remove : String → Bool → Manager → Bool × Option Job × Manager
unfolding known_job
remove i delete_data m = elim (known_job m i) [
  | none ↦ (false, none, m)
  | some job ↦ (
    true,
    (if delete_data then some job else none),
    record m { projection = Dict.pop m.projection i; table = Store.delete m.table i },
  )
]

unfoldable pub by_id : List Job → Dict String Job
by_id [] = []
by_id (j ∷ js) = (j.job_id, j) ∷ by_id js

-- `rehydrate`: requeue, prune, then read every row.
unfoldable pub rehydrate : ℕ → ℕ → Manager → Manager
unfolding by_id
rehydrate max_history_jobs now m =
    let t = (Store.prune_terminal max_history_jobs (Store.rehydrate now m.table)).0 in
    record m { table = t; projection = by_id (Store.all t) }

-- `resume_interrupted`: the count, and the state with a task for each queued job.
unfoldable pub resume_interrupted : Manager → ℕ × Manager
resume_interrupted m =
    let resumed = map (λ e. e.0) (keep (λ e. is_queued e.1.status) m.projection) in
    (length resumed, record m { tasks = m.tasks ++ resumed })

-- `_per_source_bound`: the source's own bound if it sets one, within the global one.
unfoldable pub per_source_bound : Option ℕ → ℕ → ℕ → ℕ
per_source_bound (some override) max_concurrent_per_source max_concurrent_chapters =
    max 1 (min override max_concurrent_chapters)
per_source_bound none max_concurrent_per_source max_concurrent_chapters =
    max 1 (min max_concurrent_per_source max_concurrent_chapters)
