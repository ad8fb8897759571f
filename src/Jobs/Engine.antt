-- ===== src/Jobs/Engine.antt =====
-- src/manga_gateway/jobs/engine.py: what one run of the engine reads, the state that it changes,
-- and actions that may raise. What was written before a raise stays written.
pub mod Rules
pub mod Pages
pub mod Progress
pub mod Drive
pub mod Endings
pub mod Passes
pub mod Total
pub mod Limits
pub mod Writes
pub mod Settled
use mangarr_gateway.Prelude.{Bool, List, Option, String, ℕ}
use mangarr_gateway.Jobs.Model.{Job, JobStatus}
use mangarr_gateway.Jobs.Store.{Table}

abbrev pub Bytes : Type 0
Bytes = List ℕ

-- A page of the archive: its file name and its content.
abbrev pub Page : Type 0
Page = String × Bytes

-- `other` names the type of an exception that is no `SourceError`.
pub data Exception : Type 0 where
  source_error : String → String → Option ℕ → Exception
  stale_manifest : Exception
  other : String → Exception

pub data Outcome {ℓ} (A : Type ℓ) : Type ℓ where
  ok : A → Outcome A
  raise : Exception → Outcome A

-- What one attempt to fetch a page gives: its bytes, an `httpx.HTTPError` by its text, or any
-- other exception.
pub data Fetched : Type 0 where
  body : Bytes → Fetched
  http_error : String → Fetched
  raises : Exception → Fetched

-- What the code outside answers during one run. `manifest n` is the answer to the n-th
-- `fetch_manifest`; `page p i url a` that to attempt a on page i in pass p; `finished p` the tasks
-- of pass p that have ended when a task group that fails has cancelled the rest, in that order;
-- `write` the exception of the writer, if any; `others n` what other tasks do to the table before
-- the n-th update; `now n` the n-th reading of the clock.
pub record World : Type 0 where
  pub reresolve_on_403 : String → Option Bool
  pub manifest : ℕ → String → Outcome (List String)
  pub page : ℕ → ℕ → String → ℕ → Fetched
  pub finished : ℕ → List ℕ
  pub is_valid_image : Bytes → Bool
  pub page_filename : String → String
  pub say_failed : ℕ → String → String
  pub say_invalid : ℕ → Bytes → String
  pub output_path : Job → String
  pub write : String → List Page → String → Option Exception
  pub others : ℕ → Table → Table
  pub now : ℕ → ℕ
  pub validate_attempts : ℕ

-- The job object, the table, the job events emitted, what the writer has published, and how often
-- the world was asked.
pub record Run : Type 0 where
  pub job : Job
  pub table : Table
  pub events : List JobStatus
  pub published : Option (List Page)
  pub manifests : ℕ
  pub passes : ℕ
  pub updates : ℕ
  pub readings : ℕ

abbrev pub Exec {ℓ} : Type ℓ → Type ℓ
Exec A = Run → Outcome A × Run

abbrev pub continue {ℓ κ} :
    {A : Type ℓ} {B : Type κ} → Outcome A → (A → Run → Outcome B × Run) → Run → Outcome B × Run
continue (ok a) f s = f a s
continue (raise e) f s = (raise e, s)

infixl 10 ◌>>=◌ ◌>>◌
unfoldable pub ◌>>=◌ {ℓ κ} :
    {A : Type ℓ} {B : Type κ}
    → (Run → Outcome A × Run)
    → (A → Run → Outcome B × Run)
    → Run
    → Outcome B × Run
◌>>=◌ m f s = let (r, s') = m s in continue r f s'

abbrev pub ◌>>◌ {ℓ κ} :
    {A : Type ℓ} {B : Type κ}
    → (Run → Outcome A × Run)
    → (Run → Outcome B × Run)
    → Run
    → Outcome B × Run
m >> n = m >>= λ _. n

abbrev pub pure {ℓ} : {A : Type ℓ} → A → Exec A
pure a s = (ok a, s)

abbrev pub throw {ℓ} : {A : Type ℓ} → Exception → Exec A
throw e s = (raise e, s)

-- An assignment to fields of the job.
abbrev pub modify_job : (Job → Job) → Exec (Unit {0})
modify_job f s = (ok tt, record s { job = f s.job })
