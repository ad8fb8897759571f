-- ===== src/Jobs/Store.antt =====
-- src/manga_gateway/jobs/store.py: the `jobs` table. The rows stand in rowid order: sqlite gives a
-- new row a rowid above all others. A statement that fails leaves the table as it was.

pub mod Valid
pub mod Lookup
pub mod Retention
pub mod Owned
pub mod Contract
use mangarr_gateway.Prelude.Latest
use mangarr_gateway.Prelude.{
  Bool, List, Option, String, [], any, if◌then◌else◌, inl, inr, keep, length, map, max, none, not,
  refl, some, string_eq, take, ℕ, ◌&&◌, ◌++◌, ◌-◌, ◌==◌, ◌||◌, ◌∷◌, ◌≡◌, ◌⊎◌,
}
use mangarr_gateway.Jobs.Model.{Job, queued, is_live}
use mangarr_gateway.Jobs.Row.{Row, job_values, row_to_job}

pub data StoreError : Type 0 where
  integrity_error : StoreError
  key_error : String → StoreError

pub data Result {ℓ} (A : Type ℓ) : Type ℓ where
  ok : A → Result A
  err : StoreError → Result A

pub Result-cases {ℓ} :
    {A : Type ℓ} (r : Result A) → ((a : A) × (r ≡ ok a)) ⊎ ((e : StoreError) × (r ≡ err e))
Result-cases (ok a) = inl (a, refl)
Result-cases (err e) = inr (e, refl)

abbrev pub Table : Type 0
Table = List Row

abbrev pub has_id : String → Row → Bool
has_id i r = r.job_id == i

abbrev pub has_handle : String → Row → Bool
has_handle h r = r.release_handle == h

-- The rows that the partial unique index `ix_jobs_live_handle` holds under `h`.
abbrev pub live_for : String → Row → Bool
live_for h r = is_live r.status && has_handle h r

abbrev pub is_terminal : Row → Bool
is_terminal r = not (is_live r.status)

unfoldable pub insert : Table → Job → Result Table
unfolding job_values
insert t j =
    let r = job_values j in
    if any (has_id r.job_id) t || (is_live r.status && any (live_for r.release_handle) t)
    then err integrity_error
    else ok (t ++ r ∷ [])

-- `job.updated_at = _now_iso()`
unfoldable pub stamp : ℕ → Job → Job
stamp now j = record j { updated_at = now }

-- `update`, after the stamp. The index refuses a second live row under a handle.
unfoldable pub update : Table → Job → Result Table
unfolding job_values
update t j =
    let r = job_values j in
    if not (any (has_id r.job_id) t)
    then err (key_error r.job_id)
    else if is_live r.status && any (λ x. live_for r.release_handle x && not (has_id r.job_id x)) t
    then err integrity_error
    else ok (map (λ x. if has_id r.job_id x then r else x) t)

-- `fetchone`
abbrev pub first_row : Table → Option Job
first_row [] = none
first_row (r ∷ _) = some (row_to_job r)

unfoldable pub get : Table → String → Option Job
get t i = first_row (keep (has_id i) t)

unfoldable pub find_live_by_handle : Table → String → Option Job
find_live_by_handle t h = first_row (keep (live_for h) t)

-- ORDER BY updated_at DESC, rowid DESC
abbrev pub latest_first : Table → Table
latest_first = Latest.latest_first (λ r. r.updated_at)

unfoldable pub find_latest_by_handle : Table → String → Option Job
find_latest_by_handle t h = first_row (latest_first (keep (has_handle h) t))

unfoldable pub delete : Table → String → Table
delete t i = keep (λ r. not (has_id i r)) t

unfoldable pub all : Table → List Job
all t = map row_to_job t

unfoldable pub requeue : ℕ → Row → Row
requeue now r =
    if is_live r.status
    then record r {
      status = queued;
      message = none;
      total_pages = none;
      downloaded_pages = none;
      total_bytes = 0;
      remaining_bytes = 0;
      output_path = none;
      updated_at = now;
    }
    else r

unfoldable pub rehydrate : ℕ → Table → Table
unfolding requeue
rehydrate now t = map (requeue now) t

-- The subselect of `prune_terminal`: the ids of the `limit` latest terminal rows.
unfoldable pub survivors : ℕ → Table → List String
survivors limit t = map (λ r. r.job_id) (take limit (latest_first (keep is_terminal t)))

abbrev pub among : List String → Row → Bool
among ids r = any (λ i. r.job_id == i) ids

-- The rows that are left, and `cur.rowcount`.
unfoldable pub prune_terminal : ℕ → Table → Table × ℕ
unfolding survivors
prune_terminal keep_last t =
    let ids = survivors (max 1 keep_last) t in
    let left = keep (λ r. not (is_terminal r && not (among ids r))) t in
    (left, length t - length left)
