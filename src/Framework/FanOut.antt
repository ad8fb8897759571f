-- ===== src/Framework/FanOut.antt =====
-- `fan_out` of src/manga_gateway/framework/fanout.py. Each source has a task, `_guarded`, that first
-- asks the cooldown and later takes the outcome of its run. A schedule says which task moves next
-- and when, so that the theorems hold of every interleaving. A cancelled task does not stop the group.
pub mod Isolation
pub mod Finish
use mangarr_gateway.Prelude.{
  Bool, List, Option, String, [], false, if◌then◌else◌, map, none, some, suc, zero, ℕ, ◌++◌, ◌∷◌,
}
use Prim.Native.String.{◌++◌ as append_text}
use mangarr_gateway.Framework.Cooldown.{Cooldown, record_failure, record_success, in_cooldown}

-- How `run_one` ends within the timeout of its source, or that it does not. A CancelledError that it
-- ends with is no Exception: no handler of `_guarded` takes it.
pub data Attempt {ℓ} (R : Type ℓ) : Type ℓ where
  result : List R → Attempt R
  timed_out : Attempt R
  source_error : String → String → Attempt R
  http_status : String → Attempt R
  transport_error : String → Attempt R
  unexpected : Attempt R
  cancelled : Attempt R

abbrev pub Warning : Type 0
Warning = String × String × String

pub data Phase {ℓ} (R : Type ℓ) : Type ℓ where
  waiting running skipped aborted : Phase R
  done : List R → Phase R

pub record Task {ℓ κ} (S : Type ℓ) (R : Type κ) : Type (ℓ ⊔ κ) where
  pub src : S
  pub phase : Phase R

-- What the tasks share: the warnings, and the cooldown if there is one.
pub record Shared : Type 0 where
  pub warnings : List Warning
  pub cooldown : Option Cooldown

abbrev succeeded : String → Option Cooldown → Option Cooldown
succeeded key none = none
succeeded key (some c) = some (record_success key c)

abbrev failed : ℕ → String → Option Cooldown → Option Cooldown
failed now key none = none
failed now key (some c) = some (record_failure now key c)

abbrev checked : ℕ → String → Option Cooldown → Bool × Option Cooldown
checked now key none = (false, none)
checked now key (some c) = let (live, c') = in_cooldown now key c in (live, some c')

-- `key` is `src.key`, `outcome` how the run of a source ends, and `soft` is `collect_warnings`.
module _ {ℓ κ} {S : Type ℓ} {R : Type κ} (key : S → String) (outcome : S → Attempt R)
    (soft : S → List (String × String)) where
  -- The warnings of a source whose run has ended.
  unfoldable pub warnings_of : S → Attempt R → List Warning
  warnings_of s (result rs) = map (λ w. (key s, w.0, w.1)) (soft s)
  warnings_of s timed_out = (key s, "source_unavailable", "timed out") ∷ []
  warnings_of s (source_error code message) = (key s, code, message) ∷ []
  warnings_of s (http_status n) = (key s, "source_unavailable", append_text "upstream " n) ∷ []
  warnings_of s (transport_error n) =
      (key s, "source_unavailable", append_text "transport error: " n) ∷ []
  warnings_of s unexpected = (key s, "source_unavailable", "unexpected error") ∷ []
  warnings_of s cancelled = []

  abbrev pub cooldown_warning : S → Warning
  cooldown_warning s = (key s, "source_unavailable", "upstream unavailable (cooldown)")

  -- How the task of a run that has ended ends.
  abbrev pub ended : Attempt R → Phase R
  ended (result rs) = done rs
  ended cancelled = aborted
  ended _ = done []

  abbrev cooldown_after : ℕ → S → Attempt R → Option Cooldown → Option Cooldown
  cooldown_after now s (result rs) c = succeeded (key s) c
  cooldown_after now s cancelled c = c
  cooldown_after now s _ c = failed now (key s) c

  -- `_guarded`, up to its next wait.
  unfoldable pub guarded : ℕ → S → Phase R → Shared → Phase R × Shared
  unfolding warnings_of
  guarded now s waiting sh =
      let (live, c) = checked now (key s) sh.cooldown in
      if live
      then (skipped, record { warnings = sh.warnings ++ cooldown_warning s ∷ []; cooldown = c })
      else (running, record sh { cooldown = c })
  guarded now s running sh = (
    ended (outcome s),
    record {
      warnings = sh.warnings ++ warnings_of s (outcome s);
      cooldown = cooldown_after now s (outcome s) sh.cooldown;
    },
  )
  guarded now s skipped sh = (skipped, sh)
  guarded now s aborted sh = (aborted, sh)
  guarded now s (done rs) sh = (done rs, sh)

  -- The i-th task moves.
  unfoldable pub advance : ℕ → ℕ → List (Task S R) → Shared → List (Task S R) × Shared
  unfolding guarded
  advance now i [] sh = ([], sh)
  advance now zero (t ∷ ts) sh =
      let (p, sh') = guarded now t.src t.phase sh in (record t { phase = p } ∷ ts, sh')
  advance now (suc i) (t ∷ ts) sh = let (ts', sh') = advance now i ts sh in (t ∷ ts', sh')

  unfoldable pub run : List (ℕ × ℕ) → List (Task S R) → Shared → List (Task S R) × Shared
  unfolding advance
  run [] ts sh = (ts, sh)
  run ((now, i) ∷ moves) ts sh = let (ts', sh') = advance now i ts sh in run moves ts' sh'

  -- `task.result()`, none where it raises the CancelledError of its task.
  abbrev pub task_result : Phase R → Option (List R)
  task_result aborted = none
  task_result (done rs) = some rs
  task_result _ = some []

  abbrev pub extend : Option (List R) → Option (List R) → Option (List R)
  extend none rest = none
  extend (some rs) none = none
  extend (some rs) (some more) = some (rs ++ more)

  -- `releases.extend(result)`, in the order of the sources; none where the loop raises, and `fan_out`
  -- with it.
  unfoldable pub releases : List (Task S R) → Option (List R)
  releases [] = some []
  releases (t ∷ ts) = extend (task_result t.phase) (releases ts)

  unfoldable pub create_tasks : List S → List (Task S R)
  create_tasks [] = []
  create_tasks (s ∷ ss) = record { src = s; phase = waiting } ∷ create_tasks ss

  unfoldable pub fan_out : List (ℕ × ℕ) → List S → Option Cooldown → List (Task S R) × Shared
  unfolding run create_tasks
  fan_out moves sources cooldown =
      run moves (create_tasks sources) (record { warnings = []; cooldown = cooldown })
