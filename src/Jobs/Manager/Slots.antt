-- ===== src/Jobs/Manager/Slots.antt =====
-- `_run_guarded` of manager.py: each job's task takes a slot of its source, then a global slot,
-- and gives both back when the engine has run. A semaphore is the number of its free slots.
pub mod Bounds
use mangarr_gateway.Prelude.{
  Bool, List, String, [], count, false, none, some, string_eq, suc, true, ℕ, ◌&&◌, ◌++◌, ◌+◌, ◌==◌,
  ◌∷◌, ◌≡◌,
}
use mangarr_gateway.Prelude.Dict
use mangarr_gateway.Prelude.Dict.{Dict}

pub data Phase : Type 0 where
  waiting_source waiting_global running : Phase

pub record Task : Type 0 where
  pub job_id : String
  pub source_key : String
  pub phase : Phase

pub record Slots : Type 0 where
  pub global_free : ℕ
  pub source_free : Dict String ℕ
  pub tasks : List Task

abbrev pub is_running : Task → Bool
is_running t = elim t.phase [ running ↦ true | _ ↦ false ]

-- The task holds a slot of its source.
abbrev pub holds_source : Task → Bool
holds_source t = elim t.phase [ waiting_source ↦ false | _ ↦ true ]

abbrev pub of_source : String → Task → Bool
of_source k t = t.source_key == k

abbrev pub holds : String → Task → Bool
holds k t = of_source k t && holds_source t

-- `_source_sems.setdefault(key, Semaphore(bound))`
abbrev pub set_default : Dict String ℕ → String → ℕ → Dict String ℕ
set_default d k n = elim (Dict.get d k) [ some _ ↦ d | none ↦ Dict.put d k n ]

abbrev pub at : Task → Phase → Task
at t p = record t { phase = p }

-- One atomic step of the event loop. `bound` is `_per_source_bound`.
pub data Step (bound : String → ℕ) : Slots → Slots → Type 0 where
  start :
      (s : Slots) (job_id key : String)
      → Step bound s (record s {
        tasks =
            s.tasks ++ record { job_id = job_id; source_key = key; phase = waiting_source } ∷ [];
        source_free = set_default s.source_free key (bound key);
      })
  take_source :
      (s : Slots) (before after : List Task) (t : Task) (n : ℕ)
      → s.tasks ≡ before ++ t ∷ after
      → t.phase ≡ waiting_source
      → Dict.get s.source_free t.source_key ≡ some (suc n)
      → Step bound s (record s {
        tasks = before ++ at t waiting_global ∷ after;
        source_free = Dict.put s.source_free t.source_key n;
      })
  take_global :
      (s : Slots) (before after : List Task) (t : Task) (n : ℕ)
      → s.tasks ≡ before ++ t ∷ after
      → t.phase ≡ waiting_global
      → s.global_free ≡ suc n
      → Step bound s (record s { tasks = before ++ at t running ∷ after; global_free = n })
  finish :
      (s : Slots) (before after : List Task) (t : Task) (n : ℕ)
      → s.tasks ≡ before ++ t ∷ after
      → t.phase ≡ running
      → Dict.get s.source_free t.source_key ≡ some n
      → Step bound s (record s {
        tasks = before ++ after;
        global_free = s.global_free + 1;
        source_free = Dict.put s.source_free t.source_key (suc n);
      })

pub data Reach (bound : String → ℕ) (s : Slots) : Slots → Type 0 where
  here : Reach bound s s
  next : {t u : Slots} → Reach bound s t → Step bound t u → Reach bound s u

-- Every slot is free or held by a task that is past its acquisition.
pub record IsValid (bound : String → ℕ) (limit : ℕ) (s : Slots) : Type 0 where
  pub global : s.global_free + count is_running s.tasks ≡ limit
  pub source :
      (k : String) (n : ℕ)
      → Dict.get s.source_free k ≡ some n
      → n + count (holds k) s.tasks ≡ bound k
  pub known : (k : String) → Dict.get s.source_free k ≡ none → count (of_source k) s.tasks ≡ 0
