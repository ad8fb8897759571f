-- ===== src/Framework/BrowserLifecycle.antt =====
-- `BrowserLifecycle` of src/manga_gateway/framework/solver_lifecycle.py. A clearance is the number of
-- the launch whose context it was captured in. A step is what a task does between two waits; the
-- launch of a context is part of the step that needs it, as the context lock holds others off.
mod Tests
pub mod Fresh
use mangarr_gateway.Prelude.{
  Bool, Option, String, [], false, if◌then◌else◌, none, some, string_eq, true, update, ℕ, ◌+◌, ◌-◌,
  ◌<◌, ◌≡◌, ◌≢◌, ◌⊎◌,
}
use mangarr_gateway.Prelude.Dict
use mangarr_gateway.Prelude.Dict.{Dict}
use mangarr_gateway.Framework.SingleFlight.{Outcome, value, raised, resolve, joinable}

-- Where a caller of `solve` is: before it, waiting for the semaphore, in the solve on a context,
-- waiting on another caller's future, or back.
pub data Phase : Type 0 where
  idle : Phase
  waiting : String → Bool → Phase
  solving : String → Bool → ℕ → Phase
  following : String → ℕ → Phase
  back : String → Outcome ℕ → Phase

pub record Lifecycle : Type 0 where
  pub context : Option ℕ
  pub launches : ℕ
  pub permits : ℕ
  pub held : Dict String ℕ
  pub inflight : Dict String ℕ
  pub futures : ℕ → Option (Outcome ℕ)
  pub callers : ℕ → Phase

-- `solve` up to its first wait.
unfoldable pub solve : ℕ → String → Bool → Lifecycle → Lifecycle
solve i key force s =
    if force
    then record s { callers = update s.callers i (waiting key true) }
    else elim (Dict.get s.held key) [
      | some c ↦ record s { callers = update s.callers i (back key (value c)) }
      | none ↦ elim (joinable s.futures (Dict.get s.inflight key)) [
        | some j ↦ record s { callers = update s.callers i (following key j) }
        | none ↦ record s {
          callers = update s.callers i (waiting key false);
          inflight = Dict.put s.inflight key i;
          futures = update s.futures i none;
        }
      ]
    ]

-- `_run_solve` takes a permit and gets the context, which is launched if there is none.
abbrev pub get_context : Option ℕ → ℕ → ℕ
get_context none launches = launches
get_context (some c) launches = c

abbrev pub launched : Option ℕ → ℕ → ℕ
launched none launches = launches + 1
launched (some c) launches = launches

unfoldable pub run_solve : ℕ → String → Bool → Lifecycle → Lifecycle
run_solve i key force s = record s {
  permits = s.permits - 1;
  context = some (get_context s.context s.launches);
  launches = launched s.context s.launches;
  callers = update s.callers i (solving key force (get_context s.context s.launches));
}

-- The solve has given a clearance. Only the caller that leads has a future.
unfoldable pub solved : ℕ → String → Bool → ℕ → Lifecycle → Lifecycle
solved i key force c s = record s {
  permits = s.permits + 1;
  held = Dict.put s.held key c;
  futures = if force then s.futures else resolve s.futures i (value c);
  inflight = if force then s.inflight else Dict.pop s.inflight key;
  callers = update s.callers i (back key (value c));
}

unfoldable pub solve_failed : ℕ → String → Bool → String → Lifecycle → Lifecycle
solve_failed i key force message s = record s {
  permits = s.permits + 1;
  futures = if force then s.futures else resolve s.futures i (raised message);
  inflight = if force then s.inflight else Dict.pop s.inflight key;
  callers = update s.callers i (back key (raised message));
}

-- `_run_solve` takes a permit, and the launch of the context raises: no context is kept, and the
-- caller ends as after a solve that fails.
unfoldable pub launch_failed : ℕ → String → Bool → String → Lifecycle → Lifecycle
unfolding solve_failed
launch_failed i key force message s =
    solve_failed i key force message (record s { permits = s.permits - 1 })

unfoldable pub woken : ℕ → String → Outcome ℕ → Lifecycle → Lifecycle
woken i key o s = record s { callers = update s.callers i (back key o) }

-- `_close_context`, by the watchdog or `recycle_now`
unfoldable pub close_context : Lifecycle → Lifecycle
close_context s = record s { context = none; held = [] }

abbrev pub NoSolve : Lifecycle → Type 0
NoSolve s = (i : ℕ) (key : String) (force : Bool) (c : ℕ) → s.callers i ≢ solving key force c

-- `overlap` says whether the context may be closed while a solve uses it.
pub data Step (overlap : Bool) (s : Lifecycle) : Lifecycle → Type 0 where
  calls :
      (i : ℕ) (key : String) (force : Bool)
      → s.callers i ≡ idle
      → Step overlap s (solve i key force s)
  runs :
      (i : ℕ) (key : String) (force : Bool)
      → s.callers i ≡ waiting key force
      → 0 < s.permits
      → Step overlap s (run_solve i key force s)
  launch_fails :
      (i : ℕ) (key : String) (force : Bool) (message : String)
      → s.callers i ≡ waiting key force
      → 0 < s.permits
      → s.context ≡ none
      → Step overlap s (launch_failed i key force message s)
  succeeds :
      (i : ℕ) (key : String) (force : Bool) (c : ℕ)
      → s.callers i ≡ solving key force c
      → Step overlap s (solved i key force c s)
  fails :
      (i : ℕ) (key : String) (force : Bool) (c : ℕ) (message : String)
      → s.callers i ≡ solving key force c
      → Step overlap s (solve_failed i key force message s)
  wakes :
      (i j : ℕ) (key : String) (o : Outcome ℕ)
      → s.callers i ≡ following key j
      → s.futures j ≡ some o
      → Step overlap s (woken i key o s)
  recycles : (overlap ≡ true) ⊎ NoSolve s → Step overlap s (close_context s)

pub data Reach (overlap : Bool) (s : Lifecycle) : Lifecycle → Type 0 where
  here : Reach overlap s s
  next : {t u : Lifecycle} → Reach overlap s t → Step overlap t u → Reach overlap s u

abbrev pub start : ℕ → Lifecycle
start solve_concurrency = record {
  context = none;
  launches = 0;
  permits = solve_concurrency;
  held = [];
  inflight = [];
  futures = λ _. none;
  callers = λ _. idle;
}
