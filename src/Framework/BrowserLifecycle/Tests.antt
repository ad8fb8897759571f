-- ===== src/Framework/BrowserLifecycle/Tests.antt =====
-- Concrete inputs for the theorems on the browser's lifecycle.
use mangarr_gateway.Prelude.{Bool, String, arith, false, none, refl, some, string_eq, true, ◌≡◌}
use mangarr_gateway.Prelude.Dict
use mangarr_gateway.Framework.SingleFlight.{value}
use mangarr_gateway.Framework.BrowserLifecycle.{
  idle, solving, back, Lifecycle, solve, run_solve, solved, calls, runs, succeeds, Reach, here,
  next, start,
}
use mangarr_gateway.Framework.BrowserLifecycle.Fresh.{held-context, close_context-stale}

-- Caller 0 solves for "comix" on the first context.
abbrev asked : Lifecycle
asked = solve 0 "comix" false (start 1)

abbrev running : Lifecycle
running = run_solve 0 "comix" false asked

running-Reach : (overlap : Bool) → Reach overlap (start 1) running
unfolding solve Dict.get Dict.put
running-Reach overlap =
    let one : Reach overlap (start 1) asked = next here (calls 0 "comix" false refl) in
    next one (runs 0 "comix" false refl (omega arith))

running_solves : running.callers 0 ≡ solving "comix" false 0
unfolding solve run_solve Dict.get
running_solves = refl

running_idle : running.callers 1 ≡ idle
unfolding solve run_solve Dict.get
running_idle = refl

abbrev finished : Lifecycle
finished = solved 0 "comix" false 0 running

finished_held : Dict.get {K = String} finished.held "comix" ≡ some 0
unfolding solve run_solve solved Dict.get Dict.put
finished_held = refl

held-context_example : finished.context ≡ some 0
held-context_example =
    held-context 1 "comix" 0
      (next (running-Reach false) (succeeds 0 "comix" false 0 running_solves)) finished_held

close_context-stale_example :
    (t : Lifecycle) × Reach true running t
    × (t.context ≡ none)
    × (t.callers 1 ≡ back "comix" (value 0))
close_context-stale_example =
    close_context-stale running 0 1 "comix" false 0 running_solves running_idle
