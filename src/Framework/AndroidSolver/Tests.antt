-- ===== src/Framework/AndroidSolver/Tests.antt =====
-- Concrete inputs for the theorems on the solver client.
use mangarr_gateway.Prelude.{
  String, [], arith, false, if◌then◌else◌, inl, max, nat_beq, none, refl, some, string_eq, true, ℕ,
  ◌+◌, ◌∷◌, ◌≡◌, ◌≤◌,
}
use mangarr_gateway.Prelude.Dict
use mangarr_gateway.Framework.AndroidSolver.{
  Settings, Solver, minted, blocked, answered, clearance, track, in_block_window, get_clearance,
  end_clearance,
}
use mangarr_gateway.Framework.AndroidSolver.Tracked.{
  IsTracked, ends, Reach, stay, next, Reach-IsTracked,
}
use mangarr_gateway.Framework.AndroidSolver.Blocked.{first_of, end_clearance-blocked}
use mangarr_gateway.Framework.AndroidSolver.Sidecar.{Attempted, errored, solve_with_retry}
use mangarr_gateway.Framework.AndroidSolver.Sidecar.Posted.{answered}
use mangarr_gateway.Framework.AndroidSolver.Sidecar.Retried.{IsTried, solve_with_retry-IsTried}
use mangarr_gateway.Framework.AndroidSolver.Refresh.{
  renewed, Wait, recheck, is_due, swap, refresh_key, refresh_keys, refresh_tick,
}
use mangarr_gateway.Framework.AndroidSolver.Refresh.Woken.{refresh_tick-wakes}

abbrev config : Settings
config = record {
  is_mapped = λ key. true;
  is_on_demand = λ key. false;
  is_warm_last = λ key. false;
  clearance_lifetime = ("kagane", 900) ∷ [];
  block_backoff = 120;
  refresh_lead = 300;
  refresh_min_sleep = 5;
  refresh_max_sleep = 600;
}

abbrev fresh : Solver ℕ
fresh = record { held = []; expires_at = []; block_until = [] }

-- A clearance of the key is minted.
abbrev minted_once :
    Reach config fresh (end_clearance config 100 "kagane" none none (minted 7 none) fresh).1
minted_once = next stay (ends 100 "kagane" none none (minted 7 none))

abbrev warm : Solver ℕ
warm = (end_clearance config 100 "kagane" none none (minted 7 none) fresh).1

fresh-IsTracked : IsTracked fresh
unfolding Dict.get
fresh-IsTracked key h = absurd (ground arith)

Reach-IsTracked_example : IsTracked warm
Reach-IsTracked_example = Reach-IsTracked config fresh warm minted_once fresh-IsTracked

end_clearance-blocked_example :
    ((first_of config 1000 1001 "kagane" 7 (some 1500) fresh).0 ≡ clearance (some 7))
    × ((end_clearance config 1050 "kagane" none none blocked
            (first_of config 1000 1001 "kagane" 7 (some 1500) fresh).1
          ≡ (clearance (some 7), (first_of config 1000 1001 "kagane" 7 (some 1500) fresh).1))
        × (get_clearance config 1050 "kagane" true true
              (first_of config 1000 1001 "kagane" 7 (some 1500) fresh).1
            ≡ (answered (some 7), (first_of config 1000 1001 "kagane" 7 (some 1500) fresh).1)))
unfolding Dict.get
end_clearance-blocked_example =
    end_clearance-blocked config 1000 1001 1050 "kagane" 7 (some 1500) true fresh refl refl
      (omega arith) (omega arith) refl refl

-- Each solve takes eleven seconds and changes nothing else.
abbrev solve : String → Solver ℕ → Wait ℕ
solve key s = record { result = renewed 8 none; time = 911; after = s }

refresh_tick-wakes_example :
    let tick = refresh_tick config solve 0 900 warm in
    ((5 ≤ tick.0) × (tick.0 ≤ 600))
    × (tick.1.time + tick.0
        ≤ max (tick.1.time + 5) (recheck config 900 tick.1.solver.block_until "kagane" 1811))
unfolding refresh_tick refresh_keys refresh_key is_due in_block_window swap end_clearance track
    Dict.get Dict.put
refresh_tick-wakes_example =
    refresh_tick-wakes config solve 0 900 warm "kagane" 1811 (omega arith) (inl refl) refl

-- A fast failure, then a slow one.
abbrev slow_twice : ℕ → Attempted ℕ
slow_twice k = if nat_beq k 1 then errored 2 else errored 30

solve_with_retry-IsTried_example : IsTried slow_twice 20 2 1 (solve_with_retry slow_twice 20 2)
solve_with_retry-IsTried_example = solve_with_retry-IsTried slow_twice 20 2 (omega arith)
