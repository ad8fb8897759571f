-- ===== src/Framework/AndroidSolver/Refresh.antt =====
-- `_refresh_tick` of src/manga_gateway/framework/android_solver.py. What a wait for a solve comes to,
-- with the time after it and what other tasks left meanwhile, is a function of the key and the state.
-- Where a difference of times would be negative it is 0 here, and the sleep is the least one either way.
pub mod Woken
pub mod Kept
use mangarr_gateway.Prelude.{
  Bool, List, Option, String, [], false, if◌then◌else◌, leb, ltb, max, min, none, not, some,
  string_eq, true, ℕ, ◌&&◌, ◌+◌, ◌-◌, ◌||◌, ◌∷◌,
}
use mangarr_gateway.Prelude.Dict
use mangarr_gateway.Prelude.Dict.{Dict}
use mangarr_gateway.Framework.AndroidSolver.{Settings, Solver, hold, in_block_window}

-- How `_coalesced_solve` ends for the refresh.
pub data Refreshed (C : Type 0) : Type 0 where
  renewed : C → Option ℕ → Refreshed C
  deferred : Refreshed C
  kept : Refreshed C

pub record Wait (C : Type 0) : Type 0 where
  pub result : Refreshed C
  pub time : ℕ
  pub after : Solver C

pub record Looped (C : Type 0) : Type 0 where
  pub is_deferred : Bool
  pub time : ℕ
  pub solver : Solver C

-- `max(min_sleep, min(max_sleep, delay))`
abbrev pub clamp : ℕ → ℕ → ℕ → ℕ
clamp least most delay = max least (min most delay)

abbrev pub minimum : ℕ → List ℕ → ℕ
minimum n [] = n
minimum n (m ∷ ms) = minimum (min n m) ms

module _ (config : Settings) where
  -- The keys that the loops pass over.
  abbrev pub is_reactive : String → Bool
  is_reactive key = config.is_on_demand key || config.is_warm_last key

  -- When a key is next looked at.
  unfoldable pub recheck : ℕ → Dict String ℕ → String → ℕ → ℕ
  recheck now block_until key expiry = elim (Dict.get block_until key) [
    | some until ↦ if ltb now until then until else expiry - config.refresh_lead
    | none ↦ expiry - config.refresh_lead
  ]

  unfoldable pub upcoming : ℕ → Dict String ℕ → Dict String ℕ → List ℕ
  upcoming now block_until [] = []
  upcoming now block_until ((key, expiry) ∷ rest) =
      let others = upcoming now block_until rest in
      if is_reactive key then others else recheck now block_until key expiry ∷ others

  unfoldable pub next_sleep : ℕ → List ℕ → ℕ
  next_sleep time [] = config.refresh_max_sleep
  next_sleep time (t ∷ ts) =
      clamp config.refresh_min_sleep config.refresh_max_sleep (minimum t ts - time)

module _ {C : Type 0} (config : Settings) where
  -- None of the loop's `continue`s before the solve.
  unfoldable pub is_due : ℕ → ℕ → String → ℕ → Solver C → Bool
  is_due now time key expiry s =
      not (is_reactive config key)
      && not (in_block_window config time key s)
      && leb expiry (now + config.refresh_lead)

  -- After the wait: `return`, `continue`, or the swap.
  unfoldable pub swap : String → Wait C → Looped C
  swap key wait = elim wait.result [
    | deferred ↦ record { is_deferred = true; time = wait.time; solver = wait.after }
    | kept ↦ record { is_deferred = false; time = wait.time; solver = wait.after }
    | renewed c expires ↦ record {
      is_deferred = false;
      time = wait.time;
      solver = hold config wait.time key c expires wait.after;
    }
  ]

  unfoldable pub refresh_key :
      (String → Solver C → Wait C) → ℕ → ℕ → String → ℕ → Solver C → Looped C
  refresh_key solve now time key expiry s =
      if is_due now time key expiry s
      then swap key (solve key s)
      else record { is_deferred = false; time = time; solver = s }

  unfoldable pub refresh_keys :
      (String → Solver C → Wait C) → ℕ → ℕ → Dict String ℕ → Solver C → Looped C
  refresh_keys solve now time [] s = record { is_deferred = false; time = time; solver = s }
  refresh_keys solve now time ((key, expiry) ∷ rest) s =
      let looped = refresh_key solve now time key expiry s in
      let later = refresh_keys solve now looped.time rest looped.solver in
      if looped.is_deferred then looped else later

  -- The delay, and what the loop left.
  unfoldable pub refresh_tick : (String → Solver C → Wait C) → ℕ → ℕ → Solver C → ℕ × Looped C
  refresh_tick solve foreground now s =
      if ltb 0 foreground
      then (config.refresh_min_sleep, record { is_deferred = true; time = now; solver = s })
      else (let looped = refresh_keys solve now now s.expires_at s in
          if looped.is_deferred then (config.refresh_min_sleep, looped) else (
            next_sleep config looped.time
                (upcoming config now looped.solver.block_until looped.solver.expires_at),
            looped,
          ))
