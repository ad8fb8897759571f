-- ===== src/Framework/AndroidSolver.antt =====
-- `AndroidSolver` of src/manga_gateway/framework/android_solver.py: the clearances it holds, with
-- their tracked expiries and the block windows. A call is what it does before the wait for its solve
-- and what it does after it. A time is a natural number.

pub mod Tracked
pub mod Blocked
mod Tests
pub mod Sidecar
pub mod Refresh
use mangarr_gateway.Prelude.{
  Bool, Option, String, false, if◌then◌else◌, ltb, min, none, not, some, string_eq, true, ℕ, ◌&&◌,
  ◌+◌,
}
use mangarr_gateway.Prelude.Dict
use mangarr_gateway.Prelude.Dict.{Dict}

-- The keys of `challenge_urls`, `on_demand_keys`, `warm_last_keys`, and the settings.
pub record Settings : Type 0 where
  pub is_mapped : String → Bool
  pub is_on_demand : String → Bool
  pub is_warm_last : String → Bool
  pub clearance_lifetime : Dict String ℕ
  pub block_backoff : ℕ
  pub refresh_lead : ℕ
  pub refresh_min_sleep : ℕ
  pub refresh_max_sleep : ℕ

pub record Solver (C : Type 0) : Type 0 where
  pub held : Dict String C
  pub expires_at : Dict String ℕ
  pub block_until : Dict String ℕ

-- How `_coalesced_solve` ends: with a clearance and the expiry of its cookie, in a block window, or
-- with another error.
pub data Solved (C : Type 0) : Type 0 where
  minted : C → Option ℕ → Solved C
  blocked : Solved C
  failed : Solved C

-- What `get_clearance` comes to before it waits: an answer, the eval of a page holder, or a solve,
-- with the clearance that was discarded and its expiry.
pub data Begun (C : Type 0) : Type 0 where
  answered : Option C → Begun C
  evaluating : Begun C
  solving : Option C → Option ℕ → Begun C

pub data Answer (C : Type 0) : Type 0 where
  clearance : Option C → Answer C
  raises : Answer C

abbrev pub effective_expiry : ℕ → Option ℕ → Option ℕ → Option ℕ
effective_expiry now none expires = expires
effective_expiry now (some lifetime) none = some (now + lifetime)
effective_expiry now (some lifetime) (some e) = some (min e (now + lifetime))

abbrev pub is_current : ℕ → Option ℕ → Bool
is_current now none = true
is_current now (some expiry) = ltb now expiry

abbrev pub put_expiry : Option ℕ → String → Dict String ℕ → Dict String ℕ
put_expiry none key d = d
put_expiry (some e) key d = Dict.put d key e

-- `_record_expiry`
unfoldable pub track : {C : Type 0} → Option ℕ → String → Solver C → Solver C
track (some e) key s = record s { expires_at = Dict.put s.expires_at key e }
track none key s = record s { expires_at = Dict.pop s.expires_at key }

module _ {C : Type 0} (config : Settings) where
  unfoldable pub record_expiry : ℕ → String → Option ℕ → Solver C → Solver C
  record_expiry now key expires s =
      track (effective_expiry now (Dict.get config.clearance_lifetime key) expires) key s

  -- `self._held[key] = clearance` and `_record_expiry`.
  unfoldable pub hold : ℕ → String → C → Option ℕ → Solver C → Solver C
  unfolding record_expiry
  hold now key c expires s =
      record_expiry now key expires (record s { held = Dict.put s.held key c })

  -- `_in_block_window`, `_held_is_valid`
  unfoldable pub in_block_window : ℕ → String → Solver C → Bool
  in_block_window now key s = elim (Dict.get s.block_until key) [
    | none ↦ false
    | some until ↦ ltb now until
  ]

  unfoldable pub held_is_valid : ℕ → String → Solver C → Bool
  held_is_valid now key s = elim (Dict.get s.held key) [
    | none ↦ false
    | some c ↦ is_current now (Dict.get s.expires_at key)
  ]

  -- Both pops.
  unfoldable pub discard : String → Solver C → Solver C
  discard key s = record s { held = Dict.pop s.held key; expires_at = Dict.pop s.expires_at key }

  -- `get_clearance` before its wait.
  unfoldable pub get_clearance : ℕ → String → Bool → Bool → Solver C → Begun C × Solver C
  unfolding in_block_window held_is_valid discard
  get_clearance now key force_resolve solve_if_missing s =
      if not (config.is_mapped key)
      then (answered none, s)
      else if config.is_warm_last key
      then (if force_resolve
          then (evaluating, discard key s)
          else (answered (Dict.get s.held key), s))
      else if force_resolve
      then (if in_block_window now key s && held_is_valid now key s
          then (answered (Dict.get s.held key), s)
          else (solving (Dict.get s.held key) (Dict.get s.expires_at key), discard key s))
      else elim (Dict.get s.held key) [
        | some c ↦ (answered (some c), s)
        | none ↦ if solve_if_missing then (solving none none, s) else (answered none, s)
      ]

  -- What the shared solve leaves: a block window, or none after a success.
  unfoldable pub solve_ended : ℕ → String → Solved C → Solver C → Solver C
  solve_ended now key (minted c expires) s = record s { block_until = Dict.pop s.block_until key }
  solve_ended now key blocked s = record s {
    block_until = Dict.put s.block_until key (now + config.block_backoff);
  }
  solve_ended now key failed s = s

  -- `_serve_cached_through_block`
  unfoldable pub serve_cached_through_block :
      ℕ → String → Option C → Option ℕ → Solver C → Option C × Solver C
  serve_cached_through_block now key none expiry s = (none, s)
  serve_cached_through_block now key (some c) expiry s =
      if is_current now expiry
      then (
        some c,
        record s { held = Dict.put s.held key c; expires_at = put_expiry expiry key s.expires_at },
      )
      else (none, s)

  -- `get_clearance` after its wait.
  unfoldable pub end_clearance :
      ℕ → String → Option C → Option ℕ → Solved C → Solver C → Answer C × Solver C
  unfolding hold serve_cached_through_block held_is_valid
  end_clearance now key snapshot expiry (minted c expires) s =
      (clearance (some c), hold now key c expires s)
  end_clearance now key snapshot expiry failed s = (raises, s)
  end_clearance now key snapshot expiry blocked s =
      let served = serve_cached_through_block now key snapshot expiry s in
      elim served.0 [
        | some c ↦ (clearance (some c), served.1)
        | none ↦
            if held_is_valid now key s then (clearance (Dict.get s.held key), s) else (raises, s)
      ]

  -- `_page_holder_clearance` after its eval, which has failed, or has captured a cookie or none.
  unfoldable pub end_page_holder :
      ℕ → String → Option (Option C × Option ℕ) → Solver C → Answer C × Solver C
  unfolding hold
  end_page_holder now key none s = (clearance none, s)
  end_page_holder now key (some (none, expires)) s = (clearance none, s)
  end_page_holder now key (some (some c, expires)) s =
      (clearance (some c), hold now key c expires s)
