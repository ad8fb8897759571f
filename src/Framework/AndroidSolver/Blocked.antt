-- ===== src/Framework/AndroidSolver/Blocked.antt =====
-- What a block window leaves to the callers that share one solve.
use mangarr_gateway.Prelude.{
  Bool, Option, String, ap, arith, false, none, refl, some, string_eq, subst, sym, true, ℕ, ◌+◌,
  ◌<◌, ◌∙◌, ◌≡◌, ◌≤◌,
}
use mangarr_gateway.Prelude.Dict
use mangarr_gateway.Framework.AndroidSolver.{
  Settings, Solver, blocked, answered, Answer, clearance, is_current, put_expiry, in_block_window,
  held_is_valid, get_clearance, solve_ended, serve_cached_through_block, end_clearance,
}
use mangarr_gateway.Prelude.Dict.{Dict}

is_current_earlier :
    (now later : ℕ) (expiry : Option ℕ)
    → now ≤ later
    → is_current later expiry ≡ true
    → is_current now expiry ≡ true
is_current_earlier now later none l e = refl
is_current_earlier now later (some x) l e = ground (arith, l, e)

module _ {C : Type 0} (config : Settings) where
  end_clearance_served :
      (now : ℕ) (key : String) (c : C) (expiry : Option ℕ) (s : Solver C)
      → is_current now expiry ≡ true
      → end_clearance config now key (some c) expiry blocked s ≡ (
        clearance (some c),
        record s { held = Dict.put s.held key c; expires_at = put_expiry expiry key s.expires_at },
      )
  unfolding end_clearance serve_cached_through_block
  end_clearance_served now key c expiry s e = ground (arith, e)

  end_clearance_shared :
      (now : ℕ) (key : String) (s : Solver C)
      → held_is_valid config now key s ≡ true
      → end_clearance config now key none none blocked s ≡ (clearance (Dict.get s.held key), s)
  unfolding end_clearance serve_cached_through_block
  end_clearance_shared now key s e = ground (arith, e)

  get_clearance_blocked :
      (now : ℕ) (key : String) (m : Bool) (s : Solver C)
      → config.is_mapped key ≡ true
      → config.is_warm_last key ≡ false
      → in_block_window config now key s ≡ true
      → held_is_valid config now key s ≡ true
      → get_clearance config now key true m s ≡ (answered (Dict.get s.held key), s)
  unfolding get_clearance
  get_clearance_blocked now key m s a b e f = ground (arith, a, b, e, f)

  abbrev restored : String → C → Option ℕ → Solver C → Solver C
  restored key c expiry s = record s {
    held = Dict.put s.held key c;
    expires_at = put_expiry expiry key s.expires_at;
  }

  restored-held_is_valid :
      (now : ℕ) (key : String) (c : C) (expiry : Option ℕ) (s : Solver C)
      → is_current now expiry ≡ true
      → Dict.get s.expires_at key ≡ none
      → held_is_valid config now key (restored key c expiry s) ≡ true
  unfolding held_is_valid
  restored-held_is_valid now key c none s e h =
      ground (arith, Dict.get-put s.held key c key, string_eq.beq_iff key key, h)
  restored-held_is_valid now key c (some x) s e h = ground (
    arith,
    Dict.get-put s.held key c key,
    Dict.get-put s.expires_at key x key,
    string_eq.beq_iff key key,
    e,
  )

  restored-held :
      (key : String) (c : C) (expiry : Option ℕ) (s : Solver C)
      → Dict.get (restored key c expiry s).held key ≡ some c
  restored-held key c expiry s =
      ground (arith, Dict.get-put s.held key c key, string_eq.beq_iff key key)

  -- The state after a block and the first caller's answer.
  abbrev after_block : ℕ → String → C → Option ℕ → Solver C → Solver C
  after_block t key c expiry s = restored key c expiry (solve_ended config t key blocked s)

  after_block-in_block_window :
      (t now : ℕ) (key : String) (c : C) (expiry : Option ℕ) (s : Solver C)
      → now < t + config.block_backoff
      → in_block_window config now key (after_block t key c expiry s) ≡ true
  unfolding in_block_window solve_ended
  after_block-in_block_window t now key c expiry s l = ground (
    arith,
    Dict.get-put s.block_until key (t + config.block_backoff) key,
    string_eq.beq_iff key key,
  )

  after_block-held_is_valid :
      (t now : ℕ) (key : String) (c : C) (expiry : Option ℕ) (s : Solver C)
      → is_current now expiry ≡ true
      → Dict.get s.expires_at key ≡ none
      → held_is_valid config now key (after_block t key c expiry s) ≡ true
  unfolding solve_ended
  after_block-held_is_valid t now key c expiry s e h =
      restored-held_is_valid now key c expiry (solve_ended config t key blocked s) e h

  -- What the caller that discarded a clearance leaves and gets when its solve is blocked.
  abbrev pub first_of : ℕ → ℕ → String → C → Option ℕ → Solver C → Answer C × Solver C
  first_of t now key c expiry s =
      end_clearance config now key (some c) expiry blocked (solve_ended config t key blocked s)

  -- A caller has discarded a clearance of a mapped key that is no page holder, with its expiry,
  -- and the solve ends in a block window. Then this caller gets the clearance back, a later caller
  -- that waited for the same solve gets it too, and a later forced call answers it without a solve
  -- and leaves the state, all as long as the clearance has not lapsed and, for the forced call,
  -- the window has not ended.
  pub end_clearance-blocked :
      (t now later : ℕ) (key : String) (c : C) (expiry : Option ℕ) (m : Bool) (s : Solver C)
      → config.is_mapped key ≡ true
      → config.is_warm_last key ≡ false
      → now ≤ later
      → later < t + config.block_backoff
      → is_current later expiry ≡ true
      → Dict.get s.expires_at key ≡ none
      → ((first_of t now key c expiry s).0 ≡ clearance (some c))
        × ((end_clearance config later key none none blocked (first_of t now key c expiry s).1
              ≡ (clearance (some c), (first_of t now key c expiry s).1))
            × (get_clearance config later key true m (first_of t now key c expiry s).1
                ≡ (answered (some c), (first_of t now key c expiry s).1)))
  end_clearance-blocked t now later key c expiry m s a b l w e h =
      let r = after_block t key c expiry s in
      let first =
        end_clearance_served now key c expiry (solve_ended config t key blocked s)
          (is_current_earlier now later expiry l e) in
      let valid : held_is_valid config later key r ≡ true =
        after_block-held_is_valid t later key c expiry s e h in
      let there = restored-held key c expiry (solve_ended config t key blocked s) in
      subst
        (λ (f : Answer C × Solver C).
          (f.0 ≡ clearance (some c))
          × ((end_clearance config later key none none blocked f.1 ≡ (clearance (some c), f.1))
              × (get_clearance config later key true m f.1 ≡ (answered (some c), f.1))))
        (sym first)
        (
          refl,
          (
            end_clearance_shared later key r valid ∙ ap (λ o. (clearance o, r)) there,
            get_clearance_blocked later key m r a b
                  (after_block-in_block_window t later key c expiry s w) valid
                ∙ ap (λ o. (answered o, r)) there,
          ),
        )
