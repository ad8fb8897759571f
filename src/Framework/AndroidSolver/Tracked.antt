-- ===== src/Framework/AndroidSolver/Tracked.antt =====
-- The parts of the calls, in any order, and what they leave held and tracked.
use mangarr_gateway.Prelude.{
  Bool, Option, String, arith, false, inl, inr, none, some, string_eq, subst, sym, true, ℕ, ◌≡◌,
  ◌⊎◌,
}
use mangarr_gateway.Prelude.Dict
use mangarr_gateway.Prelude.Dict.{Dict}
use mangarr_gateway.Framework.AndroidSolver.{
  Settings, Solver, Solved, minted, blocked, failed, effective_expiry, put_expiry, track,
  record_expiry, hold, discard, get_clearance, solve_ended, serve_cached_through_block,
  end_clearance, end_page_holder,
}

abbrev pub is_there {ℓ} : {A : Type ℓ} → Option A → Bool
is_there none = false
is_there (some _) = true

abbrev pub IsTracked : {C : Type 0} → Solver C → Type 0
IsTracked s =
    (key : String)
    → is_there (Dict.get s.expires_at key) ≡ true
    → is_there (Dict.get s.held key) ≡ true

module _ {C : Type 0} (config : Settings) where
  -- A part of a call between two waits, in any order with those of other calls.
  pub data Step (s : Solver C) : Solver C → Type 0 where
    begins :
        (now : ℕ) (key : String) (force_resolve solve_if_missing : Bool)
        → Step s (get_clearance config now key force_resolve solve_if_missing s).1
    solves :
        (now : ℕ) (key : String) (solved : Solved C) → Step s (solve_ended config now key solved s)
    ends :
        (now : ℕ) (key : String) (snapshot : Option C) (expiry : Option ℕ) (solved : Solved C)
        → Step s (end_clearance config now key snapshot expiry solved s).1
    evaluates :
        (now : ℕ) (key : String) (captured : Option (Option C × Option ℕ))
        → Step s (end_page_holder config now key captured s).1
    refreshes :
        (now : ℕ) (key : String) (c : C) (expires : Option ℕ)
        → Step s (hold config now key c expires s)

  pub data Reach (s : Solver C) : Solver C → Type 0 where
    stay : Reach s s
    next : {t u : Solver C} → Reach s t → Step t u → Reach s u

  track-IsTracked :
      (effective : Option ℕ) (key : String) (c : C) (s : Solver C)
      → IsTracked s
      → IsTracked (track effective key (record s { held = Dict.put s.held key c }))
  unfolding track
  track-IsTracked (some e) key c s t k h =
      ground (arith, Dict.get-put s.expires_at key e k, Dict.get-put s.held key c k, t k)
  track-IsTracked none key c s t k h =
      ground (arith, Dict.get-pop s.expires_at key k, Dict.get-put s.held key c k, t k)

  pub hold-IsTracked :
      (now : ℕ) (key : String) (c : C) (expires : Option ℕ) (s : Solver C)
      → IsTracked s
      → IsTracked (hold config now key c expires s)
  unfolding hold record_expiry
  hold-IsTracked now key c expires s t =
      track-IsTracked (effective_expiry now (Dict.get config.clearance_lifetime key) expires) key c
        s t

  discard-IsTracked : (key : String) (s : Solver C) → IsTracked s → IsTracked (discard config key s)
  unfolding discard
  discard-IsTracked key s t k h =
      ground (arith, Dict.get-pop s.expires_at key k, Dict.get-pop s.held key k, t k)

  get_clearance-cases :
      (now : ℕ) (key : String) (f m : Bool) (s : Solver C)
      → ((get_clearance config now key f m s).1 ≡ s)
        ⊎ ((get_clearance config now key f m s).1 ≡ discard config key s)
  unfolding get_clearance
  get_clearance-cases now key f m s = ground arith

  get_clearance-IsTracked :
      (now : ℕ) (key : String) (f m : Bool) (s : Solver C)
      → IsTracked s
      → IsTracked (get_clearance config now key f m s).1
  get_clearance-IsTracked now key f m s t = elim (get_clearance-cases now key f m s) [
    | inl same ↦ subst IsTracked (sym same) t
    | inr discarded ↦ subst IsTracked (sym discarded) (discard-IsTracked key s t)
  ]

  abbrev restored : String → C → Option ℕ → Solver C → Solver C
  restored key c expiry s = record s {
    held = Dict.put s.held key c;
    expires_at = put_expiry expiry key s.expires_at;
  }

  restored-IsTracked :
      (key : String) (c : C) (expiry : Option ℕ) (s : Solver C)
      → IsTracked s
      → IsTracked (restored key c expiry s)
  restored-IsTracked key c none s t k h = ground (arith, Dict.get-put s.held key c k, t k)
  restored-IsTracked key c (some e) s t k h =
      ground (arith, Dict.get-put s.held key c k, Dict.get-put s.expires_at key e k, t k)

  serve_cached_through_block-cases :
      (now : ℕ) (key : String) (c : C) (expiry : Option ℕ) (s : Solver C)
      → ((serve_cached_through_block config now key (some c) expiry s).1 ≡ s)
        ⊎ ((serve_cached_through_block config now key (some c) expiry s).1
            ≡ restored key c expiry s)
  unfolding serve_cached_through_block
  serve_cached_through_block-cases now key c expiry s = ground arith

  serve_cached_through_block-IsTracked :
      (now : ℕ) (key : String) (snapshot : Option C) (expiry : Option ℕ) (s : Solver C)
      → IsTracked s
      → IsTracked (serve_cached_through_block config now key snapshot expiry s).1
  unfolding serve_cached_through_block
  serve_cached_through_block-IsTracked now key none expiry s t = t
  serve_cached_through_block-IsTracked now key (some c) expiry s t =
      elim (serve_cached_through_block-cases now key c expiry s) [
        | inl same ↦ subst IsTracked (sym same) t
        | inr back ↦ subst IsTracked (sym back) (restored-IsTracked key c expiry s t)
      ]

  end_clearance-cases :
      (now : ℕ) (key : String) (snapshot : Option C) (expiry : Option ℕ) (s : Solver C)
      → ((end_clearance config now key snapshot expiry blocked s).1 ≡ s)
        ⊎ ((end_clearance config now key snapshot expiry blocked s).1
            ≡ (serve_cached_through_block config now key snapshot expiry s).1)
  unfolding end_clearance
  end_clearance-cases now key snapshot expiry s = ground arith

  Step-IsTracked : (s u : Solver C) → Step s u → IsTracked s → IsTracked u
  unfolding solve_ended end_clearance end_page_holder
  Step-IsTracked s u (begins now key f m) t = get_clearance-IsTracked now key f m s t
  Step-IsTracked s u (solves now key (minted c e)) t = t
  Step-IsTracked s u (solves now key blocked) t = t
  Step-IsTracked s u (solves now key failed) t = t
  Step-IsTracked s u (ends now key snapshot expiry (minted c e)) t = hold-IsTracked now key c e s t
  Step-IsTracked s u (ends now key snapshot expiry failed) t = t
  Step-IsTracked s u (ends now key snapshot expiry blocked) t =
      elim (end_clearance-cases now key snapshot expiry s) [
        | inl same ↦ subst IsTracked (sym same) t
        | inr served ↦
            subst IsTracked (sym served)
              (serve_cached_through_block-IsTracked now key snapshot expiry s t)
      ]
  Step-IsTracked s u (evaluates now key none) t = t
  Step-IsTracked s u (evaluates now key (some (none, e))) t = t
  Step-IsTracked s u (evaluates now key (some (some c, e))) t = hold-IsTracked now key c e s t
  Step-IsTracked s u (refreshes now key c expires) t = hold-IsTracked now key c expires s t

  -- If every key with a tracked expiry has a held clearance, then this is so after any parts of
  -- calls, evals and refreshes, in any order and at any times.
  pub Reach-IsTracked : (s u : Solver C) → Reach s u → IsTracked s → IsTracked u
  Reach-IsTracked s u stay t = t
  Reach-IsTracked s u (next {t = v} r step) t = Step-IsTracked v u step (Reach-IsTracked s v r t)
