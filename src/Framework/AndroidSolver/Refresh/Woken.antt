-- ===== src/Framework/AndroidSolver/Refresh/Woken.antt =====
-- The sleep after a tick.
use mangarr_gateway.Prelude.{
  Bool-cases, In, List, String, [], ap, arith, false, inl, inr, max, min, subst, sym, true, ℕ, ◌+◌,
  ◌∷◌, ◌≡◌, ◌≤◌, ◌⊎◌,
}
use mangarr_gateway.Prelude.Dict.{Dict}
use mangarr_gateway.Framework.AndroidSolver.{Settings, Solver}
use mangarr_gateway.Framework.AndroidSolver.Refresh.{
  Wait, minimum, is_reactive, recheck, upcoming, next_sleep, refresh_tick,
}

minimum-le : (n : ℕ) (ts : List ℕ) → minimum n ts ≤ n
minimum-le n [] = omega arith
minimum-le n (t ∷ ts) = ground (arith, minimum-le (min n t) ts)

minimum-le_In : (n : ℕ) (ts : List ℕ) (t : ℕ) → In t (n ∷ ts) → minimum n ts ≤ t
minimum-le_In n ts t (inl e) = subst (λ u. minimum n ts ≤ u) (sym e) (minimum-le n ts)
minimum-le_In n [] t (inr i) = elim i [ ]
minimum-le_In n (u ∷ us) t (inr (inl e)) = let h = minimum-le (min n u) us in omega (arith, e, h)
minimum-le_In n (u ∷ us) t (inr (inr i)) = minimum-le_In (min n u) us t (inr i)

module _ (config : Settings) where
  upcoming_active :
      (now : ℕ) (block_until : Dict String ℕ) (k : String) (e : ℕ) (d : Dict String ℕ)
      → is_reactive config k ≡ false
      → upcoming config now block_until ((k, e) ∷ d)
        ≡ recheck config now block_until k e ∷ upcoming config now block_until d
  unfolding upcoming
  upcoming_active now block_until k e d h = ground (arith, h)

  upcoming_reactive :
      (now : ℕ) (block_until : Dict String ℕ) (k : String) (e : ℕ) (d : Dict String ℕ)
      → is_reactive config k ≡ true
      → upcoming config now block_until ((k, e) ∷ d) ≡ upcoming config now block_until d
  unfolding upcoming
  upcoming_reactive now block_until k e d h = ground (arith, h)

  upcoming-In :
      (now : ℕ) (block_until expires_at : Dict String ℕ) (key : String) (expiry : ℕ)
      → In (key, expiry) expires_at
      → is_reactive config key ≡ false
      → In (recheck config now block_until key expiry) (upcoming config now block_until expires_at)
  upcoming-In now block_until [] key expiry i r = elim i [ ]
  upcoming-In now block_until ((k, e) ∷ d) key expiry (inl same) r =
      let active : is_reactive config k ≡ false =
        subst (λ p. is_reactive config p.0 ≡ false) same r in
      subst (In (recheck config now block_until key expiry))
        (sym (upcoming_active now block_until k e d active))
        (inl (ap (λ p. recheck config now block_until p.0 p.1) same))
  upcoming-In now block_until ((k, e) ∷ d) key expiry (inr i) r =
      let ih = upcoming-In now block_until d key expiry i r in
      elim (Bool-cases (is_reactive config k)) [
        | inl y ↦
            subst (In (recheck config now block_until key expiry))
              (sym (upcoming_reactive now block_until k e d y)) ih
        | inr n ↦
            subst (In (recheck config now block_until key expiry))
              (sym (upcoming_active now block_until k e d n)) (inr ih)
      ]

  next_sleep-le :
      (time t : ℕ) (ts : List ℕ)
      → In t ts
      → time + next_sleep config time ts ≤ max (time + config.refresh_min_sleep) t
  unfolding next_sleep
  next_sleep-le time t [] i = elim i [ ]
  next_sleep-le time t (u ∷ us) i = let h = minimum-le_In u us t i in omega (arith, h)

  next_sleep-bounds :
      (time : ℕ) (ts : List ℕ)
      → config.refresh_min_sleep ≤ config.refresh_max_sleep
      → (config.refresh_min_sleep ≤ next_sleep config time ts)
        × (next_sleep config time ts ≤ config.refresh_max_sleep)
  unfolding next_sleep
  next_sleep-bounds time [] h = (h, omega arith)
  next_sleep-bounds time (t ∷ ts) h = (omega arith, omega arith)

module _ {C : Type 0} (config : Settings) where
  refresh_tick-cases :
      (solve : String → Solver C → Wait C) (foreground now : ℕ) (s : Solver C)
      → ((refresh_tick config solve foreground now s).0 ≡ config.refresh_min_sleep)
        ⊎ ((refresh_tick config solve foreground now s).0
            ≡ next_sleep config (refresh_tick config solve foreground now s).1.time (
                upcoming config now
                  (refresh_tick config solve foreground now s).1.solver.block_until
                  (refresh_tick config solve foreground now s).1.solver.expires_at))
  unfolding refresh_tick
  refresh_tick-cases solve foreground now s = ground arith

  -- For every key that a tick leaves tracked and that is not on demand nor a page holder, the
  -- sleep after the tick is within the two bounds of the settings, and it ends no later than the
  -- end of the key's block window, or its refresh lead where it has none, unless this is less than
  -- the least sleep away.
  pub refresh_tick-wakes :
      (solve : String → Solver C → Wait C) (foreground now : ℕ) (s : Solver C) (key : String)
      (expiry : ℕ)
      → config.refresh_min_sleep ≤ config.refresh_max_sleep
      → In (key, expiry) (refresh_tick config solve foreground now s).1.solver.expires_at
      → is_reactive config key ≡ false
      → ((config.refresh_min_sleep ≤ (refresh_tick config solve foreground now s).0)
          × ((refresh_tick config solve foreground now s).0 ≤ config.refresh_max_sleep))
        × ((refresh_tick config solve foreground now s).1.time
              + (refresh_tick config solve foreground now s).0
            ≤ max ((refresh_tick config solve foreground now s).1.time + config.refresh_min_sleep) (
                recheck config now
                  (refresh_tick config solve foreground now s).1.solver.block_until
                  key
                  expiry))
  refresh_tick-wakes solve foreground now s key expiry h i r =
      let tick = refresh_tick config solve foreground now s in
      elim (refresh_tick-cases solve foreground now s) [
        | inl e ↦ ((omega (arith, e), omega (arith, e, h)), omega (arith, e))
        | inr e ↦
            let ts = upcoming config now tick.1.solver.block_until tick.1.solver.expires_at in
            let (least, most) = next_sleep-bounds config tick.1.time ts h in
            let w =
              next_sleep-le config tick.1.time
                (recheck config now tick.1.solver.block_until key expiry) ts
                (upcoming-In config now tick.1.solver.block_until tick.1.solver.expires_at key
                  expiry i r) in
            ((omega (arith, e, least), omega (arith, e, most)), omega (arith, e, w))
      ]
