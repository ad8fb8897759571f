-- ===== src/Framework/AndroidSolver/Refresh/Kept.antt =====
-- What a tick leaves held and tracked.
use mangarr_gateway.Prelude.{
  Bool, Bool-cases, Option, Option-cases, String, [], arith, inl, inr, ltb, refl, string_eq, subst,
  sym, true, ℕ, ◌∷◌, ◌≡◌,
}
use mangarr_gateway.Prelude.Dict
use mangarr_gateway.Prelude.Dict.{Dict}
use mangarr_gateway.Framework.AndroidSolver.{
  Settings, Solver, effective_expiry, track, record_expiry, hold,
}
use mangarr_gateway.Framework.AndroidSolver.Refresh.{
  Refreshed, renewed, deferred, kept, Wait, is_due, swap, refresh_key, refresh_keys, refresh_tick,
}
use mangarr_gateway.Framework.AndroidSolver.Tracked.{is_there, IsTracked, hold-IsTracked}

module _ {C : Type 0} (config : Settings) (P : Solver C → Type 0)
    (solve : String → Solver C → Wait C) where
  module _ (waits : (key : String) (s : Solver C) → P s → P (solve key s).after)
      (holds : (time : ℕ) (key : String) (c : C) (expires : Option ℕ) (s : Solver C)
        → P s
        → P (hold config time key c expires s)) where
    swap-invariant :
        (key : String) (wait : Wait C) (result : Refreshed C)
        → wait.result ≡ result
        → P wait.after
        → P (swap config key wait).solver
    unfolding swap
    swap-invariant key wait (renewed c expires) e p =
        let k : (swap config key wait).solver ≡ hold config wait.time key c expires wait.after =
          ground (arith, e) in
        subst P (sym k) (holds wait.time key c expires wait.after p)
    swap-invariant key wait deferred e p =
        let k : (swap config key wait).solver ≡ wait.after = ground (arith, e) in subst P (sym k) p
    swap-invariant key wait kept e p =
        let k : (swap config key wait).solver ≡ wait.after = ground (arith, e) in subst P (sym k) p

    refresh_key-invariant :
        (now time : ℕ) (key : String) (expiry : ℕ) (s : Solver C)
        → P s
        → P (refresh_key config solve now time key expiry s).solver
    unfolding refresh_key
    refresh_key-invariant now time key expiry s p =
        elim (Bool-cases (is_due config now time key expiry s)) [
          | inl y ↦
              let k : refresh_key config solve now time key expiry s
                  ≡ swap config key (solve key s) =
                ground (arith, y) in
              subst (λ l. P l.solver) (sym k)
                (swap-invariant key (solve key s) (solve key s).result refl (waits key s p))
          | inr n ↦
              let k : (refresh_key config solve now time key expiry s).solver ≡ s =
                ground (arith, n) in
              subst P (sym k) p
        ]

    refresh_keys-invariant :
        (now time : ℕ) (d : Dict String ℕ) (s : Solver C)
        → P s
        → P (refresh_keys config solve now time d s).solver
    unfolding refresh_keys
    refresh_keys-invariant now time [] s p = p
    refresh_keys-invariant now time ((key, expiry) ∷ rest) s p =
        let l = refresh_key config solve now time key expiry s in
        let q = refresh_key-invariant now time key expiry s p in
        elim (Bool-cases l.is_deferred) [
          | inl y ↦
              let k : refresh_keys config solve now time ((key, expiry) ∷ rest) s ≡ l =
                ground (arith, y) in
              subst (λ m. P m.solver) (sym k) q
          | inr n ↦
              let k : refresh_keys config solve now time ((key, expiry) ∷ rest) s
                  ≡ refresh_keys config solve now l.time rest l.solver =
                ground (arith, n) in
              subst (λ m. P m.solver) (sym k) (refresh_keys-invariant now l.time rest l.solver q)
        ]

    refresh_tick-invariant :
        (foreground now : ℕ) (s : Solver C)
        → P s
        → P (refresh_tick config solve foreground now s).1.solver
    unfolding refresh_tick
    refresh_tick-invariant foreground now s p = elim (Bool-cases (ltb 0 foreground)) [
      | inl y ↦
          let k : (refresh_tick config solve foreground now s).1.solver ≡ s = ground (arith, y) in
          subst P (sym k) p
      | inr n ↦
          let k : (refresh_tick config solve foreground now s).1
              ≡ refresh_keys config solve now now s.expires_at s =
            ground (arith, n) in
          subst (λ m. P m.solver) (sym k) (refresh_keys-invariant now now s.expires_at s p)
    ]

abbrev pub is_held : {C : Type 0} → String → Solver C → Bool
is_held key s = is_there (Dict.get s.held key)

hold-is_held :
    {C : Type 0} (config : Settings) (time : ℕ) (j : String) (c : C) (expires : Option ℕ)
    (s : Solver C) (key : String)
    → is_held key s ≡ true
    → is_held key (hold config time j c expires s) ≡ true
unfolding hold record_expiry track
hold-is_held config time j c expires s key h =
    elim (Option-cases (effective_expiry time (Dict.get config.clearance_lifetime j) expires)) [
      | inl e ↦ ground (arith, e, Dict.get-put s.held j c key, h)
      | inr (x, e) ↦ ground (arith, e, Dict.get-put s.held j c key, h)
    ]

-- If no wait for a solve drops a key's clearance or leaves an expiry without a clearance, then
-- after a tick the key's clearance is still held, and only what is held has an expiry.
pub refresh_tick-keeps :
    {C : Type 0} (config : Settings) (solve : String → Solver C → Wait C) (foreground now : ℕ)
    (s : Solver C) (key : String)
    → ((j : String) (t : Solver C) → is_held key t ≡ true → is_held key (solve j t).after ≡ true)
    → ((j : String) (t : Solver C) → IsTracked t → IsTracked (solve j t).after)
    → is_held key s ≡ true
    → IsTracked s
    → (is_held key (refresh_tick config solve foreground now s).1.solver ≡ true)
      × IsTracked (refresh_tick config solve foreground now s).1.solver
refresh_tick-keeps config solve foreground now s key waits tracked h t =
    refresh_tick-invariant config (λ u. (is_held key u ≡ true) × IsTracked u) solve
      (λ j u p. (waits j u p.0, tracked j u p.1))
      (λ time j c expires u p. (
        hold-is_held config time j c expires u key p.0,
        hold-IsTracked config time j c expires u p.1,
      ))
      foreground now s (h, t)
