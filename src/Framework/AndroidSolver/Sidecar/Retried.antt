-- ===== src/Framework/AndroidSolver/Sidecar/Retried.antt =====
-- The attempts of `_solve_with_retry`.
use mangarr_gateway.Prelude.{
  Bool, Bool-cases, arith, false, if◌then◌else◌, inl, inr, leb, leb→le, ltb, lt→ltb, refl, subst,
  suc, sym, true, zero, ℕ, ◌+◌, ◌<◌, ◌≡◌, ◌≤◌, ◌⊎◌,
}
use mangarr_gateway.Framework.AndroidSolver.{minted, blocked, failed}
use mangarr_gateway.Framework.AndroidSolver.Sidecar.{
  Attempted, deferred, unposted, errored, succeeded, Tried, bailed, ended, retry_or_raise,
  after_attempt, solve_from, solve_with_retry,
}

-- A failure before the POST, or one whose elapsed time is below the threshold.
abbrev pub is_fast : {C : Type 0} → ℕ → Attempted C → Bool
is_fast threshold unposted = true
is_fast threshold (errored elapsed) = ltb elapsed threshold
is_fast threshold deferred = false
is_fast threshold (succeeded c expires) = false

module _ {C : Type 0} (device : ℕ → Attempted C) (threshold attempts : ℕ) where
  -- What the last attempt says of the result.
  abbrev pub Concludes : ℕ → Attempted C → Tried C → Type 0
  Concludes last deferred res = res ≡ bailed
  Concludes last (succeeded c expires) res = res ≡ ended (minted c expires)
  Concludes last unposted res = (res ≡ ended failed) × (last ≡ attempts)
  Concludes last (errored elapsed) res =
      ((res ≡ ended blocked) × (threshold ≤ elapsed))
      ⊎ ((res ≡ ended failed) × ((elapsed < threshold) × (last ≡ attempts)))

  -- All attempts from one number to before another failed fast.
  abbrev pub AllFast : ℕ → ℕ → Type 0
  AllFast first last = (k : ℕ) → first ≤ k → k < last → is_fast threshold (device k) ≡ true

  abbrev pub IsTried : ℕ → ℕ × Tried C → Type 0
  IsTried first (last, res) =
      ((first ≤ last) × (last ≤ attempts)) × (AllFast first last × Concludes last (device last) res)

  AllFast-again :
      (first last : ℕ)
      → is_fast threshold (device first) ≡ true
      → AllFast (first + 1) last
      → AllFast first last
  AllFast-again first last f all k l h = elim (Bool-cases (ltb first k)) [
    | inl t ↦ all k (ground (arith, t)) h
    | inr e ↦
        subst (λ j. is_fast threshold (device j) ≡ true)
          (let q : first ≡ k = ground (arith, e, l) in q) f
  ]

  IsTried-again :
      (first : ℕ) (res : ℕ × Tried C)
      → is_fast threshold (device first) ≡ true
      → IsTried (first + 1) res
      → IsTried first res
  IsTried-again first (last, res) f ((l, m), (all, c)) =
      ((omega arith, m), (AllFast-again first last f all, c))

  IsTried-last :
      (first : ℕ) (a : Attempted C) (res : Tried C)
      → device first ≡ a
      → first ≤ attempts
      → Concludes first a res
      → IsTried first (first, res)
  IsTried-last first a res e l c = (
    (omega arith, l),
    (λ k m n. absurd (let f : ⊥ = omega arith in f), subst (λ b. Concludes first b res) (sym e) c),
  )

  retry_or_raise-IsTried :
      (n first : ℕ) (a : Attempted C)
      → n + first ≡ attempts
      → device first ≡ a
      → is_fast threshold a ≡ true
      → ((1 ≤ n) → IsTried (first + 1) (solve_from device threshold attempts n (first + 1)))
      → ((first ≡ attempts) → Concludes first a (ended failed))
      → IsTried first
          (retry_or_raise attempts first (solve_from device threshold attempts n (first + 1)))
  retry_or_raise-IsTried n first a h e f ih raised = elim (Bool-cases (ltb first attempts)) [
    | inl t ↦
        let again = solve_from device threshold attempts n (first + 1) in
        let k : retry_or_raise attempts first again ≡ again = ground (arith, t) in
        subst (IsTried first) (sym k)
          (IsTried-again first again (ground (arith, e, f)) (ih (ground (arith, t, h))))
    | inr t ↦
        let again = solve_from device threshold attempts n (first + 1) in
        let k : retry_or_raise attempts first again ≡ (first, ended failed) = ground (arith, t) in
        subst (IsTried first) (sym k)
          (IsTried-last first a (ended failed) e (omega arith) (raised (ground (arith, t, h))))
  ]

  after_attempt-IsTried :
      (n first : ℕ) (a : Attempted C)
      → device first ≡ a
      → n + first ≡ attempts
      → ((1 ≤ n) → IsTried (first + 1) (solve_from device threshold attempts n (first + 1)))
      → IsTried first (
          after_attempt threshold attempts first
            (solve_from device threshold attempts n (first + 1))
            a)
  after_attempt-IsTried n first deferred e h ih =
      IsTried-last first deferred bailed e (omega arith) refl
  after_attempt-IsTried n first unposted e h ih =
      retry_or_raise-IsTried n first unposted h e refl ih (λ q. (refl, q))
  after_attempt-IsTried n first (errored elapsed) e h ih =
      elim (Bool-cases (leb threshold elapsed)) [
        | inl slow ↦
            subst
              (λ b. IsTried first (
                if b
                then (first, ended blocked)
                else retry_or_raise attempts first
                    (solve_from device threshold attempts n (first + 1))))
              (sym slow)
              (IsTried-last first (errored elapsed) (ended blocked) e (omega arith)
                (inl (refl, leb→le threshold elapsed slow)))
        | inr fast ↦
            let l : elapsed < threshold = ground (arith, fast) in
            subst
              (λ b. IsTried first (
                if b
                then (first, ended blocked)
                else retry_or_raise attempts first
                    (solve_from device threshold attempts n (first + 1))))
              (sym fast)
              (retry_or_raise-IsTried n first (errored elapsed) h e (lt→ltb elapsed threshold l) ih
                (λ q. inr (refl, (l, q))))
      ]
  after_attempt-IsTried n first (succeeded c x) e h ih =
      IsTried-last first (succeeded c x) (ended (minted c x)) e (omega arith) refl

  solve_from-IsTried :
      (n first : ℕ)
      → n + first ≡ attempts + 1
      → 1 ≤ n
      → IsTried first (solve_from device threshold attempts n first)
  unfolding solve_from
  solve_from-IsTried zero first h l = absurd (let f : ⊥ = omega arith in f)
  solve_from-IsTried (suc n) first h l =
      after_attempt-IsTried n first (device first) refl (omega arith)
        (λ m. solve_from-IsTried n (first + 1) (omega arith) m)

  -- With at least one attempt allowed, a solve ends after at most that many, and every attempt
  -- before the last was a fast failure. The last one decides: a bail if the device deferred it,
  -- the clearance if it succeeded, a block window if it failed at or past the threshold, and
  -- otherwise the error, which only the last allowed attempt raises.
  pub solve_with_retry-IsTried :
      1 ≤ attempts → IsTried 1 (solve_with_retry device threshold attempts)
  solve_with_retry-IsTried h = solve_from-IsTried attempts 1 (omega arith) h
