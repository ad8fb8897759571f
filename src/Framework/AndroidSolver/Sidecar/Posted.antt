-- ===== src/Framework/AndroidSolver/Sidecar/Posted.antt =====
-- The posts of `_post_sidecar`.
use mangarr_gateway.Prelude.{
  Bool, Bool-cases, Option, arith, false, inl, inr, ltb, ltb→lt, max, none, refl, some, subst, suc,
  sym, true, zero, ℕ, ◌+◌, ◌<◌, ◌≡◌, ◌≤◌,
}
use mangarr_gateway.Framework.AndroidSolver.Sidecar.{post_from, post_sidecar}

module _ {R : Type 0} (busy : R → Bool) (post : ℕ → R) (attempts : ℕ) where
  -- Of the posts from one number to another all but the last were answered busy, and the last was not
  -- unless it used up the budget.
  pub data IsPosted (last : ℕ) : ℕ → Type 0 where
    answered : busy (post last) ≡ false → IsPosted last last
    spent : attempts ≤ last → IsPosted last last
    again : {first : ℕ} → busy (post first) ≡ true → IsPosted last (first + 1) → IsPosted last first

  -- The call ends with the response of its last post.
  abbrev pub IsEnded : ℕ → Option (ℕ × R) → Type 0
  IsEnded first none = ⊥
  IsEnded first (some (last, r)) =
      (r ≡ post last) × ((last ≤ max first attempts) × IsPosted last first)

  IsEnded-again :
      (first : ℕ) (res : Option (ℕ × R))
      → busy (post first) ≡ true
      → first < attempts
      → IsEnded (first + 1) res
      → IsEnded first res
  IsEnded-again first none b l h = h
  IsEnded-again first (some (last, r)) b l (e, (m, p)) = (e, (omega arith, again b p))

  post_from-IsEnded :
      (n first : ℕ)
      → attempts < n + first
      → 1 ≤ n
      → IsEnded first (post_from busy post attempts n first)
  unfolding post_from
  post_from-IsEnded zero first h l = omega arith
  post_from-IsEnded (suc n) first h l = elim (Bool-cases (busy (post first))) [
    | inl b ↦ elim (Bool-cases (ltb first attempts)) [
      | inl t ↦
          let k : post_from busy post attempts (suc n) first
              ≡ post_from busy post attempts n (first + 1) =
            ground (arith, b, t) in
          subst (IsEnded first) (sym k) (
            IsEnded-again first (post_from busy post attempts n (first + 1)) b
              (ltb→lt first attempts t)
              (post_from-IsEnded n (first + 1) (omega arith) (ground (arith, t))))
      | inr f ↦
          let k : post_from busy post attempts (suc n) first ≡ some (first, post first) =
            ground (arith, b, f) in
          subst (IsEnded first) (sym k) (refl, (omega arith, spent (ground (arith, f))))
    ]
    | inr b ↦
        let k : post_from busy post attempts (suc n) first ≡ some (first, post first) =
          ground (arith, b) in
        subst (IsEnded first) (sym k) (refl, (omega arith, answered b))
  ]

  -- The call ends after at most max(1, attempts) posts with the response of the last one. All
  -- posts before it were answered busy, and the last was not unless it used up the budget.
  pub post_sidecar-IsEnded : IsEnded 1 (post_sidecar busy post attempts)
  post_sidecar-IsEnded = post_from-IsEnded (suc attempts) 1 (omega arith) (omega arith)
