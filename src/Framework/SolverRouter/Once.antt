-- ===== src/Framework/SolverRouter/Once.antt =====
-- Each backend is warmed once, and each failed key is reported once.
use mangarr_gateway.Prelude.{
  Bool, Bool-cases, Eq, List, String, [], any, ap, arith, count, count-append, if◌then◌else◌, inl,
  inr, nat_beq, nat_eq, refl, string_eq, true, ℕ, ◌++◌, ◌==◌, ◌||◌, ◌∙◌, ◌∷◌, ◌≡◌,
}
use mangarr_gateway.Prelude.Dict
use mangarr_gateway.Framework.SolverRouter.{
  Router, member, add_new, all_backends, Warmed, warm_backend, warm_all, warm,
}

abbrev pub once : Bool → ℕ
once b = if b then 1 else 0

module _ {ℓ} {A : Type ℓ} where
  any-append : (p : A → Bool) (xs ys : List A) → any p (xs ++ ys) ≡ any p xs || any p ys
  any-append p [] ys = refl
  any-append p (x ∷ xs) ys = ground (arith, any-append p xs ys)

module _ {ℓ} {A : Type ℓ} ⦃e : Eq A⦄ where
  any-member :
      (p : A → Bool) (x : A) (xs : List A) → member x xs ≡ true → p x ≡ true → any p xs ≡ true
  any-member p x [] h q = cc
  any-member p x (y ∷ ys) h q = ground (arith, e.beq_iff y x, any-member p x ys)

  any-add_new : (p : A → Bool) (out xs : List A) → any p (add_new out xs) ≡ any p out || any p xs
  unfolding add_new
  any-add_new p out [] = ground arith
  any-add_new p out (x ∷ xs) = elim (Bool-cases (member x out)) [
    | inl h ↦ rw h (ground (arith, any-add_new p out xs, any-member p x out h))
    | inr h ↦ rw h (ground (arith, any-add_new p (out ++ x ∷ []) xs, any-append p out (x ∷ [])))
  ]

  count-add_new :
      (a : A) (out xs : List A)
      → count (λ x. x == a) out ≡ once (member a out)
      → count (λ x. x == a) (add_new out xs) ≡ once (member a (add_new out xs))
  unfolding add_new count
  count-add_new a out [] h = h
  count-add_new a out (x ∷ xs) h = elim (Bool-cases (member x out)) [
    | inl q ↦ rw q (count-add_new a out xs h)
    | inr q ↦ rw q (
        count-add_new a (out ++ x ∷ []) xs (
          ground (
            arith,
            any-append (λ y. y == a) out (x ∷ []),
            count-append (λ y. y == a) out (x ∷ []),
            e.beq_iff x a,
          )))
  ]

module _ (warmed : ℕ → Warmed) where
  warm_all-called : (bs : List ℕ) (failed : List String) → (warm_all warmed bs failed).1 ≡ bs
  unfolding warm_all
  warm_all-called [] failed = refl
  warm_all-called (b ∷ bs) failed =
      ap (◌∷◌ b) (warm_all-called bs (add_new failed (warm_backend (warmed b))))

  abbrev pub reports : String → ℕ → Bool
  reports key b = member key (warm_backend (warmed b))

  warm_all-member :
      (key : String) (bs : List ℕ) (failed : List String)
      → member key (warm_all warmed bs failed).0 ≡ member key failed || any (reports key) bs
  unfolding warm_all
  warm_all-member key [] failed = ground arith
  warm_all-member key (b ∷ bs) failed =
      let keys = warm_backend (warmed b) in
      ground (
        arith,
        warm_all-member key bs (add_new failed keys),
        any-add_new (λ k. k == key) failed keys,
      )

  warm_all-count :
      (key : String) (bs : List ℕ) (failed : List String)
      → count (λ k. k == key) failed ≡ once (member key failed)
      → count (λ k. k == key) (warm_all warmed bs failed).0
        ≡ once (member key (warm_all warmed bs failed).0)
  unfolding warm_all
  warm_all-count key [] failed h = h
  warm_all-count key (b ∷ bs) failed h =
      warm_all-count key bs (add_new failed (warm_backend (warmed b)))
        (count-add_new key failed (warm_backend (warmed b)) h)

  -- `warm` calls each backend, the desktop one and those of the lanes, exactly once, also where one
  -- of them crashed or two lanes share one; and it reports a key once if a backend reports it, and
  -- no other key.
  pub warm-once :
      (r : Router) (b : ℕ) (key : String)
      → (count (λ x. nat_beq x b) (warm warmed r).1
          ≡ once (any (λ x. nat_beq x b) (r.patchright ∷ Dict.values r.android_by_lane)))
        × (count (λ k. k == key) (warm warmed r).0
            ≡ once (any (reports key) (r.patchright ∷ Dict.values r.android_by_lane)))
  unfolding warm all_backends
  warm-once r b key =
      let given = r.patchright ∷ Dict.values r.android_by_lane in
      let bs = add_new ⦃e = nat_eq⦄ [] given in
      let one : count (λ x. nat_beq x b) bs ≡ once (any (λ x. nat_beq x b) bs) =
        count-add_new ⦃e = nat_eq⦄ b [] given (unfold count in refl) in
      (
        ap (count (λ x. nat_beq x b)) (warm_all-called bs [])
            ∙ one
            ∙ ap once (any-add_new ⦃e = nat_eq⦄ (λ x. nat_beq x b) [] given),
        warm_all-count key bs [] (unfold count in refl)
            ∙ ap once (warm_all-member key bs [] ∙ any-add_new ⦃e = nat_eq⦄ (reports key) [] given),
      )
