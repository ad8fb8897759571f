-- ===== src/Framework/Relevance.antt =====
-- `prune_candidates` of src/manga_gateway/framework/relevance.py. `titles` gives the normalized,
-- non-empty titles of a candidate; `score` is `_score`, in whatever unit the two thresholds are.
use mangarr_gateway.Prelude.{
  Bool, Bool-cases, List, String, [], any, arith, count, count-keep, false, if◌then◌else◌, inl, inr,
  keep, leb, length, length-take, ltb, max, min, nat_beq, nat_beq_iff, refl, string_eq, suc, take,
  true, zero, ℕ, ◌&&◌, ◌-◌, ◌<◌, ◌==◌, ◌∙◌, ◌∷◌, ◌≡◌, ◌≤◌,
}

-- A sublist keeps the order.
pub data Sublist {ℓ} {A : Type ℓ} : List A → List A → Type ℓ where
  nil : Sublist [] []
  drop : {x : A} {xs ys : List A} → Sublist xs ys → Sublist xs (x ∷ ys)
  both : {x : A} {xs ys : List A} → Sublist xs ys → Sublist (x ∷ xs) (x ∷ ys)

module _ {ℓ} {A : Type ℓ} where
  none_of : (xs : List A) → Sublist [] xs
  none_of [] = nil
  none_of (x ∷ xs) = drop (none_of xs)

  all_of : (xs : List A) → Sublist xs xs
  all_of [] = nil
  all_of (x ∷ xs) = both (all_of xs)

  keep-Sublist : (p : A → Bool) (xs : List A) → Sublist (keep p xs) xs
  unfolding keep
  keep-Sublist p [] = nil
  keep-Sublist p (x ∷ xs) = elim (Bool-cases (p x)) [
    | inl e ↦ rw e (both (keep-Sublist p xs))
    | inr e ↦ rw e (drop (keep-Sublist p xs))
  ]

  take-Sublist : (n : ℕ) (xs : List A) → Sublist (take n xs) xs
  take-Sublist zero xs = none_of xs
  take-Sublist (suc n) [] = nil
  take-Sublist (suc n) (x ∷ xs) = both (take-Sublist n xs)

module _ {ℓ} {T : Type ℓ} (titles : T → List String) (score : String → String → ℕ)
    (dominant_min gap : ℕ) where
  abbrev pub is_exact : String → T → Bool
  is_exact query c = any (λ t. t == query) (titles c)

  -- `max(..., default=0.0)`
  abbrev best : String → List String → ℕ
  best query [] = 0
  best query (t ∷ ts) = max (score t query) (best query ts)

  abbrev runner_up : String → List T → ℕ
  runner_up query [] = 0
  runner_up query (c ∷ cs) = max (best query (titles c)) (runner_up query cs)

  abbrev is_dominant : String → T → List T → Bool
  is_dominant query c cs =
      let top = best query (titles c) in leb dominant_min top && ltb gap (top - runner_up query cs)

  unfoldable pub prune_candidates : String → ℕ → List T → List T
  prune_candidates query cap [] = []
  prune_candidates query cap (c ∷ []) = c ∷ []
  prune_candidates query cap (c ∷ d ∷ cs) =
      if query == ""
      then take cap (c ∷ d ∷ cs)
      else if nat_beq (length (keep (is_exact query) (c ∷ d ∷ cs))) 1
      then keep (is_exact query) (c ∷ d ∷ cs)
      else if is_dominant query c (d ∷ cs)
      then c ∷ []
      else take cap (c ∷ d ∷ cs)

  exact-one :
      (query : String) (cs : List T)
      → count (is_exact query) cs ≡ 1
      → nat_beq (length (keep (is_exact query) cs)) 1 ≡ true
  exact-one query cs n = (nat_beq_iff _ 1).1 (count-keep (is_exact query) cs ∙ n)

  -- The pruned candidates are some of the candidates, in their order, at most max(1, cap) of them,
  -- and at least one where there is a candidate and the cap is positive.
  pub prune_candidates-Sublist :
      (query : String) (cap : ℕ) (cs : List T)
      → Sublist (prune_candidates query cap cs) cs
        × (length (prune_candidates query cap cs) ≤ max 1 cap)
        × (min 1 (min cap (length cs)) ≤ length (prune_candidates query cap cs))
  unfolding prune_candidates
  prune_candidates-Sublist query cap [] = (nil, omega arith, omega arith)
  prune_candidates-Sublist query cap (c ∷ []) = (all_of _, omega arith, omega arith)
  prune_candidates-Sublist query cap (c ∷ d ∷ cs) =
      let all = c ∷ d ∷ cs in
      let taken = length-take cap all in
      elim (Bool-cases (query == "")) [
        | inl e ↦ rw e (take-Sublist cap all, omega (arith, taken), omega (arith, taken))
        | inr e ↦ elim (Bool-cases (nat_beq (length (keep (is_exact query) all)) 1)) [
          | inl f ↦
              let l = (nat_beq_iff _ 1).0 f in
              rw (e, f) (keep-Sublist (is_exact query) all, omega (arith, l), omega (arith, l))
          | inr f ↦ elim (Bool-cases (is_dominant query c (d ∷ cs))) [
            | inl g ↦ rw (e, f, g) (both (none_of (d ∷ cs)), omega arith, omega arith)
            | inr g ↦
                rw (e, f, g) (take-Sublist cap all, omega (arith, taken), omega (arith, taken))
          ]
        ]
      ]

  -- Of several candidates, if exactly one has a title that is the query, a non-empty one, this one
  -- is what is left, wherever it stands and whatever the scores and the cap are.
  pub prune_candidates-exact :
      (query : String) (cap : ℕ) (cs : List T)
      → 1 < length cs
      → (query == "") ≡ false
      → count (is_exact query) cs ≡ 1
      → prune_candidates query cap cs ≡ keep (is_exact query) cs
  unfolding prune_candidates
  prune_candidates-exact query cap [] l e n =
      let impossible : ⊥ = omega (arith, l) in elim impossible [ ]
  prune_candidates-exact query cap (c ∷ []) l e n =
      let impossible : ⊥ = omega (arith, l) in elim impossible [ ]
  prune_candidates-exact query cap (c ∷ d ∷ cs) l e n = rw (e, exact-one query (c ∷ d ∷ cs) n) refl
