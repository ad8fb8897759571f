-- ===== src/Sources/Comix/Scramble/Permutes.antt =====
-- The permutation of `_scramble_permutation`.
use mangarr_gateway.Prelude.{
  arith, if◌then◌else◌, inl, inr, nat_beq, refl, subst, suc, zero, ℕ, ℤ, ◌%◌, ◌+◌, ◌<◌, ◌≡◌,
}
use mangarr_gateway.Sources.Comix.Cipher.{ok, Result-cases}
use mangarr_gateway.Sources.Comix.Scramble.{scramble_generator, swap, shuffle, scramble_permutation}

-- A permutation of the numbers below n.
pub record Permutes (n : ℕ) (values : ℕ → ℕ) : Type 0 where
  pub below : (s : ℕ) → s < n → values s < n
  pub source : ℕ → ℕ
  pub source_below : (d : ℕ) → d < n → source d < n
  pub source_inverse : (d : ℕ) → d < n → values (source d) ≡ d

module _ {n : ℕ} where
  identity-Permutes : Permutes n (λ i. i)
  identity-Permutes = record {
    below = λ s h. h;
    source = λ d. d;
    source_below = λ d h. h;
    source_inverse = λ d h. refl;
  }

  swap-Permutes :
      (i j : ℕ) (values : ℕ → ℕ) → i < n → j < n → Permutes n values → Permutes n (swap i j values)
  unfolding swap
  swap-Permutes i j values hi hj p = record {
    below = λ s h. ground (arith, p.below s, p.below i, p.below j);
    source = λ d. let s = p.source d in if nat_beq s i then j else if nat_beq s j then i else s;
    source_below = λ d h. ground (arith, p.source_below d);
    source_inverse = λ d h. ground (arith, p.source_inverse d);
  }

  shuffle-Permutes :
      (step : ℕ → ℕ) (i state : ℕ) (values : ℕ → ℕ)
      → i < n
      → Permutes n values
      → Permutes n (shuffle step i state values)
  unfolding shuffle
  shuffle-Permutes step zero state values h p = p
  shuffle-Permutes step (suc i) state values h p =
      shuffle-Permutes step i (step state) _ (omega arith)
        (swap-Permutes (suc i) (step state % (suc i + 1)) values h (omega arith) p)

no_tile-Permutes : (values : ℕ → ℕ) → Permutes 0 values
no_tile-Permutes values = record {
  below = λ s h. elim h [ ];
  source = λ d. d;
  source_below = λ d h. elim h [ ];
  source_inverse = λ d h. elim h [ ];
}

pub scramble_permutation-Permutes :
    (seed tiles : ℕ) (algo : ℤ) (perm : ℕ → ℕ)
    → scramble_permutation seed tiles algo ≡ ok perm
    → Permutes tiles perm
unfolding scramble_permutation
scramble_permutation-Permutes seed zero algo perm h = no_tile-Permutes perm
scramble_permutation-Permutes seed (suc n) algo perm h =
    elim (Result-cases (scramble_generator seed algo)) [
      | inl (g, f) ↦
          let same : ok (shuffle g.step n g.start (λ i. i)) ≡ ok perm = ground (arith, f) in
          let e : shuffle g.step n g.start (λ i. i) ≡ perm = cc in
          subst (Permutes (suc n)) e
            (shuffle-Permutes g.step n g.start (λ i. i) (omega arith) identity-Permutes)
      | inr (m, f) ↦ absurd (ground (arith, f))
    ]
