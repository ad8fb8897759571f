-- ===== src/Prelude/Lists.antt =====
-- Lists measured by native numbers, Boolean filters and quantifiers.
use Prim.Native.Nat.{ℕ, zero, suc, ◌+◌, ◌≤◌, ◌<◌, min}
use mathlib.Core.Path.{◌≡◌, refl, ap, sym, subst}
use mathlib.Core.Bool.{Bool, true, false, ◌&&◌, ◌||◌, not, false≢true}
use mathlib.Core.Logic.{◌⊎◌, inl, inr}
use mathlib.Core.List.{List, [], ◌∷◌, ◌++◌, map}
use native.Mathlib.Omega.{arith}
use mangarr_gateway.Prelude.Tests.{if◌then◌else◌, Bool-cases}

module _ {ℓ} {A : Type ℓ} where
  abbrev pub length : List A → ℕ
  length [] = 0
  length (x ∷ xs) = suc (length xs)

  abbrev pub take : ℕ → List A → List A
  take zero xs = []
  take (suc n) [] = []
  take (suc n) (x ∷ xs) = x ∷ take n xs

  abbrev pub drop : ℕ → List A → List A
  drop zero xs = xs
  drop (suc n) [] = []
  drop (suc n) (x ∷ xs) = drop n xs

  abbrev pub any : (A → Bool) → List A → Bool
  any p [] = false
  any p (x ∷ xs) = p x || any p xs

  -- `[x for x in xs if p(x)]`
  unfoldable pub keep : (A → Bool) → List A → List A
  keep p [] = []
  keep p (x ∷ xs) = if p x then x ∷ keep p xs else keep p xs

  abbrev pub All {κ} : (A → Type κ) → List A → Type κ
  All P [] = Unit
  All P (x ∷ xs) = P x × All P xs

  pub All-append {κ} : (P : A → Type κ) (xs ys : List A) → All P xs → All P ys → All P (xs ++ ys)
  All-append P [] ys a b = b
  All-append P (x ∷ xs) ys a b = (a.0, All-append P xs ys a.1 b)

  pub All-take {κ} : (P : A → Type κ) (n : ℕ) (xs : List A) → All P xs → All P (take n xs)
  All-take P zero xs a = tt
  All-take P (suc n) [] a = tt
  All-take P (suc n) (x ∷ xs) a = (a.0, All-take P n xs a.1)

  pub length-append : (xs ys : List A) → length (xs ++ ys) ≡ length xs + length ys
  length-append [] ys = omega arith
  length-append (x ∷ xs) ys = omega (arith, length-append xs ys)

  pub length-take : (n : ℕ) (xs : List A) → length (take n xs) ≡ min n (length xs)
  length-take zero xs = omega arith
  length-take (suc n) [] = omega arith
  length-take (suc n) (x ∷ xs) = omega (arith, length-take n xs)

  pub length-keep-le : (p : A → Bool) (xs : List A) → length (keep p xs) ≤ length xs
  unfolding keep
  length-keep-le p [] = omega arith
  length-keep-le p (x ∷ xs) = ground (arith, length-keep-le p xs)

-- How many elements pass a test.
module _ {ℓ} {A : Type ℓ} where
  unfoldable pub count : (A → Bool) → List A → ℕ
  count p [] = 0
  count p (x ∷ xs) = if p x then suc (count p xs) else count p xs

  pub count-append : (p : A → Bool) (xs ys : List A) → count p (xs ++ ys) ≡ count p xs + count p ys
  unfolding count
  count-append p [] ys = omega arith
  count-append p (x ∷ xs) ys = ground (arith, count-append p xs ys)

  pub count-eq-zero : (p : A → Bool) (xs : List A) → any p xs ≡ false → count p xs ≡ 0
  unfolding count
  count-eq-zero p [] h = refl
  count-eq-zero p (x ∷ xs) h = ground (arith, count-eq-zero p xs)

  pub count-pos : (p : A → Bool) (xs : List A) → any p xs ≡ true → 1 ≤ count p xs
  unfolding count
  count-pos p [] h = absurd (false≢true h)
  count-pos p (x ∷ xs) h = ground (arith, count-pos p xs)

  pub count-le :
      (p q : A → Bool) (xs : List A) → ((x : A) → p x ≡ true → q x ≡ true) → count p xs ≤ count q xs
  unfolding count
  count-le p q [] h = omega arith
  count-le p q (x ∷ xs) h = ground (arith, h x, count-le p q xs h)

  pub any-eq-false : (p : A → Bool) (xs : List A) → count p xs ≡ 0 → any p xs ≡ false
  unfolding count
  any-eq-false p [] h = refl
  any-eq-false p (x ∷ xs) h = ground (arith, any-eq-false p xs)

  pub any-le :
      (p q : A → Bool) (xs : List A)
      → ((x : A) → p x ≡ true → q x ≡ true)
      → any p xs ≡ true
      → any q xs ≡ true
  any-le p q [] h e = cc
  any-le p q (x ∷ xs) h e = ground (arith, h x, any-le p q xs h)

  pub count-keep : (p : A → Bool) (xs : List A) → length (keep p xs) ≡ count p xs
  unfolding count keep
  count-keep p [] = refl
  count-keep p (x ∷ xs) = ground (arith, count-keep p xs)

  -- A filter never raises a count.
  pub count-keep-le : (p q : A → Bool) (xs : List A) → count p (keep q xs) ≤ count p xs
  unfolding count keep
  count-keep-le p q [] = omega arith
  count-keep-le p q (x ∷ xs) = ground (arith, count-keep-le p q xs)

  pub count_congr : (p q : A → Bool) (xs : List A) → ((x : A) → p x ≡ q x) → count p xs ≡ count q xs
  unfolding count
  count_congr p q [] h = refl
  count_congr p q (x ∷ xs) h = ground (arith, h x, count_congr p q xs h)

  -- A map that changes no test's answer changes no count.
  pub count-map :
      (p : A → Bool) (f : A → A) (xs : List A)
      → ((x : A) → p (f x) ≡ p x)
      → count p (map f xs) ≡ count p xs
  unfolding count
  count-map p f [] h = refl
  count-map p f (x ∷ xs) h = ground (arith, h x, count-map p f xs h)

  -- A map raises no count but by elements that pass `s`, where there are none of these.
  pub count-map-le :
      (p q s : A → Bool) (f : A → A) (xs : List A)
      → ((x : A) → p (f x) ≡ true → (q x ≡ true) ⊎ (s x ≡ true))
      → any s xs ≡ false
      → count p (map f xs) ≤ count q xs
  unfolding count
  count-map-le p q s f [] h absent = omega arith
  count-map-le p q s f (x ∷ xs) h absent = ground (arith, h x, count-map-le p q s f xs h)

  pub any-const : (xs : List A) → any (λ _. false) xs ≡ false
  any-const [] = refl
  any-const (x ∷ xs) = any-const xs

  pub keep-keep : (p q : A → Bool) (xs : List A) → keep p (keep q xs) ≡ keep (λ x. p x && q x) xs
  unfolding keep
  keep-keep p q [] = refl
  keep-keep p q (x ∷ xs) = ground (arith, keep-keep p q xs)

  pub keep_congr : (p q : A → Bool) (xs : List A) → ((x : A) → p x ≡ q x) → keep p xs ≡ keep q xs
  unfolding keep
  keep_congr p q [] h = refl
  keep_congr p q (x ∷ xs) h = ground (arith, h x, keep_congr p q xs h)

  pub count-split :
      (p q : A → Bool) (xs : List A)
      → count p xs ≡ count (λ x. p x && q x) xs + count (λ x. p x && not (q x)) xs
  unfolding count
  count-split p q [] = refl
  count-split p q (x ∷ xs) = ground (arith, count-split p q xs)

  pub count-keep-and :
      (p q : A → Bool) (xs : List A) → count p (keep q xs) ≡ count (λ x. p x && q x) xs
  unfolding count keep
  count-keep-and p q [] = refl
  count-keep-and p q (x ∷ xs) = ground (arith, count-keep-and p q xs)

  pub any-keep-count :
      (p q : A → Bool) (xs : List A) → count (λ x. p x && q x) xs ≡ 0 → any p (keep q xs) ≡ false
  unfolding count keep
  any-keep-count p q [] h = refl
  any-keep-count p q (x ∷ xs) h = ground (arith, any-keep-count p q xs)

  -- An element that passes the test, and what stands before and after it.
  pub count-find :
      (p : A → Bool) (xs : List A)
      → 0 < count p xs
      → (before : List A) × (x : A) × (after : List A) × (xs ≡ before ++ x ∷ after) × (p x ≡ true)
  unfolding count
  count-find p [] h = absurd (omega arith)
  count-find p (x ∷ xs) h = elim (Bool-cases (p x)) [
    | inl e ↦ ([], x, xs, refl, e)
    | inr e ↦
        let (before, y, after, split, f) = count-find p xs (ground arith) in
        (x ∷ before, y, after, ap (◌∷◌ x) split, f)
  ]

  -- Replacing one element shifts a count by the two answers.
  pub count-replace :
      (p : A → Bool) (before after : List A) (x y : A)
      → count p (before ++ x ∷ after) + count p (y ∷ [])
        ≡ count p (before ++ y ∷ after) + count p (x ∷ [])
  unfolding count
  count-replace p before after x y =
      ground (arith, count-append p before (x ∷ after), count-append p before (y ∷ after))

pub length-map {ℓ κ} :
    {A : Type ℓ} {B : Type κ} (f : A → B) (xs : List A) → length (map f xs) ≡ length xs
length-map f [] = refl
length-map f (x ∷ xs) = ap suc (length-map f xs)

pub count-map_comp {ℓ κ} :
    {A : Type ℓ} {B : Type κ} (p : B → Bool) (f : A → B) (xs : List A)
    → count p (map f xs) ≡ count (λ x. p (f x)) xs
unfolding count
count-map_comp p f [] = refl
count-map_comp p f (x ∷ xs) = ground (arith, count-map_comp p f xs)

-- Membership.
abbrev pub In : {A : Type 0} → A → List A → Type 0
In a [] = ⊥
In a (x ∷ xs) = (a ≡ x) ⊎ In a xs

In-keep_head :
    {A : Type 0} (p : A → Bool) (a x : A) (xs rest : List A)
    → p x ≡ true
    → (In a rest → In a xs × (p a ≡ true))
    → In a (x ∷ rest)
    → In a (x ∷ xs) × (p a ≡ true)
In-keep_head p a x xs rest e ih (inl same) = (inl same, subst (λ y. p y ≡ true) (sym same) e)
In-keep_head p a x xs rest e ih (inr later) = let (i, q) = ih later in (inr i, q)

pub In-keep :
    {A : Type 0} (p : A → Bool) (a : A) (xs : List A) → In a (keep p xs) → In a xs × (p a ≡ true)
unfolding keep
In-keep p a [] h = elim h [ ]
In-keep p a (x ∷ xs) h = elim (Bool-cases (p x)) [
  | inl e ↦ In-keep_head p a x xs (keep p xs) e (In-keep p a xs) (rw e at h)
  | inr e ↦ let (i, q) = In-keep p a xs (rw e at h) in (inr i, q)
]
