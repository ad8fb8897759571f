-- ===== src/Prelude/Latest.antt =====
-- ORDER BY key DESC, rowid DESC: the ordered list is sorted, holds the same rows, and commutes with
-- a WHERE clause. The first rows of it are picked out by their ids.
use mangarr_gateway.Prelude.{
  All, Bool, Eq, List, [], arith, any, beq_refl, count, if◌then◌else◌, keep, ltb, map, refl, suc,
  take, zero, ℕ, ◌==◌, ◌<◌, ◌∙◌, ◌∷◌, ◌≡◌, ◌≤◌,
}

module _ {A : Type 0} (key : A → ℕ) where
  -- Into rows of higher rowid, each at its place.
  unfoldable pub place : A → List A → List A
  place r [] = r ∷ []
  place r (x ∷ xs) = if ltb (key x) (key r) then r ∷ x ∷ xs else x ∷ place r xs

  unfoldable pub latest_first : List A → List A
  unfolding place
  latest_first [] = []
  latest_first (r ∷ rs) = place r (latest_first rs)

  abbrev pub IsSorted : List A → Type 0
  IsSorted [] = Unit
  IsSorted (x ∷ xs) = All (λ y. key y ≤ key x) xs × IsSorted xs

  All-place :
      (n : ℕ) (r : A) (xs : List A)
      → key r ≤ n
      → All (λ y. key y ≤ n) xs
      → All (λ y. key y ≤ n) (place r xs)
  unfolding place
  All-place n r [] h a = (h, tt)
  All-place n r (x ∷ xs) h a = ground (arith, All-place n r xs h a.1)

  All-weaken : (m n : ℕ) (xs : List A) → m ≤ n → All (λ y. key y ≤ m) xs → All (λ y. key y ≤ n) xs
  All-weaken m n [] h a = tt
  All-weaken m n (x ∷ xs) h a = (omega arith, All-weaken m n xs h a.1)

  place-IsSorted : (r : A) (xs : List A) → IsSorted xs → IsSorted (place r xs)
  unfolding place
  place-IsSorted r [] s = (tt, tt)
  place-IsSorted r (x ∷ xs) s =
      ground (arith, place-IsSorted r xs s.1, All-place (key x) r xs, All-weaken (key x) (key r) xs)

  pub latest_first-IsSorted : (t : List A) → IsSorted (latest_first t)
  unfolding latest_first
  latest_first-IsSorted [] = tt
  latest_first-IsSorted (r ∷ t) = place-IsSorted r (latest_first t) (latest_first-IsSorted t)

  count-place : (p : A → Bool) (r : A) (xs : List A) → count p (place r xs) ≡ count p (r ∷ xs)
  unfolding place count
  count-place p r [] = refl
  count-place p r (x ∷ xs) = ground (arith, count-place p r xs)

  pub count-latest_first : (p : A → Bool) (t : List A) → count p (latest_first t) ≡ count p t
  unfolding latest_first count
  count-latest_first p [] = refl
  count-latest_first p (r ∷ t) =
      count-place p r (latest_first t) ∙ ground (arith, count-latest_first p t)

  -- A row that is later than all others stands first.
  place-front :
      (r : A) (n : ℕ) (xs : List A) → n < key r → All (λ y. key y ≤ n) xs → place r xs ≡ r ∷ xs
  unfolding place
  place-front r n [] h a = refl
  place-front r n (x ∷ xs) h a = ground arith

  All-keep :
      (p : A → Bool) (n : ℕ) (xs : List A)
      → All (λ y. key y ≤ n) xs
      → All (λ y. key y ≤ n) (keep p xs)
  unfolding keep
  All-keep p n [] a = tt
  All-keep p n (x ∷ xs) a = ground (arith, All-keep p n xs a.1)

  keep-place :
      (p : A → Bool) (r : A) (xs : List A)
      → IsSorted xs
      → keep p (place r xs) ≡ (if p r then place r (keep p xs) else keep p xs)
  unfolding place keep
  keep-place p r [] s = refl
  keep-place p r (x ∷ xs) s =
      ground
        (arith, keep-place p r xs s.1, place-front r (key x) (keep p xs), All-keep p (key x) xs s.0)

  pub latest_first-keep :
      (p : A → Bool) (t : List A) → latest_first (keep p t) ≡ keep p (latest_first t)
  unfolding latest_first keep
  latest_first-keep p [] = refl
  latest_first-keep p (r ∷ t) =
      ground
        (arith, latest_first-keep p t, keep-place p r (latest_first t) (latest_first-IsSorted t))

module _ {ℓ κ} {A : Type ℓ} {K : Type κ} ⦃e : Eq K⦄ (id : A → K) where
  abbrev pub has : K → A → Bool
  has i r = id r == i

  abbrev pub id_among : List K → A → Bool
  id_among ids r = any (λ i. id r == i) ids

  keep-id_among-nil : (t : List A) → keep (id_among []) t ≡ []
  unfolding keep
  keep-id_among-nil [] = refl
  keep-id_among-nil (x ∷ t) = keep-id_among-nil t

  -- An id that no row has may be left off.
  keep-id_among-cons :
      (i : K) (ids : List K) (t : List A)
      → count (has i) t ≡ 0
      → keep (id_among (i ∷ ids)) t ≡ keep (id_among ids) t
  unfolding keep count
  keep-id_among-cons i ids [] h = refl
  keep-id_among-cons i ids (x ∷ t) h = ground (arith, keep-id_among-cons i ids t)

  -- Where ids are unique, the rows whose ids are among the first `k` are the first `k` rows.
  pub keep-id_among-take :
      (k : ℕ) (t : List A)
      → ((i : K) → count (has i) t ≤ 1)
      → keep (id_among (map id (take k t))) t ≡ take k t
  unfolding keep count
  keep-id_among-take zero t v = keep-id_among-nil t
  keep-id_among-take (suc k) [] v = refl
  keep-id_among-take (suc k) (x ∷ t) v = ground (
    arith,
    v (id x),
    beq_refl (id x),
    keep-id_among-cons (id x) (map id (take k t)) t,
    keep-id_among-take k t (λ i. ground (arith, v i)),
  )

-- The rows whose ids are among those of the `k` latest, latest first, are the `k` latest.
pub latest_first-take {κ} :
    {A : Type 0} {K : Type κ} ⦃e : Eq K⦄ (key : A → ℕ) (id : A → K) (k : ℕ) (t : List A)
    → ((i : K) → count (has id i) t ≤ 1)
    → latest_first key (keep (id_among id (map id (take k (latest_first key t)))) t)
      ≡ take k (latest_first key t)
latest_first-take key id k t v =
    latest_first-keep key (id_among id (map id (take k (latest_first key t)))) t
    ∙ keep-id_among-take id k (latest_first key t)
        (λ i. omega (arith, count-latest_first key (has id i) t, v i))
