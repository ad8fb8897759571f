-- ===== src/Api/Merge.antt =====
-- The merge of the releases and the windows on it.
use mangarr_gateway.Prelude.{
  All, Bool, List, [], ap, arith, count, keep, nat_beq, refl, suc, take, zero, ℕ, ℤ, ◌++◌, ◌∙◌, ◌∷◌,
  ◌≡◌, ◌≤◌,
}
use mangarr_gateway.Api.{clamp, place, sort_newest_first, search_window, drop}

module _ {A : Type 0} (date : A → ℕ) where
  abbrev pub IsNewestFirst : List A → Type 0
  IsNewestFirst [] = Unit
  IsNewestFirst (x ∷ xs) = All (λ y. date y ≤ date x) xs × IsNewestFirst xs

  All-place :
      (n : ℕ) (r : A) (xs : List A)
      → date r ≤ n
      → All (λ y. date y ≤ n) xs
      → All (λ y. date y ≤ n) (place date r xs)
  unfolding place
  All-place n r [] h a = (h, tt)
  All-place n r (x ∷ xs) h a = ground (arith, All-place n r xs h a.1)

  All-weaken : (m n : ℕ) (xs : List A) → m ≤ n → All (λ y. date y ≤ m) xs → All (λ y. date y ≤ n) xs
  All-weaken m n [] h a = tt
  All-weaken m n (x ∷ xs) h a = (omega arith, All-weaken m n xs h a.1)

  place-IsNewestFirst : (r : A) (xs : List A) → IsNewestFirst xs → IsNewestFirst (place date r xs)
  unfolding place
  place-IsNewestFirst r [] s = (tt, tt)
  place-IsNewestFirst r (x ∷ xs) s = ground (
    arith,
    place-IsNewestFirst r xs s.1,
    All-place (date x) r xs,
    All-weaken (date x) (date r) xs,
  )

  sort_newest_first-IsNewestFirst : (rs : List A) → IsNewestFirst (sort_newest_first date rs)
  unfolding sort_newest_first
  sort_newest_first-IsNewestFirst [] = tt
  sort_newest_first-IsNewestFirst (r ∷ rs) =
      place-IsNewestFirst r (sort_newest_first date rs) (sort_newest_first-IsNewestFirst rs)

  abbrev pub has_date : ℕ → A → Bool
  has_date t r = nat_beq (date r) t

  keep-place :
      (t : ℕ) (r : A) (xs : List A)
      → keep (has_date t) (place date r xs) ≡ keep (has_date t) (r ∷ xs)
  unfolding place keep
  keep-place t r [] = refl
  keep-place t r (x ∷ xs) = ground (arith, keep-place t r xs)

  keep-sort_newest_first :
      (t : ℕ) (rs : List A) → keep (has_date t) (sort_newest_first date rs) ≡ keep (has_date t) rs
  unfolding sort_newest_first keep
  keep-sort_newest_first t [] = refl
  keep-sort_newest_first t (r ∷ rs) =
      keep-place t r (sort_newest_first date rs) ∙ ground (arith, keep-sort_newest_first t rs)

  count-place : (p : A → Bool) (r : A) (xs : List A) → count p (place date r xs) ≡ count p (r ∷ xs)
  unfolding place count
  count-place p r [] = refl
  count-place p r (x ∷ xs) = ground (arith, count-place p r xs)

  count-sort_newest_first :
      (p : A → Bool) (rs : List A) → count p (sort_newest_first date rs) ≡ count p rs
  unfolding sort_newest_first count
  count-sort_newest_first p [] = refl
  count-sort_newest_first p (r ∷ rs) =
      count-place p r (sort_newest_first date rs) ∙ ground (arith, count-sort_newest_first p rs)

  take-drop : (n : ℕ) (xs : List A) → xs ≡ take n xs ++ drop n xs
  take-drop zero xs = refl
  take-drop (suc n) [] = refl
  take-drop (suc n) (x ∷ xs) = ap (◌∷◌ x) (take-drop n xs)

  -- For any dates, offset and limit, the merged list is what stands before the window of `search`,
  -- the window, and what is left, and a negative offset or limit counts as 0. The list is newest
  -- first, holds each release as often as the sources gave it, and keeps those of one date in the
  -- order of the fan-out.
  pub search_window-cut :
      (offset limit : ℤ) (rs : List A) (p : A → Bool) (t : ℕ)
      → (sort_newest_first date rs
          ≡ take (clamp offset) (sort_newest_first date rs)
            ++ (search_window date offset limit rs
                ++ drop (clamp limit) (drop (clamp offset) (sort_newest_first date rs))))
        × IsNewestFirst (sort_newest_first date rs)
        × (count p (sort_newest_first date rs) ≡ count p rs)
        × (keep (has_date t) (sort_newest_first date rs) ≡ keep (has_date t) rs)
  unfolding search_window
  search_window-cut offset limit rs p t = (
    take-drop (clamp offset) (sort_newest_first date rs)
        ∙ ap (λ xs. take (clamp offset) (sort_newest_first date rs) ++ xs)
            (take-drop (clamp limit) (drop (clamp offset) (sort_newest_first date rs))),
    sort_newest_first-IsNewestFirst rs,
    count-sort_newest_first p rs,
    keep-sort_newest_first t rs,
  )
