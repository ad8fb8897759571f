-- ===== src/Sources/Comix/Jigsaw/Arranged.antt =====
-- The arrangements that the searches place.
use mangarr_gateway.Prelude.{
  All, All-append, All-take, Bool, Bool-cases, List, Option-cases, [], arith, count, count-append,
  count-eq-zero, count-pos, false, if◌then◌else◌, inl, inr, keep, length, length-append, ltb, map,
  nat_beq, none, not, refl, some, subst, suc, sym, true, zero, ℕ, ◌++◌, ◌+◌, ◌<◌, ◌∷◌, ◌≡◌, ◌≢◌,
  ◌≤◌, ◌⊎◌,
}
use mangarr_gateway.Sources.Comix.Jigsaw.{
  Measures, range_from, is_used, unused, min_by, Entry, place, sort_by_cost, beam_width, border,
  greedy, extend, extend_all, search_beam,
}
use mangarr_gateway.Sources.Comix.Cipher.{ok}
use mangarr_gateway.Sources.Comix.Scramble.{Image, Grid}

-- How often the numbers below n stand in a list.
tally : ℕ → List ℕ → ℕ
tally zero xs = 0
tally (suc n) xs = count (nat_beq n) xs + tally n xs

tally-nil : (n : ℕ) → tally n [] ≡ 0
unfolding tally count
tally-nil zero = refl
tally-nil (suc n) = omega (arith, tally-nil n)

tally-cons : (n x : ℕ) (xs : List ℕ) → tally n (x ∷ xs) ≡ tally n xs + (if ltb x n then 1 else 0)
unfolding tally count
tally-cons zero x xs = ground arith
tally-cons (suc n) x xs = ground (arith, tally-cons n x xs)

tally-le : (n : ℕ) (xs : List ℕ) → tally n xs ≤ length xs
tally-le n [] = omega (arith, tally-nil n)
tally-le n (x ∷ xs) = ground (arith, tally-cons n x xs, tally-le n xs)

-- Where all numbers below n are used, there are n.
all_used : (n : ℕ) (xs : List ℕ) → ((t : ℕ) → t < n → is_used xs t ≡ true) → n ≤ tally n xs
unfolding tally
all_used zero xs h = omega arith
all_used (suc n) xs h =
    omega (
      arith,
      count-pos (nat_beq n) xs (h n (omega arith)),
      all_used n xs (λ t k. h t (omega arith)),
    )

keep-nil :
    (p : ℕ → Bool) (start k t : ℕ)
    → keep p (range_from start k) ≡ []
    → start ≤ t
    → t < start + k
    → p t ≡ false
unfolding keep range_from
keep-nil p start zero t e h i = absurd (omega arith)
keep-nil p start (suc k) t e h i = elim (Bool-cases (p start)) [
  | inl f ↦ absurd (ground (arith, f))
  | inr f ↦ elim (Bool-cases (nat_beq start t)) [
    | inl same ↦ ground (arith, f)
    | inr other ↦
        keep-nil p (suc start) k t (ground (arith, f)) (ground (arith, other)) (omega arith)
  ]
]

-- There is a tile left while fewer than n are placed.
unused_left : (n : ℕ) (placed : List ℕ) → length placed < n → unused n placed ≢ []
unfolding unused
unused_left n placed h e = omega (
  arith,
  tally-le n placed,
  all_used n placed (λ t k.
      ground (arith, keep-nil (λ t. not (is_used placed t)) 0 n t e (omega arith) (omega arith))),
)

-- Each number below n at most once, and no other.
abbrev pub IsApart : ℕ → List ℕ → Type 0
IsApart n placed = (t : ℕ) → count (nat_beq t) placed ≤ (if ltb t n then 1 else 0)

-- A rearrangement of the tiles: n of them, none twice.
abbrev pub IsArrangement : ℕ → List ℕ → Type 0
IsArrangement n flat = (length flat ≡ n) × IsApart n flat

abbrev IsUnused : ℕ → List ℕ → ℕ → Type 0
IsUnused n placed t = (t < n) × (is_used placed t ≡ false)

All-keep_range :
    (n start k : ℕ) (placed : List ℕ)
    → start + k ≤ n
    → All (IsUnused n placed) (keep (λ t. not (is_used placed t)) (range_from start k))
unfolding keep range_from
All-keep_range n start zero placed h = tt
All-keep_range n start (suc k) placed h = elim (Bool-cases (is_used placed start)) [
  | inl e ↦ rw e (All-keep_range n (suc start) k placed (omega arith))
  | inr e ↦ rw e ((omega arith, e), All-keep_range n (suc start) k placed (omega arith))
]

unused-IsUnused : (n : ℕ) (placed : List ℕ) → All (IsUnused n placed) (unused n placed)
unfolding unused
unused-IsUnused n placed = All-keep_range n 0 n placed (omega arith)

IsApart-append :
    (n t : ℕ) (placed : List ℕ)
    → IsApart n placed
    → IsUnused n placed t
    → IsApart n (placed ++ t ∷ [])
unfolding count
IsApart-append n t placed h u s = ground (
  arith,
  h s,
  count-append (nat_beq s) placed (t ∷ []),
  count-eq-zero (nat_beq t) placed,
  u.0,
  u.1,
)

min_by-cons :
    (key : ℕ → ℕ) (x : ℕ) (xs : List ℕ) (t : ℕ)
    → min_by key (x ∷ xs) ≡ some t
    → (t ≡ x) ⊎ (min_by key xs ≡ some t)
unfolding min_by
min_by-cons key x xs t e = ground arith

min_by-All :
    (Q : ℕ → Type 0) (key : ℕ → ℕ) (xs : List ℕ) (t : ℕ) → All Q xs → min_by key xs ≡ some t → Q t
unfolding min_by
min_by-All Q key [] t a e = absurd (ground arith)
min_by-All Q key (x ∷ xs) t a e = elim (min_by-cons key x xs t e) [
  | inl same ↦ subst Q (sym same) a.0
  | inr rest ↦ min_by-All Q key xs t a.1 rest
]

min_by-none : (key : ℕ → ℕ) (xs : List ℕ) → min_by key xs ≡ none → xs ≡ []
unfolding min_by
min_by-none key [] e = refl
min_by-none key (x ∷ xs) e = absurd (ground arith)

module _ {P : Type 0} (measures : Measures P) (g : Grid) (img : Image P) where
  greedy_step :
      (n k position t : ℕ) (placed : List ℕ)
      → min_by (border measures g img placed position) (unused n placed) ≡ some t
      → greedy measures g img n (suc k) position placed
        ≡ greedy measures g img n k (suc position) (placed ++ t ∷ [])
  unfolding greedy
  greedy_step n k position t placed e = ground (arith, e)

  -- The greedy never raises, and arranges all tiles.
  pub greedy-IsArrangement :
      (n k position : ℕ) (placed : List ℕ)
      → length placed + k ≡ n
      → IsApart n placed
      → (flat : List ℕ) × (greedy measures g img n k position placed ≡ ok flat)
        × IsArrangement n flat
  unfolding greedy
  greedy-IsArrangement n zero position placed h a = (placed, refl, (omega (arith, h), a))
  greedy-IsArrangement n (suc k) position placed h a =
      elim (Option-cases (min_by (border measures g img placed position) (unused n placed))) [
        | inl e ↦ absurd (unused_left n placed (omega (arith, h)) (min_by-none _ _ e))
        | inr (t, e) ↦
            let u = min_by-All (IsUnused n placed) _ _ t (unused-IsUnused n placed) e in
            rw (greedy_step n k position t placed e) (
              greedy-IsArrangement n k (suc position) (placed ++ t ∷ [])
                (omega (arith, h, length-append placed (t ∷ []))) (IsApart-append n t placed a u))
      ]

  -- An entry of the beam at a position has that many tiles, apart.
  abbrev pub IsPartial : ℕ → ℕ → Entry → Type 0
  IsPartial n position e = (length e.1 ≡ position) × IsApart n e.1

  extend-IsPartial :
      (n position : ℕ) (e : Entry) (ts : List ℕ)
      → IsPartial n position e
      → All (IsUnused n e.1) ts
      → All
          (IsPartial n (suc position))
          (map (λ t. (e.0 + border measures g img e.1 position t, e.1 ++ t ∷ [])) ts)
  extend-IsPartial n position e [] h a = tt
  extend-IsPartial n position e (t ∷ ts) h a = (
    (omega (arith, h.0, length-append e.1 (t ∷ [])), IsApart-append n t e.1 h.1 a.0),
    extend-IsPartial n position e ts h a.1,
  )

  extend_all-IsPartial :
      (n position : ℕ) (es : List Entry)
      → All (IsPartial n position) es
      → All (IsPartial n (suc position)) (extend_all measures g img n position es)
  unfolding extend_all extend
  extend_all-IsPartial n position [] a = tt
  extend_all-IsPartial n position (e ∷ es) a =
      All-append (IsPartial n (suc position)) _ _
        (extend-IsPartial n position e _ a.0 (unused-IsUnused n e.1))
        (extend_all-IsPartial n position es a.1)

  place-IsPartial :
      (n position : ℕ) (e : Entry) (es : List Entry)
      → IsPartial n position e
      → All (IsPartial n position) es
      → All (IsPartial n position) (place e es)
  unfolding place
  place-IsPartial n position e [] h a = (h, tt)
  place-IsPartial n position e (x ∷ es) h a = elim (Bool-cases (ltb x.0 e.0)) [
    | inl f ↦ rw f (a.0, place-IsPartial n position e es h a.1)
    | inr f ↦ rw f (h, a)
  ]

  sort_by_cost-IsPartial :
      (n position : ℕ) (es : List Entry)
      → All (IsPartial n position) es
      → All (IsPartial n position) (sort_by_cost es)
  unfolding sort_by_cost
  sort_by_cost-IsPartial n position [] a = tt
  sort_by_cost-IsPartial n position (e ∷ es) a =
      place-IsPartial n position e (sort_by_cost es) a.0 (sort_by_cost-IsPartial n position es a.1)

  pub search_beam-IsPartial :
      (n k position m : ℕ) (beam : List Entry)
      → position + k ≡ m
      → All (IsPartial n position) beam
      → All (IsPartial n m) (search_beam measures g img n k position beam)
  unfolding search_beam
  search_beam-IsPartial n zero position m beam h a =
      let same : position ≡ m = omega (arith, h) in subst (λ x. All (IsPartial n x) beam) same a
  search_beam-IsPartial n (suc k) position m beam h a =
      search_beam-IsPartial n k (suc position) m _ (omega (arith, h)) (
        All-take (IsPartial n (suc position)) beam_width _
          (sort_by_cost-IsPartial n (suc position) _ (extend_all-IsPartial n position beam a)))
