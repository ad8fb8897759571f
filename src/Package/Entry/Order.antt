-- ===== src/Package/Entry/Order.antt =====
-- The order of the entries of an archive.
use mangarr_gateway.Prelude.{
  All, Bool-cases, List, [], ap, arith, inl, inr, length, length-append, ltb, map, max, refl, suc,
  sym, true, zero, ℕ, ◌*◌, ◌++◌, ◌+◌, ◌-◌, ◌/◌, ◌<◌, ◌∙◌, ◌∷◌, ◌≡◌, ◌≤◌,
}
use mangarr_gateway.Package.Text.{Text, text_lt, digits, spell, zeros, padded}
use mangarr_gateway.Package.Entry.{entry_name, entries, entry_width, archive}

-- The number that digits stand for, the last in front.
value : List ℕ → ℕ
value [] = 0
value (d ∷ ds) = d + 10 * value ds

abbrev AreDigits : List ℕ → Type 0
AreDigits = All (λ d. d < 10)

value-zero : (ds : List ℕ) (n : ℕ) → value (ds ++ zeros n) ≡ value ds
unfolding value zeros
value-zero [] zero = refl
value-zero [] (suc n) = omega (arith, value-zero [] n)
value-zero (d ∷ ds) n = omega (arith, value-zero ds n)

value-digits : (f n : ℕ) → n < f → value (digits f n) ≡ n
unfolding value digits
value-digits zero n h = elim h [ ]
value-digits (suc f) n h = ground (arith, value-digits f (n / 10))

length-digits-le : (f g n m : ℕ) → n ≤ m → n < f → m < g → length (digits f n) ≤ length (digits g m)
unfolding digits
length-digits-le zero g n m h i j = elim i [ ]
length-digits-le (suc f) zero n m h i j = elim j [ ]
length-digits-le (suc f) (suc g) n m h i j = ground (arith, length-digits-le f g (n / 10) (m / 10))

length-zeros : (n : ℕ) → length (zeros n) ≡ n
unfolding zeros
length-zeros zero = refl
length-zeros (suc n) = ap suc (length-zeros n)

digits-AreDigits : (f n : ℕ) → AreDigits (digits f n)
unfolding digits
digits-AreDigits zero n = tt
digits-AreDigits (suc f) n = elim (Bool-cases (ltb n 10)) [
  | inl e ↦ rw e (ground arith, tt)
  | inr e ↦ rw e (omega arith, digits-AreDigits f (n / 10))
]

append-AreDigits : (xs : List ℕ) (n : ℕ) → AreDigits xs → AreDigits (xs ++ zeros n)
unfolding zeros
append-AreDigits [] zero h = tt
append-AreDigits [] (suc n) h = (omega arith, append-AreDigits [] n tt)
append-AreDigits (x ∷ xs) n h = (h.0, append-AreDigits xs n h.1)

value-injective :
    (xs ys : List ℕ)
    → AreDigits xs
    → AreDigits ys
    → length xs ≡ length ys
    → value xs ≡ value ys
    → xs ≡ ys
unfolding value
value-injective [] [] h k l e = refl
value-injective [] (y ∷ ys) h k l e = absurd (omega (arith, l))
value-injective (x ∷ xs) [] h k l e = absurd (omega (arith, l))
value-injective (x ∷ xs) (y ∷ ys) h k l e =
    let first : x ≡ y = omega (arith, h.0, k.0, e) in
    let rest : xs ≡ ys =
      value-injective xs ys h.1 k.1 (omega (arith, l)) (omega (arith, h.0, k.0, e)) in
    cc

text_lt-spell :
    (ds : List ℕ) (s t : Text) → text_lt s t ≡ true → text_lt (spell ds s) (spell ds t) ≡ true
unfolding text_lt spell
text_lt-spell [] s t h = h
text_lt-spell (d ∷ ds) s t h = text_lt-spell ds ((48 + d) ∷ s) ((48 + d) ∷ t) (ground arith)

-- Numerals of one length stand in the order of their numbers, whatever follows them.
text_lt-value :
    (xs ys : List ℕ) (s t : Text)
    → AreDigits xs
    → AreDigits ys
    → length xs ≡ length ys
    → value xs < value ys
    → text_lt (spell xs s) (spell ys t) ≡ true
unfolding value text_lt spell
text_lt-value [] [] s t h k l e = elim e [ ]
text_lt-value [] (y ∷ ys) s t h k l e = absurd (omega (arith, l))
text_lt-value (x ∷ xs) [] s t h k l e = absurd (omega (arith, l))
text_lt-value (x ∷ xs) (y ∷ ys) s t h k l e = elim (Bool-cases (ltb (value xs) (value ys))) [
  | inl less ↦
      text_lt-value xs ys ((48 + x) ∷ s) ((48 + y) ∷ t) h.1 k.1 (omega (arith, l)) (ground arith)
  | inr same ↦
      let equal : xs ≡ ys =
        value-injective xs ys h.1 k.1 (omega (arith, l)) (ground (arith, h.0, k.0, e)) in
      rw equal (text_lt-spell ys ((48 + x) ∷ s) ((48 + y) ∷ t) (ground (arith, h.0, k.0, e)))
]

padded_facts :
    (width n bound : ℕ)
    → n ≤ bound
    → length (digits (suc bound) bound) ≤ width
    → AreDigits (padded width n) × (length (padded width n) ≡ width) × (value (padded width n) ≡ n)
unfolding padded
padded_facts width n bound h fits =
    let ds = digits (suc n) n in
    let k = width - length ds in
    (
      append-AreDigits ds k (digits-AreDigits (suc n) n),
      omega (
        arith,
        length-append ds (zeros k),
        length-zeros k,
        length-digits-le (suc n) (suc bound) n bound h,
        fits,
      ),
      omega (arith, value-zero ds k, value-digits (suc n) n),
    )

-- Every text stands before every later one.
abbrev pub IsSorted : List Text → Type 0
IsSorted [] = Unit
IsSorted (x ∷ xs) = All (λ y. text_lt x y ≡ true) xs × IsSorted xs

module _ (path_suffix : Text → Text) (width bound : ℕ)
    (fits : length (digits (suc bound) bound) ≤ width) where
  abbrev names : ℕ → List (Text × List ℕ) → List Text
  names index pages = map (λ e. e.0) (entries path_suffix width index pages)

  entry_name-lt :
      (i j : ℕ) (s t : Text) (c d : List ℕ)
      → i < j
      → j ≤ bound
      → text_lt (entry_name path_suffix i s width c) (entry_name path_suffix j t width d) ≡ true
  unfolding entry_name
  entry_name-lt i j s t c d h k =
      let (p, l, v) = padded_facts width i bound (omega arith) fits in
      let (q, m, w) = padded_facts width j bound k fits in
      text_lt-value (padded width i) (padded width j) _ _ p q (l ∙ sym m) (omega (arith, v, w))

  names-lt :
      (i j : ℕ) (s : Text) (c : List ℕ) (pages : List (Text × List ℕ))
      → i < j
      → j + length pages ≤ suc bound
      → All (λ y. text_lt (entry_name path_suffix i s width c) y ≡ true) (names j pages)
  unfolding entries
  names-lt i j s c [] h k = tt
  names-lt i j s c (page ∷ pages) h k = (
    entry_name-lt i j s page.0 c page.1 h (omega arith),
    names-lt i (j + 1) s c pages (omega arith) (omega arith),
  )

  names-IsSorted :
      (i : ℕ) (pages : List (Text × List ℕ))
      → i + length pages ≤ suc bound
      → IsSorted (names i pages)
  unfolding entries
  names-IsSorted i [] h = tt
  names-IsSorted i (page ∷ pages) h = (
    names-lt i (i + 1) page.0 page.1 pages (omega arith) (omega arith),
    names-IsSorted (i + 1) pages (omega arith),
  )

entries-content :
    (path_suffix : Text → Text) (width i : ℕ) (pages : List (Text × List ℕ))
    → map (λ e. e.1) (entries path_suffix width i pages) ≡ map (λ e. e.1) pages
unfolding entries
entries-content path_suffix width i [] = refl
entries-content path_suffix width i (page ∷ pages) =
    ap (◌∷◌ page.1) (entries-content path_suffix width (i + 1) pages)

-- Whatever extensions the pages get, the names of an archive's entries are in strictly ascending
-- order as texts, and the entries hold the contents of the pages, unchanged and in reading order.
pub archive-IsSorted :
    (path_suffix : Text → Text) (pages : List (Text × List ℕ))
    → IsSorted (map (λ e. e.0) (archive path_suffix pages))
      × (map (λ e. e.1) (archive path_suffix pages) ≡ map (λ e. e.1) pages)
unfolding archive entry_width
archive-IsSorted path_suffix pages =
    let n = length pages in
    let width = max 2 (length (digits (suc n) n)) in
    (
      names-IsSorted path_suffix width n (omega arith) 1 pages (omega arith),
      entries-content path_suffix width 1 pages,
    )
