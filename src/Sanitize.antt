-- ===== src/Sanitize.antt =====
-- `sanitize_filename` of src/manga_gateway/util/sanitize.py, which jobs/package.py builds the output
-- paths with. A text is the list of its code points; what counts as whitespace and as a word
-- character (`\s`, `[^\W_]`) are parameters.
mod Tests
use mangarr_gateway.Prelude.{
  All, Bool, Bool-cases, List, [], any, arith, false, if◌then◌else◌, inl, inr, leb, map, nat_beq,
  not, refl, suc, true, zero, ℕ, ◌&&◌, ◌++◌, ◌+◌, ◌||◌, ◌∷◌, ◌≡◌, ◌⊎◌,
}

-- `_ILLEGAL`: < > : " / \ | ? * and the control characters
unfoldable pub illegal : ℕ → Bool
illegal c = leb c 31 || any (nat_beq c) (60 ∷ 62 ∷ 58 ∷ 34 ∷ 47 ∷ 92 ∷ 124 ∷ 63 ∷ 42 ∷ [])

unfoldable pub neutralize : List ℕ → List ℕ
unfolding illegal
neutralize cs = map (λ c. if illegal c then 95 else c) cs

abbrev pub flush : ℕ → List ℕ
flush zero = []
flush (suc zero) = 46 ∷ []
flush (suc (suc n)) = 95 ∷ []

-- `_DOT_RUN.sub("_", ...)`, after `n` dots
unfoldable pub collapse_dots : ℕ → List ℕ → List ℕ
collapse_dots n [] = flush n
collapse_dots n (c ∷ cs) =
    let more = collapse_dots (n + 1) cs in
    let rest = collapse_dots 0 cs in if nat_beq c 46 then more else flush n ++ c ∷ rest

unfoldable pub left_strip : (ℕ → Bool) → List ℕ → List ℕ
left_strip p [] = []
left_strip p (c ∷ cs) = if p c then left_strip p cs else c ∷ cs

abbrev pub is_empty : List ℕ → Bool
is_empty [] = true
is_empty (_ ∷ _) = false

unfoldable pub right_strip : (ℕ → Bool) → List ℕ → List ℕ
right_strip p [] = []
right_strip p (c ∷ cs) =
    let rest = right_strip p cs in if is_empty rest && p c then [] else c ∷ rest

unfoldable pub strip : (ℕ → Bool) → List ℕ → List ℕ
unfolding left_strip right_strip
strip p cs = right_strip p (left_strip p cs)

abbrev pub space_or_dot : ℕ → Bool
space_or_dot c = nat_beq c 32 || nat_beq c 46

-- `_DOTS_ONLY`, with the empty text
abbrev pub dots_only : List ℕ → Bool
dots_only [] = true
dots_only (c ∷ cs) = nat_beq c 46 && dots_only cs

-- What makes a text a safe path component: no illegal character, and not empty, `.` or `..`.
abbrev pub IsSafe : List ℕ → Type 0
IsSafe cs = All (λ c. illegal c ≡ false) cs × (dots_only cs ≡ false)

abbrev Legal : List ℕ → Type 0
Legal = All (λ c. illegal c ≡ false)

module _ (is_space is_word : ℕ → Bool) where
  -- `re.sub(r"\s+", " ", ...)`, inside a run or not
  unfoldable pub squeeze : Bool → List ℕ → List ℕ
  squeeze inside [] = []
  squeeze inside (c ∷ cs) =
      let more = squeeze true cs in
      let rest = squeeze false cs in
      if is_space c then (if inside then more else 32 ∷ more) else c ∷ rest

  unfoldable pub sanitize_filename : List ℕ → List ℕ → List ℕ
  unfolding neutralize collapse_dots strip squeeze
  sanitize_filename name fallback =
      let candidate =
        strip is_space (squeeze false (strip space_or_dot (collapse_dots 0 (neutralize name)))) in
      if dots_only candidate || not (any is_word candidate) then fallback else candidate

Legal-append : (xs ys : List ℕ) → Legal xs → Legal ys → Legal (xs ++ ys)
Legal-append [] ys h k = k
Legal-append (x ∷ xs) ys h k = (h.0, Legal-append xs ys h.1 k)

Legal-neutralize : (cs : List ℕ) → Legal (neutralize cs)
unfolding neutralize illegal
Legal-neutralize [] = tt
Legal-neutralize (c ∷ cs) = (ground arith, Legal-neutralize cs)

Legal-flush : (n : ℕ) → Legal (flush n)
unfolding illegal
Legal-flush zero = tt
Legal-flush (suc zero) = (refl, tt)
Legal-flush (suc (suc n)) = (refl, tt)

Legal-collapse_dots : (n : ℕ) (cs : List ℕ) → Legal cs → Legal (collapse_dots n cs)
unfolding collapse_dots
Legal-collapse_dots n [] h = Legal-flush n
Legal-collapse_dots n (c ∷ cs) h = elim (Bool-cases (nat_beq c 46)) [
  | inl e ↦ rw e (Legal-collapse_dots (n + 1) cs h.1)
  | inr e ↦ rw e (Legal-append (flush n) _ (Legal-flush n) (h.0, Legal-collapse_dots 0 cs h.1))
]

Legal-left_strip : (p : ℕ → Bool) (cs : List ℕ) → Legal cs → Legal (left_strip p cs)
unfolding left_strip
Legal-left_strip p [] h = tt
Legal-left_strip p (c ∷ cs) h = elim (Bool-cases (p c)) [
  | inl e ↦ rw e (Legal-left_strip p cs h.1)
  | inr e ↦ rw e h
]

Legal-right_strip : (p : ℕ → Bool) (cs : List ℕ) → Legal cs → Legal (right_strip p cs)
unfolding right_strip
Legal-right_strip p [] h = tt
Legal-right_strip p (c ∷ cs) h = elim (Bool-cases (is_empty (right_strip p cs) && p c)) [
  | inl e ↦ rw e tt
  | inr e ↦ rw e (h.0, Legal-right_strip p cs h.1)
]

Legal-strip : (p : ℕ → Bool) (cs : List ℕ) → Legal cs → Legal (strip p cs)
unfolding strip
Legal-strip p cs h = Legal-right_strip p (left_strip p cs) (Legal-left_strip p cs h)

module _ (is_space is_word : ℕ → Bool) where
  Legal-squeeze :
      (inside : Bool) (cs : List ℕ) → Legal cs → Legal (squeeze is_space is_word inside cs)
  unfolding squeeze illegal
  Legal-squeeze inside [] h = tt
  Legal-squeeze inside (c ∷ cs) h = elim (Bool-cases (is_space c)) [
    | inl e ↦ elim (Bool-cases inside) [
      | inl f ↦ rw (e, f) (Legal-squeeze true cs h.1)
      | inr f ↦ rw (e, f) (refl, Legal-squeeze true cs h.1)
    ]
    | inr e ↦ rw e (h.0, Legal-squeeze false cs h.1)
  ]

  -- The result is the fallback or a safe path component.
  pub sanitize_filename-cases :
      (name fallback : List ℕ)
      → (sanitize_filename is_space is_word name fallback ≡ fallback)
        ⊎ IsSafe (sanitize_filename is_space is_word name fallback)
  unfolding sanitize_filename
  sanitize_filename-cases name fallback =
      let a = collapse_dots 0 (neutralize name) in
      let b = squeeze is_space is_word false (strip space_or_dot a) in
      let c = strip is_space b in
      let legal : Legal c = Legal-strip is_space b (
        Legal-squeeze false (strip space_or_dot a) (
          Legal-strip space_or_dot a
            (Legal-collapse_dots 0 (neutralize name) (Legal-neutralize name)))) in
      elim (Bool-cases (dots_only c)) [
        | inl e ↦ inl (rw e refl)
        | inr e ↦ elim (Bool-cases (any is_word c)) [
          | inl f ↦ inr (rw (e, f) (legal, e))
          | inr f ↦ inl (rw (e, f) refl)
        ]
      ]

  -- Whatever the name is, and whatever counts as whitespace or as a word character: with a safe
  -- fallback the result is a safe path component. It has no separator or other illegal character,
  -- and it is not empty and does not consist of dots, so it cannot leave its directory.
  pub sanitize_filename-IsSafe :
      (name fallback : List ℕ)
      → IsSafe fallback
      → IsSafe (sanitize_filename is_space is_word name fallback)
  sanitize_filename-IsSafe name fallback safe = elim (sanitize_filename-cases name fallback) [
    | inl same ↦ rw same safe
    | inr it ↦ it
  ]
