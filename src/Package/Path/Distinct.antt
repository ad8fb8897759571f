-- ===== src/Package/Path/Distinct.antt =====
-- When two output paths are different.
use mangarr_gateway.Prelude.{
  All, Bool, Bool-cases, List, Option, [], any, ap, arith, false, inl, inr, length, length-append,
  ltb, none, refl, some, suc, sym, true, zero, ℕ, ◌*◌, ◌++◌, ◌+◌, ◌-◌, ◌/◌, ◌<◌, ◌∙◌, ◌∷◌, ◌≡◌, ◌≤◌,
}
use mangarr_gateway.Sanitize.{
  illegal, neutralize, collapse_dots, left_strip, right_strip, strip, squeeze, space_or_dot,
  sanitize_filename, dots_only,
}
use mangarr_gateway.Package.Text.{Text, digits, spell, decimal}
use mangarr_gateway.Package.Path.{
  manga_, unknown, untitled, Format, format_suffix, usable_id, output_folder, file_name, ℤ, pos,
}

-- The number that a decimal numeral stands for, after `n`.
read : ℕ → Text → ℕ
read n [] = n
read n (c ∷ s) = read (n * 10 + (c - 48)) s

front : List ℕ → ℕ
front [] = 0
front (d ∷ ds) = front ds * 10 + d

read-spell : (ds : List ℕ) (s : Text) → read 0 (spell ds s) ≡ read (front ds) s
unfolding read spell front
read-spell [] s = refl
read-spell (d ∷ ds) s =
    let code : 48 + d - 48 ≡ d = omega arith in
    read-spell ds ((48 + d) ∷ s) ∙ ap (λ x. read (front ds * 10 + x) s) code

front-digits : (f n : ℕ) → n < f → front (digits f n) ≡ n
unfolding front digits
front-digits zero n h = elim h [ ]
front-digits (suc f) n h = ground (arith, front-digits f (n / 10))

-- A decimal numeral is read back as its number.
read-decimal : (n : ℕ) → read 0 (decimal n) ≡ n
unfolding decimal read
read-decimal n = read-spell (digits (suc n) n) [] ∙ front-digits (suc n) n (omega arith)

abbrev IsDigit : ℕ → Type 0
IsDigit c = (48 ≤ c) × (c ≤ 57)

spell-Digits :
    (ds : List ℕ) (s : Text) → All (λ d. d < 10) ds → All IsDigit s → All IsDigit (spell ds s)
unfolding spell
spell-Digits [] s h k = k
spell-Digits (d ∷ ds) s h k =
    spell-Digits ds ((48 + d) ∷ s) h.1 ((omega arith, omega (arith, h.0)), k)

digits-lt : (f n : ℕ) → All (λ d. d < 10) (digits f n)
unfolding digits
digits-lt zero n = tt
digits-lt (suc f) n = elim (Bool-cases (ltb n 10)) [
  | inl e ↦ rw e (ground arith, tt)
  | inr e ↦ rw e (omega arith, digits-lt f (n / 10))
]

-- A text of digits is left as it is.
neutralize-digits : (s : Text) → All IsDigit s → neutralize s ≡ s
unfolding neutralize illegal
neutralize-digits [] h = refl
neutralize-digits (c ∷ s) h = ground (arith, neutralize-digits s h.1, h.0)

collapse_dots-digits : (s : Text) → All IsDigit s → collapse_dots 0 s ≡ s
unfolding collapse_dots
collapse_dots-digits [] h = refl
collapse_dots-digits (c ∷ s) h = ground (arith, collapse_dots-digits s h.1, h.0)

module _ (p : ℕ → Bool) (never : (c : ℕ) → IsDigit c → p c ≡ false) where
  left_strip-digits : (s : Text) → All IsDigit s → left_strip p s ≡ s
  unfolding left_strip
  left_strip-digits [] h = refl
  left_strip-digits (c ∷ s) h = rw (never c h.0) refl

  right_strip-digits : (s : Text) → All IsDigit s → right_strip p s ≡ s
  unfolding right_strip
  right_strip-digits [] h = refl
  right_strip-digits (c ∷ s) h = ground (arith, never c h.0, right_strip-digits s h.1)

  strip-digits : (s : Text) → All IsDigit s → strip p s ≡ s
  unfolding strip
  strip-digits s h = rw (left_strip-digits s h) (right_strip-digits s h)

  squeeze-digits : (is_word : ℕ → Bool) (s : Text) → All IsDigit s → squeeze p is_word false s ≡ s
  unfolding squeeze
  squeeze-digits is_word [] h = refl
  squeeze-digits is_word (c ∷ s) h = ground (arith, never c h.0, squeeze-digits is_word s h.1)

module _ (is_space is_word : ℕ → Bool) (spaces : (c : ℕ) → IsDigit c → is_space c ≡ false)
    (words : (c : ℕ) → IsDigit c → is_word c ≡ true) where
  sanitize_filename-digits :
      (t fallback : Text)
      → All IsDigit t
      → dots_only t ≡ false
      → any is_word t ≡ true
      → sanitize_filename is_space is_word t fallback ≡ t
  unfolding sanitize_filename
  sanitize_filename-digits t fallback h other word =
      rw
        (
          neutralize-digits t h,
          collapse_dots-digits t h,
          strip-digits space_or_dot (λ d q. ground (arith, q)) t h,
          squeeze-digits is_space spaces is_word t h,
          strip-digits is_space spaces t h,
          other,
          word,
        )
        refl

  output_folder-id :
      (n : ℕ) (manga_title : Option Text)
      → output_folder is_space is_word (some (pos (suc n))) manga_title ≡ manga_ ++ decimal (suc n)
  unfolding output_folder read
  output_folder-id n manga_title = ap (◌++◌ manga_) (
      nonempty (decimal (suc n)) (read-decimal (suc n))
        (spell-Digits (digits (suc (suc n)) (suc n)) [] (digits-lt (suc (suc n)) (suc n)) tt))
    where
      nonempty :
          (s : Text)
          → read 0 s ≡ suc n
          → All IsDigit s
          → sanitize_filename is_space is_word s unknown ≡ s
      nonempty [] q h = absurd (omega (arith, q))
      nonempty (c ∷ s) q h =
          sanitize_filename-digits (c ∷ s) unknown h (ground (arith, h.0))
            (ground (arith, words c h.0))

  -- Where digits count as word characters and not as whitespace, the folders of two positive ids are
  -- different, whatever the titles are.
  pub output_folder-injective :
      (a b : ℕ) (s t : Option Text)
      → output_folder is_space is_word (some (pos (suc a))) s
        ≡ output_folder is_space is_word (some (pos (suc b))) t
      → a ≡ b
  output_folder-injective a b s t same =
      let folders : manga_ ++ decimal (suc a) ≡ manga_ ++ decimal (suc b) =
        sym (output_folder-id a s) ∙ same ∙ output_folder-id b t in
      let numerals : decimal (suc a) ≡ decimal (suc b) = cc in
      omega (arith, sym (read-decimal (suc a)) ∙ ap (read 0) numerals ∙ read-decimal (suc b))

append-left : (s t u v : Text) → length s ≡ length t → s ++ u ≡ t ++ v → s ≡ t
append-left [] [] u v l e = refl
append-left [] (d ∷ t) u v l e = absurd (omega (arith, l))
append-left (c ∷ s) [] u v l e = absurd (omega (arith, l))
append-left (c ∷ s) (d ∷ t) u v l e =
    let rest : s ≡ t = append-left s t u v (omega (arith, l)) (cc) in cc

append-right : (s t u v : Text) → length u ≡ length v → s ++ u ≡ t ++ v → u ≡ v
append-right [] [] u v l e = e
append-right [] (d ∷ t) u v l e = absurd (omega (arith, l, ap length e, length-append t v))
append-right (c ∷ s) [] u v l e = absurd (omega (arith, l, ap length e, length-append s u))
append-right (c ∷ s) (d ∷ t) u v l e = append-right s t u v l (cc)

module _ (is_space is_word : ℕ → Bool) (digest : Text → Text) where
  -- Two chapters without a usable id, under discriminators whose digests are different and of one
  -- length, have different file names, whatever their titles are.
  pub file_name-digest :
      (i j : Option ℤ) (s t : Text) (fmt : Format) (c d : ℕ) (cs ds : Text)
      → usable_id i ≡ none
      → usable_id j ≡ none
      → length (digest (c ∷ cs)) ≡ length (digest (d ∷ ds))
      → file_name is_space is_word digest i s fmt (some (c ∷ cs))
        ≡ file_name is_space is_word digest j t fmt (some (d ∷ ds))
      → digest (c ∷ cs) ≡ digest (d ∷ ds)
  unfolding file_name
  file_name-digest i j s t fmt c d cs ds p q l e =
      let x = digest (c ∷ cs) in
      let y = digest (d ∷ ds) in
      let suffix = format_suffix fmt in
      let left : file_name is_space is_word digest i s fmt (some (c ∷ cs))
          ≡ sanitize_filename is_space is_word s untitled ++ 45 ∷ (x ++ suffix) =
        rw (file_name, p) refl in
      let right : file_name is_space is_word digest j t fmt (some (d ∷ ds))
          ≡ sanitize_filename is_space is_word t untitled ++ 45 ∷ (y ++ suffix) =
        rw (file_name, q) refl in
      let tails =
        append-right _ _ (45 ∷ (x ++ suffix)) (45 ∷ (y ++ suffix))
          (omega (arith, l, length-append x suffix, length-append y suffix))
          (sym left ∙ e ∙ right) in
      append-left x y suffix suffix l (cc tails)
