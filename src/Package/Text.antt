-- ===== src/Package/Text.antt =====
-- Texts as lists of code points: equality, prefixes, suffixes and decimal numerals.
use mangarr_gateway.Prelude.{
  Bool, List, Option, [], arith, false, if◌then◌else◌, length, ltb, nat_beq, nat_beq_iff, none,
  refl, some, suc, true, zero, ℕ, ◌%◌, ◌&&◌, ◌++◌, ◌+◌, ◌-◌, ◌/◌, ◌||◌, ◌↔◌, ◌∷◌, ◌≡◌,
}

abbrev pub Text : Type 0
Text = List ℕ

unfoldable pub text_beq : Text → Text → Bool
text_beq [] [] = true
text_beq [] (b ∷ bs) = false
text_beq (a ∷ as') [] = false
text_beq (a ∷ as') (b ∷ bs) = nat_beq a b && text_beq as' bs

pub text_beq_iff : (a b : Text) → (text_beq a b ≡ true) ↔ (a ≡ b)
unfolding text_beq
text_beq_iff [] [] = ground arith
text_beq_iff [] (b ∷ bs) = ground arith
text_beq_iff (a ∷ as') [] = ground arith
text_beq_iff (a ∷ as') (b ∷ bs) = ground (arith, text_beq_iff as' bs, nat_beq_iff a b)

-- `str.startswith`, and what is left after the prefix
unfoldable pub after_prefix : Text → Text → Option Text
after_prefix [] s = some s
after_prefix (p ∷ ps) [] = none
after_prefix (p ∷ ps) (c ∷ s) = if nat_beq p c then after_prefix ps s else none

-- `str.endswith`
unfoldable pub ends_with : Text → Text → Bool
unfolding text_beq
ends_with suffix [] = text_beq [] suffix
ends_with suffix (c ∷ s) = text_beq (c ∷ s) suffix || ends_with suffix s

-- Two texts of the same length with which the same text starts are equal.
pub after_prefix_unique :
    (p q s : Text) (c : ℕ) (r t : Text)
    → length p ≡ length q
    → after_prefix (p ++ c ∷ []) s ≡ some r
    → s ≡ q ++ t
    → p ≡ q
unfolding after_prefix
after_prefix_unique [] [] s c r t l h e = refl
after_prefix_unique [] (b ∷ q) s c r t l h e = absurd (omega (arith, l))
after_prefix_unique (a ∷ p) [] s c r t l h e = absurd (omega (arith, l))
after_prefix_unique (a ∷ p) (b ∷ q) [] c r t l h e = cc
after_prefix_unique (a ∷ p) (b ∷ q) (d ∷ s) c r t l h e =
    ground (arith, after_prefix_unique p q s c r t, nat_beq_iff a d)

-- Texts in the order of their code points.
unfoldable pub text_lt : Text → Text → Bool
text_lt [] [] = false
text_lt [] (b ∷ bs) = true
text_lt (a ∷ as') [] = false
text_lt (a ∷ as') (b ∷ bs) = ltb a b || nat_beq a b && text_lt as' bs

-- The digits of `str(n)`, the last in front.
unfoldable pub digits : ℕ → ℕ → List ℕ
digits zero n = []
digits (suc f) n = let rest = digits f (n / 10) in if ltb n 10 then n ∷ [] else (n % 10) ∷ rest

-- The digits, the last in front, written before a text.
unfoldable pub spell : List ℕ → Text → Text
spell [] s = s
spell (d ∷ ds) s = spell ds ((48 + d) ∷ s)

unfoldable pub zeros : ℕ → List ℕ
zeros zero = []
zeros (suc n) = 0 ∷ zeros n

-- `f"{n:0{width}d}"`
unfoldable pub padded : ℕ → ℕ → List ℕ
unfolding digits zeros
padded width n = digits (suc n) n ++ zeros (width - length (digits (suc n) n))

-- `str(n)`
unfoldable pub decimal : ℕ → Text
unfolding spell digits
decimal n = spell (digits (suc n) n) []
