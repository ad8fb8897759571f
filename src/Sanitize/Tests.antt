-- ===== src/Sanitize/Tests.antt =====
-- A traversal and a name with a slash.
use mangarr_gateway.Prelude.{Bool, List, [], leb, nat_beq, refl, ℕ, ◌&&◌, ◌∷◌, ◌≡◌}
use mangarr_gateway.Sanitize.{
  illegal, neutralize, collapse_dots, left_strip, right_strip, strip, squeeze, sanitize_filename,
}

abbrev is_space : ℕ → Bool
is_space c = nat_beq c 32

abbrev is_word : ℕ → Bool
is_word c = leb 97 c && leb c 122

-- "untitled"
abbrev untitled : List ℕ
untitled = 117 ∷ 110 ∷ 116 ∷ 105 ∷ 116 ∷ 108 ∷ 101 ∷ 100 ∷ []

-- It becomes "__etc".
traversal :
    sanitize_filename is_space is_word (46 ∷ 46 ∷ 47 ∷ 101 ∷ 116 ∷ 99 ∷ []) untitled
    ≡ 95 ∷ 95 ∷ 101 ∷ 116 ∷ 99 ∷ []
unfolding sanitize_filename neutralize illegal collapse_dots strip left_strip right_strip squeeze
traversal = refl
