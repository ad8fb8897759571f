-- ===== src/Sources/Comix/Tests.antt =====
-- Concrete inputs for the theorems on the comix source.
use mangarr_gateway.Prelude.{
  Bool, List, Option, [], any, arith, keep, length, ltb, map, none, not, pos, refl, some, suc, true,
  zero, ℕ, ◌&&◌, ◌+◌, ◌-◌, ◌||◌, ◌∷◌, ◌≡◌,
}
use mangarr_gateway.Sources.Comix.Cipher
use mangarr_gateway.Sources.Comix.Scramble.{
  scramble_lcg_step, shuffle, scramble_permutation, Image, grid_of, unpermute,
}
use mangarr_gateway.Sources.Comix.Pages.Handled.{Handled, fetch_image-Handled}
use mangarr_gateway.Sources.Comix.Scramble.Restored.{IsScrambled, unpermute_restored}
use mangarr_gateway.Sources.Comix.Jigsaw.{Measures}
use mangarr_gateway.Sources.Comix.Unscramble.{opened, saved, Pillow, unscramble_image}
use mangarr_gateway.Sources.Comix.Unscramble.Shipped.{Ships, unscramble_image-Ships}
use mangarr_gateway.Package.Text.{Text}
use mangarr_gateway.Sources.Comix.Pages.{Strings, PageHeaders, is_blank, fetch_image}
use mangarr_gateway.Sources.Comix.Deferred.{ChapterRow, resolve_deferred}
use mangarr_gateway.Sources.Comix.Deferred.Picked.{IsOrder, Resolves, resolve_deferred-Resolves}

-- The first two of three bytes are enciphered.
abbrev plain : List ℕ
plain = 82 ∷ 73 ∷ 70 ∷ []

abbrev ciphered : List ℕ
ciphered = 247 ∷ 76 ∷ 70 ∷ []

-- Two tiles of one pixel each.
abbrev page : Image ℕ
page = record { width = 2; height = 1; pixel = λ x y. x + 5 }

abbrev flipped : Image ℕ
flipped = record { width = 2; height = 1; pixel = λ x y. 1 - x + 5 }

abbrev drawn : ℕ → ℕ
drawn = shuffle scramble_lcg_step 1 3 (λ i. i)

flipped-IsScrambled : IsScrambled (grid_of 2 1 flipped) drawn 2 page flipped
unfolding shuffle scramble_lcg_step grid_of
flipped-IsScrambled zero zero zero a b c = refl
flipped-IsScrambled (suc zero) zero zero a b c = refl
flipped-IsScrambled (suc (suc i)) u v a b c = absurd (let f : ⊥ = omega arith in f)
flipped-IsScrambled i (suc u) v a b c = absurd (let f : ⊥ = omega arith in f)
flipped-IsScrambled i u (suc v) a b c = absurd (let f : ⊥ = omega arith in f)

drawn_lem : scramble_permutation 3 2 (pos 1) ≡ Cipher.ok drawn
unfolding scramble_permutation
drawn_lem = refl

unpermute_restored_example : (unpermute (grid_of 2 1 flipped) drawn flipped 2).pixel 1 0 ≡ 6
unfolding grid_of
unpermute_restored_example =
    unpermute_restored 2 1 3 (pos 1) drawn page flipped 1 0 0 drawn_lem flipped-IsScrambled
      (omega arith) (omega arith) (omega arith)

-- The bytes of an image are its two pixels, and a seam their distance.
abbrev pillow : Pillow (List ℕ) ℕ
pillow = record {
  open_image = λ b. opened flipped;
  save = λ img. saved (img.pixel 0 0 ∷ img.pixel 1 0 ∷ []);
}

abbrev measures : Measures ℕ
measures = record {
  grid_seam = λ img cols rows. some (img.pixel 0 0 - img.pixel 1 0);
  lr = λ g img a b. a - b;
  tb = λ g img a b. 0;
}

unscramble_image-Ships_example :
    Ships pillow measures plain 3 2 1 (pos 1) (unscramble_image pillow measures plain 3 2 1 (pos 1))
unscramble_image-Ships_example =
    unscramble_image-Ships pillow measures plain 3 2 1 (pos 1) (omega arith) (omega arith)

abbrev shown : List ℕ
shown = 5 ∷ 6 ∷ []

-- Digits are code points from 48 on, and the numbers of a grid are digits.
abbrev strings : Strings
strings = record {
  strip = λ t. t;
  is_decimal = λ t. not (is_blank t) && not (any (λ c. ltb c 48 || ltb 57 c) t);
  int = λ t. elim t [ [] ↦ 0 | c ∷ cs ↦ c - 48 ];
  grid_parts = map (λ c. c ∷ []);
}

abbrev headers : PageHeaders
headers = record {
  enc_seed = some (53 ∷ []);
  enc_len = some (50 ∷ []);
  enc_algo = some (50 ∷ []);
  scramble_seed = some (51 ∷ []);
  scramble_grid = some (50 ∷ 49 ∷ []);
  scramble_algo = none;
}

fetch_image-Handled_example :
    Handled pillow measures strings headers ciphered
      (fetch_image strings pillow measures ciphered headers)
fetch_image-Handled_example = fetch_image-Handled pillow measures strings headers ciphered

-- The page is deciphered and its tiles are moved back.
fetched : fetch_image strings pillow measures ciphered headers ≡ Cipher.ok shown
unfolding fetch_image keep
fetched = refl

abbrev numeric_id : Text
numeric_id = 57 ∷ 49 ∷ []

abbrev slug : Text
slug = 97 ∷ 45 ∷ 98 ∷ []

-- Ids are ordered by their lengths.
abbrev id_size : Option Text → ℕ
id_size none = 0
id_size (some t) = length t

abbrev id_lt : Option Text → Option Text → Bool
id_lt a b = ltb (id_size a) (id_size b)

id_lt-IsOrder : IsOrder id_lt
id_lt-IsOrder = record {
  irreflexive = λ a. ground arith;
  transitive = λ a b c h k. ground (arith, h, k);
}

abbrev row : Option ℕ → ChapterRow
row relative = record {
  id = some numeric_id;
  chapter = slug;
  relative = relative;
  has_groups = true;
}

abbrev rows : List ChapterRow
rows = row none ∷ row (some 60) ∷ []

resolve_deferred-Resolves_example :
    Resolves id_lt (λ t. some 2) slug rows (resolve_deferred id_lt (λ t. some 2) slug rows)
resolve_deferred-Resolves_example =
    resolve_deferred-Resolves id_lt (λ t. some 2) slug rows id_lt-IsOrder
