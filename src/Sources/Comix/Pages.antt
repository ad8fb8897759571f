-- ===== src/Sources/Comix/Pages.antt =====
-- `fetch_image` of src/manga_gateway/sources/comix.py and the parsing of its headers, from the
-- response on. The methods of `str` and the split of a grid are parameters.
pub mod Understood
pub mod Handled
use mangarr_gateway.Prelude.{
  Bool, List, Option, [], false, if◌then◌else◌, keep, leb, length, ltb, min, nat_beq, negsuc, none,
  not, pos, some, true, ℕ, ℤ, ◌&&◌, ◌-◌, ◌^◌, ◌||◌, ◌∷◌,
}
use mangarr_gateway.Package.Text.{Text}
use mangarr_gateway.Sources.Comix.Cipher.{
  value_error, source_error, other, Result, ok, raised, decode_enc_prefix,
}
use mangarr_gateway.Sources.Comix.Jigsaw.{Measures}
use mangarr_gateway.Sources.Comix.Unscramble.{Pillow, unscramble_image}

-- `strip`, `isdecimal`, `int` and `re.split` on what is stripped and lower.
pub record Strings : Type 0 where
  pub strip : Text → Text
  pub is_decimal : Text → Bool
  pub int : Text → ℕ
  pub grid_parts : Text → List Text

pub record PageHeaders : Type 0 where
  pub enc_seed : Option Text
  pub enc_len : Option Text
  pub enc_algo : Option Text
  pub scramble_seed : Option Text
  pub scramble_grid : Option Text
  pub scramble_algo : Option Text

abbrev pub is_blank : Text → Bool
is_blank [] = true
is_blank (_ ∷ _) = false

-- "0"
abbrev pub is_zero : Text → Bool
is_zero [] = false
is_zero (c ∷ []) = nat_beq c 48
is_zero (c ∷ d ∷ _) = false

-- A SourceError in place of a ValueError.
abbrev pub as_source_error {ℓ} : {A : Type ℓ} → Result A → Result A
as_source_error (ok a) = ok a
as_source_error (raised (value_error m)) = raised (source_error m)
as_source_error (raised (source_error m)) = raised (source_error m)
as_source_error (raised (other m)) = raised (other m)

-- Each dimension within `_SCRAMBLE_GRID_MAX`, or the default grid.
unfoldable pub clamp_grid : ℕ → ℕ → ℕ × ℕ
clamp_grid cols rows =
    if nat_beq cols 0 || nat_beq rows 0 then (5, 5) else (min cols 64, min rows 64)

-- The byte cipher, under a seed, a stated length and an algorithm.
unfoldable pub decrypt_with : ℕ → ℕ → ℤ → List ℕ → Result (List ℕ)
unfolding decode_enc_prefix
decrypt_with seed stated algo bytes =
    let enc_len = min (if nat_beq stated 0 then 4096 else stated) 65536 in
    if nat_beq seed 0 then ok bytes else as_source_error (decode_enc_prefix bytes seed enc_len algo)

-- The tile scramble, under a seed, whether its header is plain, a grid and an algorithm.
unfoldable pub descramble_with :
    {P : Type 0} → Pillow (List ℕ) P → Measures P → ℕ → Bool → ℕ × ℕ → ℤ → List ℕ → Result (List ℕ)
unfolding unscramble_image
descramble_with pillow measures seed plain grid algo bytes =
    if nat_beq seed 0
    then (if plain then ok bytes else raised (source_error "invalid x-scramble-seed"))
    else as_source_error (unscramble_image pillow measures bytes seed grid.0 grid.1 algo)

module _ (str : Strings) where
  unfoldable pub enc_header_int : Option Text → ℕ
  enc_header_int none = 0
  enc_header_int (some raw) =
      let value = str.strip raw in
      if not (str.is_decimal value) || ltb 10 (length value)
      then 0
      else if ltb (2 ^ 32 - 1) (str.int value)
      then 0
      else str.int value

  unfoldable pub algo_header : Option Text → ℕ → ℤ
  algo_header none default = pos default
  algo_header (some raw) default =
      let value = str.strip raw in
      if is_blank value
      then pos default
      else if not (str.is_decimal value) || ltb 3 (length value)
      then negsuc 0
      else pos (str.int value)

  unfoldable pub grid_of_numbers : List Text → ℕ × ℕ
  unfolding clamp_grid
  grid_of_numbers [] = (5, 5)
  grid_of_numbers (c ∷ []) = clamp_grid (str.int c) (str.int c)
  grid_of_numbers (c ∷ r ∷ _) = clamp_grid (str.int c) (str.int r)

  unfoldable pub scramble_grid : Option Text → ℕ × ℕ
  unfolding grid_of_numbers
  scramble_grid none = (5, 5)
  scramble_grid (some raw) =
      grid_of_numbers (keep (λ p. str.is_decimal p && leb (length p) 3) (str.grid_parts raw))

  unfoldable pub decrypt_page : List ℕ → PageHeaders → Result (List ℕ)
  unfolding enc_header_int algo_header decrypt_with
  decrypt_page bytes headers =
      decrypt_with (enc_header_int headers.enc_seed) (enc_header_int headers.enc_len)
        (algo_header headers.enc_algo 1) bytes

  abbrev pub is_plain : Option Text → Bool
  is_plain none = true
  is_plain (some raw) = is_blank (str.strip raw) || is_zero (str.strip raw)

  module _ {P : Type 0} (pillow : Pillow (List ℕ) P) (measures : Measures P) where
    unfoldable pub descramble_page : List ℕ → PageHeaders → Result (List ℕ)
    unfolding enc_header_int algo_header scramble_grid descramble_with
    descramble_page bytes headers =
        descramble_with pillow measures (enc_header_int headers.scramble_seed)
          (is_plain headers.scramble_seed) (scramble_grid headers.scramble_grid)
          (algo_header headers.scramble_algo 1) bytes

    unfoldable pub fetch_image : List ℕ → PageHeaders → Result (List ℕ)
    unfolding decrypt_page descramble_page
    fetch_image bytes headers = elim (decrypt_page bytes headers) [
      | raised e ↦ raised e
      | ok decoded ↦ descramble_page decoded headers
    ]
