-- ===== src/Sources/Comix/Pages/Understood.antt =====
-- The algorithms of a page that `fetch_image` gives.
use mangarr_gateway.Prelude.{
  Bool, Bool-cases, List, Option, [], arith, if◌then◌else◌, inl, inr, keep, leb, length, min,
  nat_beq, negsuc, none, pos, refl, some, suc, true, zero, ℕ, ℤ, ◌&&◌, ◌∷◌, ◌≡◌, ◌≤◌, ◌⊎◌,
}
use mangarr_gateway.Package.Text.{Text}
use mangarr_gateway.Sources.Comix.Cipher.{
  value_error, source_error, other, Result, ok, raised, Result-cases, Generator, enc_generator,
  decode_enc_prefix,
}
use mangarr_gateway.Sources.Comix.Scramble.{scramble_generator, scramble_permutation}
use mangarr_gateway.Sources.Comix.Pages.{
  Strings, PageHeaders, as_source_error, clamp_grid, decrypt_with, descramble_with, enc_header_int,
  algo_header, grid_of_numbers, scramble_grid, decrypt_page, is_plain, descramble_page, fetch_image,
}
use mangarr_gateway.Sources.Comix.Jigsaw.{Measures}
use mangarr_gateway.Sources.Comix.Unscramble.{Pillow, unscramble_image}

abbrev pub IsEncAlgo : ℤ → Type 0
IsEncAlgo algo = (algo ≡ pos 1) ⊎ (algo ≡ pos 2)

abbrev pub IsScrambleAlgo : ℤ → Type 0
IsScrambleAlgo algo = (algo ≡ pos 1) ⊎ (algo ≡ pos 2) ⊎ (algo ≡ pos 3)

enc_generator-IsEncAlgo :
    (seed : ℕ) (algo : ℤ) (g : Generator) → enc_generator seed algo ≡ ok g → IsEncAlgo algo
unfolding enc_generator
enc_generator-IsEncAlgo seed (pos zero) g h = absurd (ground arith)
enc_generator-IsEncAlgo seed (pos (suc zero)) g h = inl refl
enc_generator-IsEncAlgo seed (pos (suc (suc zero))) g h = inr refl
enc_generator-IsEncAlgo seed (pos (suc (suc (suc n)))) g h = absurd (ground arith)
enc_generator-IsEncAlgo seed (negsuc n) g h = absurd (ground arith)

scramble_generator-IsScrambleAlgo :
    (seed : ℕ) (algo : ℤ) (g : Generator)
    → scramble_generator seed algo ≡ ok g
    → IsScrambleAlgo algo
unfolding scramble_generator
scramble_generator-IsScrambleAlgo seed (pos zero) g h = absurd (ground arith)
scramble_generator-IsScrambleAlgo seed (pos (suc zero)) g h = inl refl
scramble_generator-IsScrambleAlgo seed (pos (suc (suc zero))) g h = inr (inl refl)
scramble_generator-IsScrambleAlgo seed (pos (suc (suc (suc zero)))) g h = inr (inr refl)
scramble_generator-IsScrambleAlgo seed (pos (suc (suc (suc (suc n))))) g h = absurd (ground arith)
scramble_generator-IsScrambleAlgo seed (negsuc n) g h = absurd (ground arith)

as_source_error-ok :
    (r : Result (List ℕ)) (bytes : List ℕ) → as_source_error r ≡ ok bytes → r ≡ ok bytes
as_source_error-ok (ok b) bytes h = h
as_source_error-ok (raised (value_error m)) bytes h = absurd (ground arith)
as_source_error-ok (raised (source_error m)) bytes h = absurd (ground arith)
as_source_error-ok (raised (other m)) bytes h = absurd (ground arith)

decode-IsEncAlgo :
    (bytes decoded : List ℕ) (seed enc_len : ℕ) (algo : ℤ)
    → decode_enc_prefix bytes seed enc_len algo ≡ ok decoded
    → (seed ≡ 0) ⊎ IsEncAlgo algo
unfolding decode_enc_prefix
decode-IsEncAlgo bytes decoded seed enc_len algo h = elim (Bool-cases (nat_beq seed 0)) [
  | inl e ↦ inl (ground arith)
  | inr e ↦ elim (Result-cases (enc_generator seed algo)) [
    | inl (g, f) ↦ inr (enc_generator-IsEncAlgo seed algo g f)
    | inr (m, f) ↦ absurd (ground (arith, e, f))
  ]
]

abbrev pub IsGrid : ℕ × ℕ → Type 0
IsGrid grid = (1 ≤ grid.0) × (grid.0 ≤ 64) × (1 ≤ grid.1) × (grid.1 ≤ 64)

clamp_grid-IsGrid : (c r : ℕ) → IsGrid (clamp_grid c r)
unfolding clamp_grid
clamp_grid-IsGrid c r = ground arith

grid_of_numbers-IsGrid : (str : Strings) (parts : List Text) → IsGrid (grid_of_numbers str parts)
unfolding grid_of_numbers
grid_of_numbers-IsGrid str [] = omega arith
grid_of_numbers-IsGrid str (c ∷ []) = clamp_grid-IsGrid (str.int c) (str.int c)
grid_of_numbers-IsGrid str (c ∷ r ∷ _) = clamp_grid-IsGrid (str.int c) (str.int r)

-- The grid is bounded, whatever the header says.
pub scramble_grid-IsGrid : (str : Strings) (raw : Option Text) → IsGrid (scramble_grid str raw)
unfolding scramble_grid
scramble_grid-IsGrid str none = omega arith
scramble_grid-IsGrid str (some raw) =
    grid_of_numbers-IsGrid str
      (keep (λ p. str.is_decimal p && leb (length p) 3) (str.grid_parts raw))

decrypt_with-understood :
    (seed stated : ℕ) (algo : ℤ) (bytes decoded : List ℕ)
    → decrypt_with seed stated algo bytes ≡ ok decoded
    → (seed ≡ 0) ⊎ IsEncAlgo algo
unfolding decrypt_with
decrypt_with-understood seed stated algo bytes decoded h = elim (Bool-cases (nat_beq seed 0)) [
  | inl e ↦ inl (ground arith)
  | inr e ↦
      let enc_len = min (if nat_beq stated 0 then 4096 else stated) 65536 in
      let r = decode_enc_prefix bytes seed enc_len algo in
      let k : as_source_error r ≡ ok decoded = ground (arith, e) in
      decode-IsEncAlgo bytes decoded seed enc_len algo (as_source_error-ok r decoded k)
]

module _ {P : Type 0} (pillow : Pillow (List ℕ) P) (measures : Measures P) where
  unscramble_image-IsScrambleAlgo :
      (bytes shipped : List ℕ) (seed cols rows : ℕ) (algo : ℤ)
      → unscramble_image pillow measures bytes seed cols rows algo ≡ ok shipped
      → IsScrambleAlgo algo
  unfolding unscramble_image scramble_permutation
  unscramble_image-IsScrambleAlgo bytes shipped seed cols rows algo h =
      elim (Result-cases (scramble_generator seed algo)) [
        | inl (g, f) ↦ scramble_generator-IsScrambleAlgo seed algo g f
        | inr (m, f) ↦ absurd (ground (arith, f))
      ]

  descramble_with-understood :
      (seed : ℕ) (plain : Bool) (grid : ℕ × ℕ) (algo : ℤ) (bytes image : List ℕ)
      → descramble_with pillow measures seed plain grid algo bytes ≡ ok image
      → ((seed ≡ 0) × (plain ≡ true)) ⊎ IsScrambleAlgo algo
  unfolding descramble_with
  descramble_with-understood seed plain grid algo bytes image h =
      elim (Bool-cases (nat_beq seed 0)) [
        | inl e ↦ elim (Bool-cases plain) [
          | inl f ↦ inl (ground arith, f)
          | inr f ↦ absurd (ground (arith, e, f))
        ]
        | inr e ↦
            let r = unscramble_image pillow measures bytes seed grid.0 grid.1 algo in
            let k : as_source_error r ≡ ok image = rw e at h in
            inr (
              unscramble_image-IsScrambleAlgo bytes image seed grid.0 grid.1 algo
                (as_source_error-ok r image k))
      ]

  -- If a page is given, then its byte cipher was known or the number of its seed header 0, and its
  -- tile scramble was known or its seed header absent, blank or "0".
  pub fetch_image-understood :
      (str : Strings) (bytes image : List ℕ) (headers : PageHeaders)
      → fetch_image str pillow measures bytes headers ≡ ok image
      → ((enc_header_int str headers.enc_seed ≡ 0) ⊎ IsEncAlgo (algo_header str headers.enc_algo 1))
        × (((enc_header_int str headers.scramble_seed ≡ 0)
              × (is_plain str headers.scramble_seed ≡ true))
            ⊎ IsScrambleAlgo (algo_header str headers.scramble_algo 1))
  unfolding fetch_image decrypt_page descramble_page
  fetch_image-understood str bytes image headers h =
      elim (Result-cases (decrypt_page str bytes headers)) [
        | inr (e, f) ↦ absurd (ground (arith, f))
        | inl (decoded, f) ↦
            let k : descramble_page str pillow measures decoded headers ≡ ok image =
              ground (arith, f) in
            (
              decrypt_with-understood _ (enc_header_int str headers.enc_len) _ bytes decoded f,
              descramble_with-understood _ _ (scramble_grid str headers.scramble_grid) _ decoded
                  image k,
            )
      ]
