-- ===== src/Sources/Comix/Pages/Handled.antt =====
-- The outcomes of `fetch_image`.
use mangarr_gateway.Prelude.{
  Bool, Bool-cases, List, String, arith, false, if◌then◌else◌, inl, inr, length, min, nat_beq,
  negsuc, pos, refl, subst, suc, sym, true, zero, ℕ, ℤ, ◌∙◌, ◌≡◌, ◌≢◌, ◌⊎◌,
}
use mangarr_gateway.Sources.Comix.Cipher.{
  Raised, value_error, source_error, other, Result, ok, raised, Generator, enc_generator,
  xor_stream, decode_enc_prefix,
}
use mangarr_gateway.Sources.Comix.Scramble.{Image}
use mangarr_gateway.Sources.Comix.Jigsaw.{Measures}
use mangarr_gateway.Sources.Comix.Unscramble.{
  uncaught, save_value_error, save_error, Pillow, unscramble_image,
}
use mangarr_gateway.Sources.Comix.Unscramble.Shipped.{
  IsUnknown, IsRead, IsSaved, Ships, unscramble_image-Ships,
}
use mangarr_gateway.Sources.Comix.Pages.{
  Strings, PageHeaders, as_source_error, decrypt_with, descramble_with, enc_header_int, algo_header,
  scramble_grid, decrypt_page, is_plain, descramble_page, fetch_image,
}
use mangarr_gateway.Sources.Comix.Pages.Understood.{
  IsEncAlgo, IsScrambleAlgo, IsGrid, scramble_grid-IsGrid, fetch_image-understood,
}

enc_generator-cases :
    (seed : ℕ) (algo : ℤ)
    → ((g : Generator) × (enc_generator seed algo ≡ ok g))
      ⊎ ((m : String) × (enc_generator seed algo ≡ raised (value_error m))
          × ((algo ≢ pos 1) × (algo ≢ pos 2)))
unfolding enc_generator
enc_generator-cases seed (pos zero) = inr (_, refl, ((λ e. cc), (λ e. cc)))
enc_generator-cases seed (pos (suc zero)) = inl (_, refl)
enc_generator-cases seed (pos (suc (suc zero))) = inl (_, refl)
enc_generator-cases seed (pos (suc (suc (suc k)))) =
    inr (_, refl, ((λ e. ground arith), (λ e. ground arith)))
enc_generator-cases seed (negsuc k) = inr (_, refl, ((λ e. cc), (λ e. cc)))

decrypt_with-cases :
    (seed stated : ℕ) (algo : ℤ) (bytes : List ℕ)
    → ((decoded : List ℕ) × (decrypt_with seed stated algo bytes ≡ ok decoded))
      ⊎ ((m : String) × (decrypt_with seed stated algo bytes ≡ raised (source_error m))
          × ((seed ≢ 0) × (algo ≢ pos 1) × (algo ≢ pos 2)))
unfolding decrypt_with decode_enc_prefix
decrypt_with-cases seed stated algo bytes = elim (Bool-cases (nat_beq seed 0)) [
  | inl e ↦ inl (bytes, ground (arith, e))
  | inr e ↦ elim (enc_generator-cases seed algo) [
    | inl (g, f) ↦
        let enc_len = min (if nat_beq stated 0 then 4096 else stated) 65536 in
        inl
          (xor_stream g.step g.out g.start (min enc_len (length bytes)) bytes, ground (arith, e, f))
    | inr (m, f, unknown) ↦
        inr (m, ground (arith, e, f), ((λ z. ground (arith, e, z)), unknown.0, unknown.1))
  ]
]

module _ {P : Type 0} (pillow : Pillow (List ℕ) P) (measures : Measures P) where
  -- Why the descrambling failed, by what comes out of it.
  abbrev pub IsFailed : List ℕ → ℕ → ℕ × ℕ → ℤ → Raised → Type 0
  IsFailed bytes seed grid algo (value_error m) = ⊥
  IsFailed bytes seed grid algo (source_error m) =
      IsUnknown algo
      ⊎ (((out : Image P) × IsRead pillow measures bytes seed grid.0 grid.1 algo true out)
          ⊎ IsSaved pillow measures bytes seed grid.0 grid.1 algo (save_value_error m))
  IsFailed bytes seed grid algo (other m) =
      (pillow.open_image bytes ≡ uncaught m)
      ⊎ IsSaved pillow measures bytes seed grid.0 grid.1 algo (save_error m)

  as_source_error-cases :
      (bytes : List ℕ) (seed : ℕ) (grid : ℕ × ℕ) (algo : ℤ) (r : Result (List ℕ))
      → Ships pillow measures bytes seed grid.0 grid.1 algo r
      → ((image : List ℕ) × (as_source_error r ≡ ok image))
        ⊎ ((e : Raised) × (as_source_error r ≡ raised e) × IsFailed bytes seed grid algo e)
  as_source_error-cases bytes seed grid algo (ok image) s = inl (image, refl)
  as_source_error-cases bytes seed grid algo (raised (value_error m)) (inl unknown) =
      inr (source_error m, refl, inl unknown)
  as_source_error-cases bytes seed grid algo (raised (value_error m)) (inr end) =
      inr (source_error m, refl, inr (inr end))
  as_source_error-cases bytes seed grid algo (raised (source_error m)) lost =
      inr (source_error m, refl, inr (inl lost))
  as_source_error-cases bytes seed grid algo (raised (other m)) s = inr (other m, refl, s)

  -- Why the tile scramble was refused: a malformed seed, or the descrambling.
  abbrev pub IsRefused : ℕ → Bool → ℕ × ℕ → ℤ → List ℕ → Raised → Type 0
  IsRefused seed plain grid algo bytes e =
      ((e ≡ source_error "invalid x-scramble-seed") × (seed ≡ 0) × (plain ≡ false))
      ⊎ ((seed ≢ 0) × IsFailed bytes seed grid algo e)

  descramble_with-cases :
      (seed : ℕ) (plain : Bool) (grid : ℕ × ℕ) (algo : ℤ) (bytes : List ℕ)
      → IsGrid grid
      → ((image : List ℕ) × (descramble_with pillow measures seed plain grid algo bytes ≡ ok image))
        ⊎ ((e : Raised) × (descramble_with pillow measures seed plain grid algo bytes ≡ raised e)
            × IsRefused seed plain grid algo bytes e)
  unfolding descramble_with
  descramble_with-cases seed plain grid algo bytes d = elim (Bool-cases (nat_beq seed 0)) [
    | inl e ↦ elim (Bool-cases plain) [
      | inl f ↦ inl (bytes, ground (arith, e, f))
      | inr f ↦ inr (
        source_error "invalid x-scramble-seed",
        ground (arith, e, f),
        inl (refl, ground arith, f),
      )
    ]
    | inr e ↦
        let run = unscramble_image pillow measures bytes seed grid.0 grid.1 algo in
        let k : descramble_with pillow measures seed plain grid algo bytes ≡ as_source_error run =
          ground (arith, e) in
        let ships = unscramble_image-Ships pillow measures bytes seed grid.0 grid.1 algo d.0 d.2 in
        elim (as_source_error-cases bytes seed grid algo run ships) [
          | inl (image, f) ↦ inl (image, k ∙ f)
          | inr (x, f, why) ↦ inr (x, k ∙ f, inr ((λ z. ground (arith, e, z)), why))
        ]
  ]

  module _ (str : Strings) (headers : PageHeaders) where
    -- What the outcome says of the headers and the bytes.
    abbrev pub Handled : List ℕ → Result (List ℕ) → Type 0
    Handled bytes (ok image) =
        ((enc_header_int str headers.enc_seed ≡ 0) ⊎ IsEncAlgo (algo_header str headers.enc_algo 1))
        × (((enc_header_int str headers.scramble_seed ≡ 0)
              × (is_plain str headers.scramble_seed ≡ true))
            ⊎ IsScrambleAlgo (algo_header str headers.scramble_algo 1))
    Handled bytes (raised e) =
        (((m : String) × (e ≡ source_error m))
          × (enc_header_int str headers.enc_seed ≢ 0)
          × (algo_header str headers.enc_algo 1 ≢ pos 1)
          × (algo_header str headers.enc_algo 1 ≢ pos 2))
        ⊎ ((decoded : List ℕ) × (decrypt_page str bytes headers ≡ ok decoded)
            × IsRefused (enc_header_int str headers.scramble_seed)
                (is_plain str headers.scramble_seed) (scramble_grid str headers.scramble_grid)
                (algo_header str headers.scramble_algo 1) decoded e)

    fetch_image-raised :
        (bytes : List ℕ) (m : String)
        → decrypt_page str bytes headers ≡ raised (source_error m)
        → fetch_image str pillow measures bytes headers ≡ raised (source_error m)
    unfolding fetch_image
    fetch_image-raised bytes m e = ground (arith, e)

    fetch_image-decoded :
        (bytes decoded : List ℕ)
        → decrypt_page str bytes headers ≡ ok decoded
        → fetch_image str pillow measures bytes headers
          ≡ descramble_page str pillow measures decoded headers
    unfolding fetch_image
    fetch_image-decoded bytes decoded e = ground (arith, e)

    -- If a page is given, then the number of its cipher's seed header is 0 or the algorithm known,
    -- and so for its scramble, where a seed of 0 has to be an absent or blank header or "0". No
    -- ValueError comes out. A SourceError means an unknown cipher, a malformed scramble seed, an
    -- unknown scramble, or that the deciphered bytes are an image of which a rearrangement, by the
    -- seed or the search, is incoherent, or is coherent and its saving raised a ValueError. Another
    -- exception is one that the code does not catch, of opening the deciphered bytes or of saving a
    -- coherent rearrangement.
    pub fetch_image-Handled :
        (bytes : List ℕ) → Handled bytes (fetch_image str pillow measures bytes headers)
    unfolding decrypt_page descramble_page
    fetch_image-Handled bytes =
        let page = fetch_image str pillow measures bytes headers in
        elim (decrypt_with-cases (enc_header_int str headers.enc_seed)
          (enc_header_int str headers.enc_len) (algo_header str headers.enc_algo 1) bytes) [
            | inr (m, f, unknown) ↦
                subst (Handled bytes) (sym (fetch_image-raised bytes m f))
                  (inl ((m, refl), unknown.0, unknown.1, unknown.2))
            | inl (decoded, f) ↦
                elim (descramble_with-cases (enc_header_int str headers.scramble_seed)
                  (is_plain str headers.scramble_seed) (scramble_grid str headers.scramble_grid)
                  (algo_header str headers.scramble_algo 1) decoded
                  (scramble_grid-IsGrid str headers.scramble_grid)) [
                    | inl (image, g) ↦
                        let k : page ≡ ok image = fetch_image-decoded bytes decoded f ∙ g in
                        subst (Handled bytes) (sym k)
                          (fetch_image-understood pillow measures str bytes image headers k)
                    | inr (e, g, why) ↦
                        let k : page ≡ raised e = fetch_image-decoded bytes decoded f ∙ g in
                        subst (Handled bytes) (sym k) (inr (decoded, f, why))
                  ]
          ]
