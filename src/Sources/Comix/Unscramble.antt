-- ===== src/Sources/Comix/Unscramble.antt =====
-- `_unscramble_image` of src/manga_gateway/sources/comix.py. Decoding and encoding by Pillow, with
-- what they raise, and the measures of numpy are parameters. A seam is in thousandths.
pub mod Shipped
use mangarr_gateway.Prelude.{
  Bool, Option, String, false, if◌then◌else◌, leb, ltb, nat_beq, none, some, ℕ, ℤ, ◌&&◌, ◌*◌, ◌||◌,
}
use mangarr_gateway.Sources.Comix.Cipher.{value_error, source_error, other, Result, ok, raised}
use mangarr_gateway.Sources.Comix.Scramble.{scramble_permutation, Image, grid_of, unpermute}
use mangarr_gateway.Sources.Comix.Jigsaw.{Measures, jigsaw_reassemble}

-- How `Image.open` with its conversion ends: with an image, with an UnidentifiedImageError, an OSError
-- or a ValueError, which the code catches, or with another exception, as a DecompressionBombError.
pub data Opened (P : Type 0) : Type 0 where
  opened : Image P → Opened P
  caught : Opened P
  uncaught : String → Opened P

-- How `save` as lossless WEBP ends: with the bytes, with a ValueError, or with another exception, as an
-- OSError.
pub data Saved (B : Type 0) : Type 0 where
  saved : B → Saved B
  save_value_error : String → Saved B
  save_error : String → Saved B

pub record Pillow (B P : Type 0) : Type 0 where
  pub open_image : B → Opened P
  pub save : Image P → Saved B

-- What leaves the function.
abbrev pub saved_as : {B : Type 0} → Saved B → Result B
saved_as (saved b) = ok b
saved_as (save_value_error m) = raised (value_error m)
saved_as (save_error m) = raised (other m)

-- `_SEAM_COHERENT`, which `_SHIP_SEAM_MAX` is too, `_JIGSAW_MARGIN` and `_JIGSAW_MAX_TILES`.
abbrev pub seam_coherent : ℕ
seam_coherent = 20000

abbrev pub jigsaw_max_tiles : ℕ
jigsaw_max_tiles = 64

-- `jig_seam < _SEAM_COHERENT and jig_seam < seed_seam * _JIGSAW_MARGIN`
unfoldable pub adopts : Option ℕ → Option ℕ → Bool
adopts none seed_seam = false
adopts (some j) none = ltb j seam_coherent
adopts (some j) (some s) = ltb j seam_coherent && ltb (100 * j) (45 * s)

abbrev pub is_incoherent : Option ℕ → Bool
is_incoherent none = false
is_incoherent (some seam) = leb seam_coherent seam

module _ {B P : Type 0} (pillow : Pillow B P) (measures : Measures P) where
  -- The image to ship and its seam, after the seed and what the jigsaw has found.
  unfoldable pub choose : ℕ → ℕ → Image P → Option (Image P × ℕ) → Image P × Option ℕ
  unfolding adopts
  choose cols rows out none = (out, measures.grid_seam out cols rows)
  choose cols rows out (some (jig, s)) =
      let seed_seam = measures.grid_seam out cols rows in
      let jig_seam = measures.grid_seam jig cols rows in
      if adopts jig_seam seed_seam then (jig, jig_seam) else (out, seed_seam)

  -- The search, for a bounded grid.
  unfoldable pub try_jigsaw : Image P → ℕ → ℕ → Result (Option (Image P × ℕ))
  unfolding jigsaw_reassemble
  try_jigsaw img cols rows =
      if leb (cols * rows) jigsaw_max_tiles
      then jigsaw_reassemble measures img cols rows
      else ok none

  unfoldable pub ship : Image P × Option ℕ → Result B
  ship (out, seam) =
      if is_incoherent seam
      then raised (source_error "comix page still scrambled after seed+jigsaw descramble")
      else saved_as (pillow.save out)

  -- With at least one column and one row, as `_scramble_grid` gives them.
  unfoldable pub unscramble_image : B → ℕ → ℕ → ℕ → ℤ → Result B
  unfolding scramble_permutation grid_of unpermute try_jigsaw choose ship
  unscramble_image content seed cols rows algo =
      elim (scramble_permutation seed (cols * rows) algo) [
        | raised e ↦ raised e
        | ok perm ↦ elim (pillow.open_image content) [
          | caught ↦ ok content
          | uncaught m ↦ raised (other m)
          | opened img ↦
              let g = grid_of cols rows img in
              if nat_beq g.tile_w 0 || nat_beq g.tile_h 0
              then ok content
              else elim (try_jigsaw img cols rows) [
                | raised e ↦ raised e
                | ok found ↦ ship (choose cols rows (unpermute g perm img (cols * rows)) found)
              ]
        ]
      ]
