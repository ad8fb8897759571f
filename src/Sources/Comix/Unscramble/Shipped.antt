-- ===== src/Sources/Comix/Unscramble/Shipped.antt =====
-- What is shipped for a scrambled page.
use mangarr_gateway.Prelude.{
  Bool, Bool-cases, List, Option, String, arith, false, inl, inr, leb, nat_beq, negsuc, none, pos,
  refl, some, subst, suc, sym, true, zero, ℕ, ℤ, ◌*◌, ◌||◌, ◌≡◌, ◌≢◌, ◌≤◌, ◌⊎◌,
}
use mangarr_gateway.Sources.Comix.Cipher.{value_error, source_error, other, Result, ok, raised}
use mangarr_gateway.Sources.Comix.Scramble.{scramble_permutation, Image, grid_of, unpermute}
use mangarr_gateway.Sources.Comix.Scramble.Permutes.{Permutes, scramble_permutation-Permutes}
use mangarr_gateway.Sources.Comix.Jigsaw.{Measures, assemble}
use mangarr_gateway.Sources.Comix.Jigsaw.Arranged.{IsArrangement}
use mangarr_gateway.Sources.Comix.Jigsaw.Searched.{IsFound, jigsaw_reassemble-IsFound}
use mangarr_gateway.Sources.Comix.Unscramble.{
  Opened, opened, caught, uncaught, Saved, saved, save_value_error, save_error, Pillow, saved_as,
  jigsaw_max_tiles, adopts, is_incoherent, choose, try_jigsaw, ship, unscramble_image,
}

abbrev pub IsUnknown : ℤ → Type 0
IsUnknown algo = (algo ≢ pos 1) × (algo ≢ pos 2) × (algo ≢ pos 3)

scramble_permutation-cases :
    (seed n : ℕ) (algo : ℤ)
    → ((perm : ℕ → ℕ) × (scramble_permutation seed n algo ≡ ok perm))
      ⊎ ((m : String) × (scramble_permutation seed n algo ≡ raised (value_error m))
          × IsUnknown algo)
unfolding scramble_permutation
scramble_permutation-cases seed n (pos zero) = inr (_, refl, ((λ e. cc), (λ e. cc), (λ e. cc)))
scramble_permutation-cases seed n (pos (suc zero)) = inl (_, refl)
scramble_permutation-cases seed n (pos (suc (suc zero))) = inl (_, refl)
scramble_permutation-cases seed n (pos (suc (suc (suc zero)))) = inl (_, refl)
scramble_permutation-cases seed n (pos (suc (suc (suc (suc k))))) =
    inr (_, refl, ((λ e. ground arith), (λ e. ground arith), (λ e. ground arith)))
scramble_permutation-cases seed n (negsuc k) = inr (_, refl, ((λ e. cc), (λ e. cc), (λ e. cc)))

Opened-cases :
    {P : Type 0} (o : Opened P)
    → (o ≡ caught) ⊎ (((m : String) × (o ≡ uncaught m)) ⊎ ((img : Image P) × (o ≡ opened img)))
Opened-cases caught = inl refl
Opened-cases (uncaught m) = inr (inl (m, refl))
Opened-cases (opened img) = inr (inr (img, refl))

module _ {B P : Type 0} (pillow : Pillow B P) (measures : Measures P) where
  -- An image whose tiles were moved by the seed's permutation or arranged by the search.
  abbrev pub IsRearranged : ℕ → ℤ → ℕ → ℕ → Image P → Image P → Type 0
  IsRearranged seed algo cols rows img out =
      let g = grid_of cols rows img in
      ((perm : ℕ → ℕ) × (scramble_permutation seed (cols * rows) algo ≡ ok perm)
        × Permutes (cols * rows) perm
        × (out ≡ unpermute g perm img (cols * rows)))
      ⊎ ((flat : List ℕ) × IsArrangement (cols * rows) flat × (out ≡ assemble g img 0 flat img))

  choose-IsRearranged :
      (seed : ℕ) (algo : ℤ) (cols rows : ℕ) (img : Image P) (perm : ℕ → ℕ)
      (found : Option (Image P × ℕ))
      → scramble_permutation seed (cols * rows) algo ≡ ok perm
      → IsFound measures (grid_of cols rows img) img (cols * rows) found
      → let out = unpermute (grid_of cols rows img) perm img (cols * rows) in
        let chosen = choose pillow measures cols rows out found in
        IsRearranged seed algo cols rows img chosen.0
        × (measures.grid_seam chosen.0 cols rows ≡ chosen.1)
  unfolding choose
  choose-IsRearranged seed algo cols rows img perm none e f =
      let p = scramble_permutation-Permutes seed (cols * rows) algo perm e in
      (inl (perm, e, p, refl), refl)
  choose-IsRearranged seed algo cols rows img perm (some (jig, s)) e (flat, arranged, made, seam) =
      let out = unpermute (grid_of cols rows img) perm img (cols * rows) in
      elim (Bool-cases
        (adopts (measures.grid_seam jig cols rows) (measures.grid_seam out cols rows))) [
          | inl y ↦ rw y (inr (flat, arranged, made), refl)
          | inr n ↦
              let p = scramble_permutation-Permutes seed (cols * rows) algo perm e in
              rw n (inl (perm, e, p, refl), refl)
        ]

  try_jigsaw-IsFound :
      (img : Image P) (cols rows : ℕ)
      → (found : Option (Image P × ℕ)) × (try_jigsaw pillow measures img cols rows ≡ ok found)
        × IsFound measures (grid_of cols rows img) img (cols * rows) found
  unfolding try_jigsaw
  try_jigsaw-IsFound img cols rows = elim (Bool-cases (leb (cols * rows) jigsaw_max_tiles)) [
    | inl e ↦ rw e (jigsaw_reassemble-IsFound measures img cols rows)
    | inr e ↦ rw e (none, refl, tt)
  ]

  -- An image that was read from the bytes, and its tiles rearranged, with its seam tested.
  abbrev pub IsRead : B → ℕ → ℕ → ℕ → ℤ → Bool → Image P → Type 0
  IsRead content seed cols rows algo incoherent out =
      (img : Image P) × (pillow.open_image content ≡ opened img)
      × IsRearranged seed algo cols rows img out
      × (is_incoherent (measures.grid_seam out cols rows) ≡ incoherent)

  -- A coherent rearrangement, and how its saving ended.
  abbrev pub IsSaved : B → ℕ → ℕ → ℕ → ℤ → Saved B → Type 0
  IsSaved content seed cols rows algo end =
      (out : Image P) × (pillow.save out ≡ end) × IsRead content seed cols rows algo false out

  -- What is shipped, or an error, says of the image that was read.
  abbrev pub Ships : B → ℕ → ℕ → ℕ → ℤ → Result B → Type 0
  Ships content seed cols rows algo (ok shipped) =
      ((shipped ≡ content)
        × ((pillow.open_image content ≡ caught)
            ⊎ ((img : Image P) × (pillow.open_image content ≡ opened img)
                × (((grid_of cols rows img).tile_w ≡ 0) ⊎ ((grid_of cols rows img).tile_h ≡ 0)))))
      ⊎ IsSaved content seed cols rows algo (saved shipped)
  Ships content seed cols rows algo (raised (value_error m)) =
      IsUnknown algo ⊎ IsSaved content seed cols rows algo (save_value_error m)
  Ships content seed cols rows algo (raised (source_error m)) =
      (out : Image P) × (IsRead content seed cols rows algo true out)
  Ships content seed cols rows algo (raised (other m)) =
      (pillow.open_image content ≡ uncaught m) ⊎ IsSaved content seed cols rows algo (save_error m)

  saved_as-Ships :
      (content : B) (seed cols rows : ℕ) (algo : ℤ) (end : Saved B)
      → IsSaved content seed cols rows algo end
      → Ships content seed cols rows algo (saved_as end)
  saved_as-Ships content seed cols rows algo (saved shipped) s = inr s
  saved_as-Ships content seed cols rows algo (save_value_error m) s = inr s
  saved_as-Ships content seed cols rows algo (save_error m) s = inr s

  ship-Ships :
      (content : B) (seed cols rows : ℕ) (algo : ℤ) (img out : Image P) (seam : Option ℕ)
      → pillow.open_image content ≡ opened img
      → IsRearranged seed algo cols rows img out
      → measures.grid_seam out cols rows ≡ seam
      → Ships content seed cols rows algo (ship pillow measures (out, seam))
  unfolding ship
  ship-Ships content seed cols rows algo img out seam e r m =
      elim (Bool-cases (is_incoherent seam)) [
        | inl y ↦
            let read : IsRead content seed cols rows algo true out = (img, e, r, rw m y) in
            rw y (out, read)
        | inr n ↦
            let read : IsRead content seed cols rows algo false out = (img, e, r, rw m n) in
            rw n (saved_as-Ships content seed cols rows algo (pillow.save out) (out, refl, read))
      ]

  -- With a grid of at least one column and one row, a shipped page is the bytes that were given,
  -- where opening them raises what the code catches or a tile would be empty, or else the image
  -- read from them with its tiles rearranged, by the un-permute of the seed's permutation or by a
  -- search that places each tile once, and saved, and the saved image's seam, if it has one, is
  -- below the bar. A ValueError means an unknown algorithm, or that saving such an image raised
  -- it; a SourceError, that an image was read of which such a rearrangement is incoherent. Another
  -- exception is one that the code does not catch, of opening the bytes or of saving such an
  -- image.
  pub unscramble_image-Ships :
      (content : B) (seed cols rows : ℕ) (algo : ℤ)
      → 1 ≤ cols
      → 1 ≤ rows
      → Ships content seed cols rows algo
          (unscramble_image pillow measures content seed cols rows algo)
  unfolding unscramble_image
  unscramble_image-Ships content seed cols rows algo hc hr =
      let run = unscramble_image pillow measures content seed cols rows algo in
      let ships = Ships content seed cols rows algo in
      elim (scramble_permutation-cases seed (cols * rows) algo) [
        | inr (m, f, unknown) ↦
            let k : run ≡ raised (value_error m) = ground (arith, f) in
            subst ships (sym k) (inl unknown)
        | inl (perm, f) ↦ elim (Opened-cases (pillow.open_image content)) [
          | inl e ↦
              let k : run ≡ ok content = ground (arith, f, e) in
              subst ships (sym k) (inl (refl, inl e))
          | inr (inl (m, e)) ↦
              let k : run ≡ raised (other m) = ground (arith, f, e) in subst ships (sym k) (inl e)
          | inr (inr (img, e)) ↦
              let g = grid_of cols rows img in
              elim (Bool-cases (nat_beq g.tile_w 0 || nat_beq g.tile_h 0)) [
                | inl small ↦
                    let k : run ≡ ok content = ground (arith, f, e, small) in
                    subst ships (sym k) (inl (refl, inr (img, e, ground (arith, small))))
                | inr large ↦
                    let (found, t, is_found) = try_jigsaw-IsFound img cols rows in
                    let out = unpermute g perm img (cols * rows) in
                    let chosen = choose pillow measures cols rows out found in
                    let (rearranged, seam) =
                      choose-IsRearranged seed algo cols rows img perm found f is_found in
                    let k : run ≡ ship pillow measures chosen = ground (arith, f, e, large, t) in
                    subst ships (sym k) (
                      ship-Ships content seed cols rows algo img chosen.0 chosen.1 e rearranged
                        seam)
              ]
        ]
      ]
