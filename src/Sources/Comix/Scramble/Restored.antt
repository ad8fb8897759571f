-- ===== src/Sources/Comix/Scramble/Restored.antt =====
-- Scrambled images and their un-permute.
use mangarr_gateway.Prelude.{
  Bool-cases, arith, false, inl, inr, refl, suc, true, zero, ℕ, ℤ, ◌*◌, ◌+◌, ◌-◌, ◌<◌, ◌∙◌, ◌≡◌,
  ◌≤◌, ◌⊎◌,
}
use mangarr_gateway.Sources.Comix.Scramble.{
  scramble_permutation, Image, Grid, tile_x, tile_y, grid_of, in_tile, paste, unpermute,
}
use mangarr_gateway.Sources.Comix.Cipher.{ok}
use mangarr_gateway.Sources.Comix.Scramble.Permutes.{scramble_permutation-Permutes}

module _ {P : Type 0} (g : Grid) (perm : ℕ → ℕ) where
  -- "Scrambled position i holds original tile permutation[i]."
  abbrev pub IsScrambled : ℕ → Image P → Image P → Type 0
  IsScrambled n original img =
      (i u v : ℕ)
      → i < n
      → u < g.tile_w
      → v < g.tile_h
      → img.pixel (tile_x g i + u) (tile_y g i + v)
        ≡ original.pixel (tile_x g (perm i) + u) (tile_y g (perm i) + v)

  moved_pixel :
      (n s : ℕ) (original img : Image P) (x y : ℕ)
      → s < n
      → IsScrambled n original img
      → in_tile g (perm s) x y ≡ true
      → img.pixel (tile_x g s + (x - tile_x g (perm s))) (tile_y g s + (y - tile_y g (perm s)))
        ≡ original.pixel x y
  moved_pixel n s original img x y h p e =
      let at_x : tile_x g (perm s) + (x - tile_x g (perm s)) ≡ x = ground arith in
      let at_y : tile_y g (perm s) + (y - tile_y g (perm s)) ≡ y = ground arith in
      p s (x - tile_x g (perm s)) (y - tile_y g (perm s)) h (ground arith) (ground arith)
      ∙ rw (at_x, at_y) refl

  -- A pixel of a tile that was moved is that of the original.
  unpermute_moved :
      (n m : ℕ) (original img : Image P) (x y : ℕ)
      → m ≤ n
      → IsScrambled n original img
      → ((unpermute g perm img m).pixel x y ≡ original.pixel x y)
        ⊎ ((s : ℕ) → s < m → in_tile g (perm s) x y ≡ false)
  unfolding unpermute paste
  unpermute_moved n zero original img x y h p = inr (λ s k. elim k [ ])
  unpermute_moved n (suc m) original img x y h p = elim (Bool-cases (in_tile g (perm m) x y)) [
    | inl e ↦ rw e (inl (moved_pixel n m original img x y (omega arith) p e))
    | inr e ↦ rw e (elim (unpermute_moved n m original img x y (omega arith) p) [
      | inl same ↦ inl same
      | inr other ↦ inr (λ s k. ground (arith, e, other s))
    ])
  ]

-- If a page was scrambled by the permutation of its seed, so that the tile at each position i is
-- the original tile perm[i], then after the un-permute every pixel of every tile is that of the
-- original.
pub unpermute_restored :
    {P : Type 0} (cols rows seed : ℕ) (algo : ℤ) (perm : ℕ → ℕ) (original img : Image P) (d u v : ℕ)
    → scramble_permutation seed (cols * rows) algo ≡ ok perm
    → IsScrambled (grid_of cols rows img) perm (cols * rows) original img
    → d < cols * rows
    → u < (grid_of cols rows img).tile_w
    → v < (grid_of cols rows img).tile_h
    → let g = grid_of cols rows img in
      (unpermute g perm img (cols * rows)).pixel (tile_x g d + u) (tile_y g d + v)
      ≡ original.pixel (tile_x g d + u) (tile_y g d + v)
unpermute_restored cols rows seed algo perm original img d u v made scrambled hd hu hv =
    let g = grid_of cols rows img in
    let n = cols * rows in
    let p = scramble_permutation-Permutes seed n algo perm made in
    let inside : in_tile g (perm (p.source d)) (tile_x g d + u) (tile_y g d + v) ≡ true =
      rw (p.source_inverse d hd) ground arith in
    elim (unpermute_moved g perm n n original img (tile_x g d + u) (tile_y g d + v) (omega arith)
      scrambled) [
        | inl same ↦ same
        | inr other ↦ absurd (ground (arith, inside, other (p.source d) (p.source_below d hd)))
      ]
