-- ===== src/Sources/Comix/Jigsaw/Searched.antt =====
-- The image that `_jigsaw_reassemble` finds.
use mangarr_gateway.Prelude.{
  All, Bool-cases, List, Option, Option-cases, [], arith, count, inl, inr, nat_beq, none, refl,
  some, subst, suc, sym, zero, ℕ, ◌*◌, ◌+◌, ◌-◌, ◌<◌, ◌||◌, ◌∷◌, ◌≡◌, ◌≤◌, ◌⊎◌,
}
use mangarr_gateway.Sources.Comix.Cipher.{ok}
use mangarr_gateway.Sources.Comix.Scramble.{Image, Grid, grid_of}
use mangarr_gateway.Sources.Comix.Jigsaw.{
  Measures, range_from, Entry, assemble, greedy, search_beam, consider, consider_all, search_starts,
  jigsaw_reassemble,
}
use mangarr_gateway.Sources.Comix.Jigsaw.Arranged.{
  IsApart, IsArrangement, greedy-IsArrangement, IsPartial, search_beam-IsPartial,
}

module _ {P : Type 0} (measures : Measures P) (g : Grid) (img : Image P) where
  abbrev pub IsFound : ℕ → Option (Image P × ℕ) → Type 0
  IsFound n none = Unit
  IsFound n (some (out, seam)) =
      (flat : List ℕ) × IsArrangement n flat
      × (out ≡ assemble g img 0 flat img)
      × (measures.grid_seam out g.cols g.rows ≡ some seam)

  consider-cases :
      (flat : List ℕ) (best : Option (Image P × ℕ))
      → (consider measures g img flat best ≡ best)
        ⊎ ((seam : ℕ) × (consider measures g img flat best ≡ some (assemble g img 0 flat img, seam))
            × (measures.grid_seam (assemble g img 0 flat img) g.cols g.rows ≡ some seam))
  unfolding consider
  consider-cases flat best =
      elim (Option-cases (measures.grid_seam (assemble g img 0 flat img) g.cols g.rows)) [
        | inl e ↦ inl (ground (arith, e))
        | inr (seam, e) ↦ ground (arith, e)
      ]

  consider-IsFound :
      (n : ℕ) (flat : List ℕ) (best : Option (Image P × ℕ))
      → IsArrangement n flat
      → IsFound n best
      → IsFound n (consider measures g img flat best)
  consider-IsFound n flat best a f = elim (consider-cases flat best) [
    | inl e ↦ subst (IsFound n) (sym e) f
    | inr (seam, e, s) ↦ subst (IsFound n) (sym e) (flat, a, refl, s)
  ]

  consider_all-IsFound :
      (n : ℕ) (es : List Entry) (best : Option (Image P × ℕ))
      → All (IsPartial measures g img n n) es
      → IsFound n best
      → IsFound n (consider_all measures g img es best)
  unfolding consider_all
  consider_all-IsFound n [] best a f = f
  consider_all-IsFound n (e ∷ es) best a f =
      consider_all-IsFound n es (consider measures g img e.1 best) a.1
        (consider-IsFound n e.1 best a.0 f)

  one-IsApart : (n s : ℕ) → s < n → IsApart n (s ∷ [])
  unfolding count
  one-IsApart n s h t = ground arith

  search_starts_step :
      (n s : ℕ) (starts : List ℕ) (best : Option (Image P × ℕ)) (flat : List ℕ)
      → greedy measures g img n (n - 1) 1 (s ∷ []) ≡ ok flat
      → search_starts measures g img n (s ∷ starts) best
        ≡ search_starts measures g img n starts (
            consider_all measures g img
              (search_beam measures g img n (n - 1) 1 ((0, s ∷ []) ∷ []))
              (consider measures g img flat best))
  unfolding search_starts
  search_starts_step n s starts best flat e = ground (arith, e)

  search_starts-IsFound :
      (n : ℕ) (starts : List ℕ) (best : Option (Image P × ℕ))
      → All (λ s. s < n) starts
      → IsFound n best
      → (found : Option (Image P × ℕ)) × (search_starts measures g img n starts best ≡ ok found)
        × IsFound n found
  unfolding search_starts
  search_starts-IsFound n [] best a f = (best, refl, f)
  search_starts-IsFound n (s ∷ starts) best a f =
      let (flat, e, arranged) =
        greedy-IsArrangement measures g img n (n - 1) 1 (s ∷ []) (omega (arith, a.0))
          (one-IsApart n s a.0) in
      let beam =
        search_beam-IsPartial measures g img n (n - 1) 1 n ((0, s ∷ []) ∷ []) (omega (arith, a.0))
          ((refl, one-IsApart n s a.0), tt) in
      rw (search_starts_step n s starts best flat e) (
        search_starts-IsFound n starts _ a.1 (
          consider_all-IsFound n _ (consider measures g img flat best) beam
            (consider-IsFound n flat best arranged f)))

range_from-All : (n start k : ℕ) → start + k ≤ n → All (λ s. s < n) (range_from start k)
unfolding range_from
range_from-All n start zero h = tt
range_from-All n start (suc k) h = (omega arith, range_from-All n (suc start) k (omega arith))

-- The search never raises. What it finds is an arrangement of all tiles, with its seam.
pub jigsaw_reassemble-IsFound :
    {P : Type 0} (measures : Measures P) (img : Image P) (cols rows : ℕ)
    → (found : Option (Image P × ℕ)) × (jigsaw_reassemble measures img cols rows ≡ ok found)
      × IsFound measures (grid_of cols rows img) img (cols * rows) found
unfolding jigsaw_reassemble
jigsaw_reassemble-IsFound measures img cols rows =
    let g = grid_of cols rows img in
    elim (Bool-cases (nat_beq g.tile_w 0 || nat_beq g.tile_h 0)) [
      | inl e ↦ rw e (none, refl, tt)
      | inr e ↦ rw e (
          search_starts-IsFound measures g img (cols * rows) (range_from 0 (cols * rows)) none
            (range_from-All (cols * rows) 0 (cols * rows) (omega arith)) tt)
    ]
