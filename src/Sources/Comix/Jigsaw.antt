-- ===== src/Sources/Comix/Jigsaw.antt =====
-- `_jigsaw_reassemble` of src/manga_gateway/sources/comix.py. The measures of numpy are a parameter:
-- a cost or a seam is a natural number, and no seam the infinite float. The bit mask of the used
-- tiles is the list of the placed ones.
pub mod Arranged
pub mod Searched
use mangarr_gateway.Prelude.{
  Bool, List, Option, [], any, if◌then◌else◌, keep, ltb, map, nat_beq, none, not, some, suc, take,
  zero, ℕ, ◌%◌, ◌*◌, ◌++◌, ◌+◌, ◌-◌, ◌/◌, ◌||◌, ◌∷◌,
}
use mangarr_gateway.Sources.Comix.Cipher.{value_error, Result, ok, raised}
use mangarr_gateway.Sources.Comix.Scramble.{Image, Grid, grid_of, paste}

-- `_grid_seam`, and the borders `lr[a][b]` and `tb[a][b]`.
pub record Measures (P : Type 0) : Type 0 where
  pub grid_seam : Image P → ℕ → ℕ → Option ℕ
  pub lr : Grid → Image P → ℕ → ℕ → ℕ
  pub tb : Grid → Image P → ℕ → ℕ → ℕ

-- `range(start, start + k)`
unfoldable pub range_from : ℕ → ℕ → List ℕ
range_from start zero = []
range_from start (suc k) = start ∷ range_from (suc start) k

abbrev pub is_used : List ℕ → ℕ → Bool
is_used placed t = any (nat_beq t) placed

-- `[t for t in range(n) if not used & (1 << t)]`
unfoldable pub unused : ℕ → List ℕ → List ℕ
unfolding range_from
unused n placed = keep (λ t. not (is_used placed t)) (range_from 0 n)

-- `placed[i]`
unfoldable pub entry : List ℕ → ℕ → ℕ
entry [] i = 0
entry (x ∷ xs) zero = x
entry (x ∷ xs) (suc i) = entry xs i

-- `min(xs, key=key)`, the first of the least ones; none where it raises.
unfoldable pub min_by : (ℕ → ℕ) → List ℕ → Option ℕ
min_by key [] = none
min_by key (x ∷ xs) = elim (min_by key xs) [
  | none ↦ some x
  | some y ↦ if ltb (key y) (key x) then some y else some x
]

abbrev pub Entry : Type 0
Entry = ℕ × List ℕ

-- `nxt.sort(key=lambda entry: entry[0])`
unfoldable pub place : Entry → List Entry → List Entry
place e [] = e ∷ []
place e (x ∷ xs) = if ltb x.0 e.0 then x ∷ place e xs else e ∷ x ∷ xs

unfoldable pub sort_by_cost : List Entry → List Entry
unfolding place
sort_by_cost [] = []
sort_by_cost (e ∷ es) = place e (sort_by_cost es)

abbrev pub beam_width : ℕ
beam_width = 8

module _ {P : Type 0} (g : Grid) (img : Image P) where
  -- `_assemble`, from a position on.
  unfoldable pub assemble : ℕ → List ℕ → Image P → Image P
  unfolding paste
  assemble position [] out = out
  assemble position (s ∷ flat) out = assemble (suc position) flat (paste g img s position out)

module _ {P : Type 0} (measures : Measures P) (g : Grid) (img : Image P) where
  -- The cost of tile t at a position, after the placed ones.
  unfoldable pub border : List ℕ → ℕ → ℕ → ℕ
  unfolding entry
  border placed position t =
      (if ltb 0 (position % g.cols) then measures.lr g img (entry placed (position - 1)) t else 0)
      + (if ltb 0 (position / g.cols)
          then measures.tb g img (entry placed (position - g.cols)) t
          else 0)

  -- The raster greedy, with k positions left.
  unfoldable pub greedy : ℕ → ℕ → ℕ → List ℕ → Result (List ℕ)
  unfolding min_by unused border
  greedy n zero position placed = ok placed
  greedy n (suc k) position placed = elim (min_by (border placed position) (unused n placed)) [
    | none ↦ raised (value_error "min() arg is an empty sequence")
    | some t ↦ greedy n k (suc position) (placed ++ t ∷ [])
  ]

  -- The entries that an entry of the beam gives at a position.
  unfoldable pub extend : ℕ → ℕ → Entry → List Entry
  unfolding unused border
  extend n position (cost, placed) =
      map (λ t. (cost + border placed position t, placed ++ t ∷ [])) (unused n placed)

  unfoldable pub extend_all : ℕ → ℕ → List Entry → List Entry
  unfolding extend
  extend_all n position [] = []
  extend_all n position (e ∷ es) = extend n position e ++ extend_all n position es

  unfoldable pub search_beam : ℕ → ℕ → ℕ → List Entry → List Entry
  unfolding extend_all sort_by_cost
  search_beam n zero position beam = beam
  search_beam n (suc k) position beam =
      search_beam n k (suc position) (take beam_width (sort_by_cost (extend_all n position beam)))

  -- `_consider`, on the best image so far with its seam.
  unfoldable pub consider : List ℕ → Option (Image P × ℕ) → Option (Image P × ℕ)
  unfolding assemble
  consider flat best =
      let candidate = assemble g img 0 flat img in
      elim (measures.grid_seam candidate g.cols g.rows) [
        | none ↦ best
        | some seam ↦ elim best [
          | none ↦ some (candidate, seam)
          | some (b, best_seam) ↦
              if ltb seam best_seam then some (candidate, seam) else some (b, best_seam)
        ]
      ]

  unfoldable pub consider_all : List Entry → Option (Image P × ℕ) → Option (Image P × ℕ)
  unfolding consider
  consider_all [] best = best
  consider_all (e ∷ es) best = consider_all es (consider e.1 best)

  -- The loop over the start tiles.
  unfoldable pub search_starts : ℕ → List ℕ → Option (Image P × ℕ) → Result (Option (Image P × ℕ))
  unfolding greedy search_beam consider_all
  search_starts n [] best = ok best
  search_starts n (start ∷ starts) best = elim (greedy n (n - 1) 1 (start ∷ [])) [
    | raised m ↦ raised m
    | ok flat ↦
        let beam = search_beam n (n - 1) 1 ((0, start ∷ []) ∷ []) in
        search_starts n starts (consider_all beam (consider flat best))
  ]

-- `_jigsaw_reassemble`, with the seam of the best image.
unfoldable pub jigsaw_reassemble :
    {P : Type 0} → Measures P → Image P → ℕ → ℕ → Result (Option (Image P × ℕ))
unfolding search_starts range_from grid_of
jigsaw_reassemble measures img cols rows =
    let g = grid_of cols rows img in
    if nat_beq g.tile_w 0 || nat_beq g.tile_h 0
    then ok none
    else search_starts measures g img (cols * rows) (range_from 0 (cols * rows)) none
