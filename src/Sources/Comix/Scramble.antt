-- ===== src/Sources/Comix/Scramble.antt =====
-- The tile scramble of src/manga_gateway/sources/comix.py: `_scramble_permutation` and the move of
-- the tiles in `_unscramble_image`. A list of known length is the family of its entries, and an
-- image its size and its pixels.
pub mod Permutes
pub mod Restored
use mangarr_gateway.Prelude.{
  Bool, count, if◌then◌else◌, leb, ltb, pos, suc, update, zero, ℕ, ℤ, ◌%◌, ◌&&◌, ◌*◌, ◌+◌, ◌-◌, ◌/◌,
}
use mangarr_gateway.Sources.Comix.Cipher.{
  value_error, Result, ok, raised, word, xorshift32_step, Generator,
}
use Prim.Native.Nat.{bit_or}

unfoldable pub scramble_lcg_step : ℕ → ℕ
scramble_lcg_step state = word (state * 1664525 + 1013904223)

-- The generator of `_scramble_permutation` for an algorithm; `out` is taken modulo the bound.
unfoldable pub scramble_generator : ℕ → ℤ → Result Generator
unfolding scramble_lcg_step xorshift32_step
scramble_generator seed (pos (suc zero)) =
    ok (record { start = word seed; step = scramble_lcg_step; out = λ state. state })
scramble_generator seed (pos (suc (suc zero))) =
    ok (record { start = word seed; step = scramble_lcg_step; out = λ state. state })
scramble_generator seed (pos (suc (suc (suc zero)))) =
    ok (record { start = word (bit_or seed 1); step = xorshift32_step; out = λ state. state })
scramble_generator seed algo = raised (value_error "unknown x-scramble-algo")

-- `values[i], values[j] = values[j], values[i]`
unfoldable pub swap : ℕ → ℕ → (ℕ → ℕ) → ℕ → ℕ
swap i j values = update (update values i (values j)) j (values i)

-- The loop `for i in range(count - 1, 0, -1)`, from i down.
unfoldable pub shuffle : (ℕ → ℕ) → ℕ → ℕ → (ℕ → ℕ) → ℕ → ℕ
unfolding swap
shuffle step zero state values = values
shuffle step (suc i) state values =
    let next = step state in shuffle step i next (swap (suc i) (next % (suc i + 1)) values)

unfoldable pub scramble_permutation : ℕ → ℕ → ℤ → Result (ℕ → ℕ)
unfolding scramble_generator shuffle
scramble_permutation seed count algo = elim (scramble_generator seed algo) [
  | ok g ↦ ok (shuffle g.step (count - 1) g.start (λ i. i))
  | raised m ↦ raised m
]

pub record Image (P : Type 0) : Type 0 where
  pub width : ℕ
  pub height : ℕ
  pub pixel : ℕ → ℕ → P

-- A tile of the grid: its size, and where the tile with a number begins.
pub record Grid : Type 0 where
  pub cols : ℕ
  pub rows : ℕ
  pub tile_w : ℕ
  pub tile_h : ℕ

abbrev pub tile_x : Grid → ℕ → ℕ
tile_x g s = s % g.cols * g.tile_w

abbrev pub tile_y : Grid → ℕ → ℕ
tile_y g s = s / g.cols * g.tile_h

-- `width // cols, height // rows`
unfoldable pub grid_of : {P : Type 0} → ℕ → ℕ → Image P → Grid
grid_of cols rows img = record {
  cols = cols;
  rows = rows;
  tile_w = img.width / cols;
  tile_h = img.height / rows;
}

abbrev pub in_tile : Grid → ℕ → ℕ → ℕ → Bool
in_tile g d x y =
    (leb (tile_x g d) x && ltb x (tile_x g d + g.tile_w))
    && (leb (tile_y g d) y && ltb y (tile_y g d + g.tile_h))

module _ {P : Type 0} where
  -- `out.paste(img.crop(tile s), tile d)`
  unfoldable pub paste : Grid → Image P → ℕ → ℕ → Image P → Image P
  paste g img s d out = record out {
    pixel = λ x y.
        if in_tile g d x y
        then img.pixel (tile_x g s + (x - tile_x g d)) (tile_y g s + (y - tile_y g d))
        else out.pixel x y;
  }

  -- The loop of `_unscramble_image` over the first n tiles.
  unfoldable pub unpermute : Grid → (ℕ → ℕ) → Image P → ℕ → Image P
  unfolding paste
  unpermute g perm img zero = img
  unpermute g perm img (suc s) = paste g img s (perm s) (unpermute g perm img s)
