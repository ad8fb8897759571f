-- ===== src/Sources/Comix/Cipher.antt =====
-- The byte cipher of src/manga_gateway/sources/comix.py: `_xorshift32_step` and
-- `_decode_enc_prefix`. A word is its number, below 2 ^ 32, and a byte is below 256.
pub mod Decoded
use mangarr_gateway.Prelude.{
  List, String, [], if◌then◌else◌, inl, inr, length, min, nat_beq, pos, refl, suc, zero, ℕ, ℤ, ◌%◌,
  ◌*◌, ◌+◌, ◌/◌, ◌^◌, ◌∷◌, ◌≡◌, ◌⊎◌,
}
use Prim.Native.Nat.{bit_or, bit_xor}

-- What is raised: a ValueError, a SourceError of `source_unavailable`, or another exception.
pub data Raised : Type 0 where
  value_error : String → Raised
  source_error : String → Raised
  other : String → Raised

pub data Result {ℓ} (A : Type ℓ) : Type ℓ where
  ok : A → Result A
  raised : Raised → Result A

pub Result-cases {ℓ} :
    {A : Type ℓ} (r : Result A) → ((a : A) × (r ≡ ok a)) ⊎ ((e : Raised) × (r ≡ raised e))
Result-cases (ok a) = inl (a, refl)
Result-cases (raised e) = inr (e, refl)

-- `x & _ENC_MASK`
abbrev pub word : ℕ → ℕ
word x = x % 2 ^ 32

-- `_xorshift32_step`
unfoldable pub xorshift32_step : ℕ → ℕ
xorshift32_step state =
    let a = word (bit_xor state (word (state * 2 ^ 13))) in
    let b = bit_xor a (a / 2 ^ 17) in word (bit_xor b (word (b * 2 ^ 5)))

unfoldable pub enc_lcg_step : ℕ → ℕ
enc_lcg_step state = word (state * 1000005 + 1234567891)

-- A generator: its first state, the step, and the byte or index that a state gives.
pub record Generator : Type 0 where
  pub start : ℕ
  pub step : ℕ → ℕ
  pub out : ℕ → ℕ

-- The generator of `_decode_enc_prefix` for an algorithm.
unfoldable pub enc_generator : ℕ → ℤ → Result Generator
unfolding enc_lcg_step xorshift32_step
enc_generator seed (pos (suc zero)) =
    ok (record { start = word seed; step = enc_lcg_step; out = λ state. state / 2 ^ 24 % 256 })
enc_generator seed (pos (suc (suc zero))) =
    ok (record { start = word (bit_or seed 1); step = xorshift32_step; out = λ state. state % 256 })
enc_generator seed algo = raised (value_error "unknown x-enc-algo")

-- The loop over the first `limit` bytes.
unfoldable pub xor_stream : (ℕ → ℕ) → (ℕ → ℕ) → ℕ → ℕ → List ℕ → List ℕ
xor_stream step out state zero bytes = bytes
xor_stream step out state (suc limit) [] = []
xor_stream step out state (suc limit) (b ∷ bytes) =
    bit_xor b (out (step state)) ∷ xor_stream step out (step state) limit bytes

unfoldable pub decode_enc_prefix : List ℕ → ℕ → ℕ → ℤ → Result (List ℕ)
unfolding enc_generator xor_stream
decode_enc_prefix bytes seed enc_len algo =
    if nat_beq seed 0 then ok bytes else elim (enc_generator seed algo) [
      | ok g ↦ ok (xor_stream g.step g.out g.start (min enc_len (length bytes)) bytes)
      | raised m ↦ raised m
    ]
