-- ===== src/Sources/Comix/Cipher/Decoded.antt =====
-- The stream of `_decode_enc_prefix` and its prefix.
use mangarr_gateway.Prelude.{
  Bool-cases, List, [], ap, arith, drop, inl, inr, length, min, nat_beq, refl, suc, zero, ℕ, ℤ, ◌∷◌,
  ◌≡◌,
}
use mangarr_gateway.Prelude.Bits.{bit_xor_twice}
use mangarr_gateway.Sources.Comix.Cipher.{
  ok, Result-cases, Generator, enc_generator, xor_stream, decode_enc_prefix,
}

module _ (step out : ℕ → ℕ) where
  xor_stream-twice :
      (state limit : ℕ) (bytes : List ℕ)
      → xor_stream step out state limit (xor_stream step out state limit bytes) ≡ bytes
  unfolding xor_stream
  xor_stream-twice state zero bytes = refl
  xor_stream-twice state (suc limit) [] = refl
  xor_stream-twice state (suc limit) (b ∷ bytes) =
      rw (bit_xor_twice b (out (step state)), xor_stream-twice (step state) limit bytes) refl

  length-xor_stream :
      (state limit : ℕ) (bytes : List ℕ)
      → length (xor_stream step out state limit bytes) ≡ length bytes
  unfolding xor_stream
  length-xor_stream state zero bytes = refl
  length-xor_stream state (suc limit) [] = refl
  length-xor_stream state (suc limit) (b ∷ bytes) =
      ap suc (length-xor_stream (step state) limit bytes)

  drop-xor_stream :
      (state limit : ℕ) (bytes : List ℕ)
      → drop limit (xor_stream step out state limit bytes) ≡ drop limit bytes
  unfolding xor_stream
  drop-xor_stream state zero bytes = refl
  drop-xor_stream state (suc limit) [] = refl
  drop-xor_stream state (suc limit) (b ∷ bytes) = drop-xor_stream (step state) limit bytes

stream-twice :
    (g : Generator) (enc_len : ℕ) (bytes : List ℕ)
    → let once = xor_stream g.step g.out g.start (min enc_len (length bytes)) bytes in
      (xor_stream g.step g.out g.start (min enc_len (length once)) once ≡ bytes)
      × (length once ≡ length bytes)
      × (drop (min enc_len (length bytes)) once ≡ drop (min enc_len (length bytes)) bytes)
stream-twice g enc_len bytes = (
  rw (length-xor_stream g.step g.out g.start (min enc_len (length bytes)) bytes)
      (xor_stream-twice g.step g.out g.start (min enc_len (length bytes)) bytes),
  length-xor_stream g.step g.out g.start (min enc_len (length bytes)) bytes,
  drop-xor_stream g.step g.out g.start (min enc_len (length bytes)) bytes,
)

-- Where bytes are decoded, decoding the result again gives the bytes back. The length is kept,
-- and so is every byte from the stated length on.
pub decode_enc_prefix-twice :
    (bytes decoded : List ℕ) (seed enc_len : ℕ) (algo : ℤ)
    → decode_enc_prefix bytes seed enc_len algo ≡ ok decoded
    → (decode_enc_prefix decoded seed enc_len algo ≡ ok bytes)
      × (length decoded ≡ length bytes)
      × (drop (min enc_len (length bytes)) decoded ≡ drop (min enc_len (length bytes)) bytes)
unfolding decode_enc_prefix
decode_enc_prefix-twice bytes decoded seed enc_len algo h = elim (Bool-cases (nat_beq seed 0)) [
  | inl e ↦ ground (arith, e)
  | inr e ↦ elim (Result-cases (enc_generator seed algo)) [
    | inl (g, f) ↦ ground (arith, e, f, stream-twice g enc_len bytes)
    | inr (m, f) ↦ ground (arith, e, f)
  ]
]
