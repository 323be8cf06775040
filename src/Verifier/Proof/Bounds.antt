-- ===== src/Verifier/Proof/Bounds.antt =====
-- The codec of the two numbers among the public inputs, and the bounds on them.
use protocol_core.Base.{
  ℕ, zero, suc, ◌<◌, ◌≤◌, ◌^◌, ◌≡◌, refl, ◌↔◌, inl, inr, [], ◌∷◌, length, arith, length-take, take,
  ok, Result-cases,
}
use protocol_core.Base.Words.{
  Bytes, to_be_bytes, from_be_bytes, from_be_bytes-to_be_bytes, length-to_be_bytes,
}
use protocol_core.Base.Bytes.{sub, zeros, sub-put_self, sub-put_below}
use protocol_core.Verifier.Proof.{
  require_zeros, decode_u16_from_field_element, encode_u16_field_element, validate_hamming_bounds,
}

require_zeros-zeros : (n : ℕ) → require_zeros (zeros n) ≡ ok tt
unfolding require_zeros
require_zeros-zeros zero = refl
require_zeros-zeros (suc n) = require_zeros-zeros n

high_zeros : (v : ℕ) → take 30 (encode_u16_field_element v) ≡ zeros 30
unfolding encode_u16_field_element sub
high_zeros v = sub-put_below (zeros 32) 30 (to_be_bytes 2 v) 0 30 (omega arith)

low_bytes : (v : ℕ) → sub (encode_u16_field_element v) 30 2 ≡ to_be_bytes 2 v
unfolding encode_u16_field_element
low_bytes v = sub-put_self (zeros 32) 30 (to_be_bytes 2 v) 2 (length-to_be_bytes 2 v) (omega arith)

-- A number of 16 bits that is encoded as a field element is decoded to itself.
pub decode-encode_u16 :
    (value : ℕ)
    → value < 2 ^ 16
    → decode_u16_from_field_element (encode_u16_field_element value) ≡ ok value
unfolding decode_u16_from_field_element
decode-encode_u16 value h = ground (
  arith,
  low_bytes value,
  high_zeros value,
  require_zeros-zeros 30,
  from_be_bytes-to_be_bytes 2 value (omega arith),
)

require_zeros_lem : (bs : Bytes) → require_zeros bs ≡ ok tt → bs ≡ zeros (length bs)
unfolding require_zeros
require_zeros_lem [] h = refl
require_zeros_lem (b ∷ bs) h = ground (arith, require_zeros_lem bs)

-- The decoder refuses every element with a high byte that is not zero.
pub decode_u16-high :
    (fe : Bytes) {value : ℕ}
    → 30 ≤ length fe
    → decode_u16_from_field_element fe ≡ ok value
    → (take 30 fe ≡ zeros 30) × (value ≡ from_be_bytes (sub fe 30 2))
unfolding decode_u16_from_field_element
decode_u16-high fe h e = elim (Result-cases (require_zeros (take 30 fe))) [
  | inr (x, q) ↦ ground arith
  | inl (u, q) ↦ ground (arith, require_zeros_lem (take 30 fe), length-take 30 fe)
]

-- The bounds are exactly a threshold of at most 96 over a distance of at least 3.
pub validate_hamming_bounds_iff :
    (threshold min_distance : ℕ)
    → (validate_hamming_bounds threshold min_distance ≡ ok tt)
      ↔ (threshold ≤ 96) × (3 ≤ min_distance) × (min_distance < threshold)
unfolding validate_hamming_bounds
validate_hamming_bounds_iff threshold min_distance = ground arith
