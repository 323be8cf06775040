-- ===== src/Verifier/Layout.antt =====
-- programs/entros-verifier/src/state.rs: the bytes of `VerificationResult`, its fields in order
-- behind the discriminator, and each field at its offset.
use protocol_core.Base.{
  ℕ, ◌<◌, ◌≡◌, refl, Bool, true, false, List, [], ◌∷◌, length, arith, length-append,
}
use protocol_core.Base.Words.{
  Bytes, to_le_bytes, i64_to_le_bytes, length-to_le_bytes, length-i64_to_le_bytes,
}
use protocol_core.Base.Bytes.{sub}
use protocol_core.Base.Concat.{concat, elem, offset, sub-concat}
use protocol_core.Verifier.State.{VerificationResult}

abbrev pub bool_byte : Bool → Bytes
bool_byte true = 1 ∷ []
bool_byte false = 0 ∷ []

abbrev pub result_parts : Bytes → VerificationResult → List Bytes
result_parts discriminator r =
    discriminator
    ∷ r.verifier
    ∷ r.proof_hash
    ∷ i64_to_le_bytes r.verified_at
    ∷ bool_byte r.is_valid
    ∷ r.challenge_nonce
    ∷ (r.bump ∷ [])
    ∷ r.commitment_new
    ∷ r.commitment_prev
    ∷ to_le_bytes 2 r.threshold
    ∷ to_le_bytes 2 r.min_distance
    ∷ []

unfoldable pub serialize_result : Bytes → VerificationResult → Bytes
serialize_result discriminator r = concat (result_parts discriminator r)

-- The sizes of the arrays.
pub record HasSizes (r : VerificationResult) : Type 0 where
  pub verifier_size : length r.verifier ≡ 32
  pub hash_size : length r.proof_hash ≡ 32
  pub nonce_size : length r.challenge_nonce ≡ 32
  pub new_size : length r.commitment_new ≡ 32
  pub prev_size : length r.commitment_prev ≡ 32

length-bool_byte : (b : Bool) → length (bool_byte b) ≡ 1
length-bool_byte true = refl
length-bool_byte false = refl

module _ (discriminator : Bytes) (r : VerificationResult) (tag : length discriminator ≡ 8)
    (v : HasSizes r) where
  part :
      (k i n : ℕ)
      → offset (result_parts discriminator r) k ≡ i
      → length (elem (result_parts discriminator r) k) ≡ n
      → k < 11
      → sub (serialize_result discriminator r) i n ≡ elem (result_parts discriminator r) k
  unfolding serialize_result
  part k i n e h l = sub-concat (result_parts discriminator r) k i n e h (omega arith)

  pub discriminator_at : sub (serialize_result discriminator r) 0 8 ≡ discriminator
  unfolding elem offset
  discriminator_at = part 0 0 8 refl tag (omega arith)

  pub verifier_at : sub (serialize_result discriminator r) 8 32 ≡ r.verifier
  unfolding elem offset
  verifier_at = part 1 8 32 (omega (arith, tag)) v.verifier_size (omega arith)

  pub verified_at_at : sub (serialize_result discriminator r) 72 8 ≡ i64_to_le_bytes r.verified_at
  unfolding elem offset
  verified_at_at =
      part 3 72 8 (omega (arith, tag, v.verifier_size, v.hash_size))
        (length-i64_to_le_bytes r.verified_at) (omega arith)

  pub nonce_at : sub (serialize_result discriminator r) 81 32 ≡ r.challenge_nonce
  unfolding elem offset
  nonce_at =
      part 5 81 32
        (omega (arith, tag, v.verifier_size, v.hash_size, length-i64_to_le_bytes, length-bool_byte))
        v.nonce_size (omega arith)

  pub bump_at : sub (serialize_result discriminator r) 113 1 ≡ r.bump ∷ []
  unfolding elem offset
  bump_at =
      part 6 113 1
        (omega (
          arith, tag, v.verifier_size, v.hash_size, v.nonce_size, length-i64_to_le_bytes,
          length-bool_byte,
        ))
        refl (omega arith)

  pub new_at : sub (serialize_result discriminator r) 114 32 ≡ r.commitment_new
  unfolding elem offset
  new_at =
      part 7 114 32
        (omega (
          arith, tag, v.verifier_size, v.hash_size, v.nonce_size, length-i64_to_le_bytes,
          length-bool_byte,
        ))
        v.new_size (omega arith)

  pub prev_at : sub (serialize_result discriminator r) 146 32 ≡ r.commitment_prev
  unfolding elem offset
  prev_at =
      part 8 146 32
        (omega (
          arith, tag, v.verifier_size, v.hash_size, v.nonce_size, v.new_size,
          length-i64_to_le_bytes, length-bool_byte,
        ))
        v.prev_size (omega arith)

  pub length-serialize_result : length (serialize_result discriminator r) ≡ 182
  unfolding serialize_result concat
  length-serialize_result = omega (
    arith,
    tag,
    v.verifier_size,
    v.hash_size,
    v.nonce_size,
    v.new_size,
    v.prev_size,
    length-append {0},
    length-to_le_bytes,
    length-i64_to_le_bytes,
    length-bool_byte,
  )
