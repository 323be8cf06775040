-- ===== src/Verifier/Proof.antt =====
-- The proof instructions: the codec of the two numbers among the public inputs, their bounds, the
-- proof check and the result account. groth16_verifier.rs, and the three functions of lib.rs.
pub mod Bounds
use protocol_core.Base.{
  ℕ, zero, suc, ◌+◌, ◌*◌, ◌/◌, ◌%◌, ◌≡◌, Bool, true, false, not, Option, none, some, List, [], ◌∷◌,
  ◌++◌, length, ltb, leb, ◌==◌, if◌then◌else◌, Result, ok, err, verifier, framework, panic,
  VerifierError, FrameworkError, require, ◌>>=◌, ◌>>◌, get_elem?, set, ok_or, take, get_or,
}
use protocol_core.Base.Int.{ℤ}
use protocol_core.Base.Words.{Bytes, to_be_bytes, from_be_bytes}
use protocol_core.Base.Bytes.{bytes_eq, sub, put, nth, zeros}
use protocol_core.Chain.{Pubkey}
use protocol_core.Verifier.State.{
  Verifier, VerificationResult, Event, verification_complete, Build, lookup,
}

-- `MAX_THRESHOLD` and `MIN_DISTANCE_FLOOR`
abbrev pub max_threshold : ℕ
max_threshold = 96

abbrev pub min_distance_floor : ℕ
min_distance_floor = 3

-- The loop over the high bytes, then the low two.
unfoldable pub require_zeros : Bytes → Result (Unit {0})
require_zeros [] = ok tt
require_zeros (b ∷ bs) =
    require (b == 0) (verifier VerifierError.invalid_public_inputs) >> require_zeros bs

unfoldable pub decode_u16_from_field_element : Bytes → Result ℕ
unfolding require_zeros
decode_u16_from_field_element fe = do require_zeros (take 30 fe); ok (from_be_bytes (sub fe 30 2))

unfoldable pub encode_u16_field_element : ℕ → Bytes
encode_u16_field_element value = put (zeros 32) 30 (to_be_bytes 2 value)

unfoldable pub validate_hamming_bounds : ℕ → ℕ → Result (Unit {0})
validate_hamming_bounds threshold min_distance = do
  require (leb threshold max_threshold) (verifier VerifierError.invalid_public_inputs)
  require (leb min_distance_floor min_distance) (verifier VerifierError.invalid_public_inputs)
  require (ltb min_distance threshold) (verifier VerifierError.invalid_public_inputs)

-- `u8::rotate_left(3)` and `^`.
unfoldable pub rotate_left_3 : ℕ → ℕ
rotate_left_3 b = b * 8 % 256 + b / 32

unfoldable pub xor : ℕ → ℕ → ℕ → ℕ
xor zero a b = 0
xor (suc n) a b = (if a % 2 == b % 2 then 0 else 1) + 2 * xor n (a / 2) (b / 2)

-- The loop over the proof's bytes from place i on.
unfoldable pub hash_from : ℕ → Bytes → Bytes → Bytes
unfolding xor rotate_left_3
hash_from i acc [] = acc
hash_from i acc (b ∷ bs) =
    hash_from (i + 1) (set acc (i % 32) (xor 8 (rotate_left_3 (get_or acc (i % 32) 0)) b)) bs

unfoldable pub proof_hash : Bytes → Bytes
unfolding hash_from
proof_hash proof_bytes = hash_from 0 (zeros 32) proof_bytes

-- `groth16_verifier::verify_proof`.
unfoldable pub check_proof : Build → Bytes → List Bytes → Result (Unit {0})
check_proof build proof_bytes public_inputs = do
  require (length proof_bytes == 256) (verifier VerifierError.invalid_proof_format)
  require (length public_inputs == 4) (verifier VerifierError.invalid_public_inputs)
  require
      (build.groth16_verify (sub proof_bytes 0 64) (sub proof_bytes 64 128) (sub proof_bytes 192 64)
        public_inputs)
      (verifier VerifierError.proof_verification_failed)

-- `verify_and_store` under the `init` constraint of its two contexts: the account of the seeds
-- must not be there. The public inputs are the four that the array type fixes.
module _ (build : Build) where
  unfoldable pub verify_and_store :
      Pubkey → ℤ → Bytes → Bytes → Bytes → Bytes → Bytes → Bytes → Verifier → Result Verifier
  verify_and_store wallet now proof_bytes i0 i1 i2 i3 nonce s = do
    require (elim (lookup s.results (wallet, nonce)) [ none ↦ true | some a ↦ false ])
        (framework FrameworkError.account_in_use)
    require (not build.request_bound_v1) (verifier VerifierError.unsupported_proof_generation)
    require (not (bytes_eq nonce (zeros 32))) (verifier VerifierError.invalid_nonce)
    require (not (bytes_eq i0 (zeros 32))) (verifier VerifierError.invalid_public_inputs)
    require (not (bytes_eq i1 (zeros 32))) (verifier VerifierError.invalid_public_inputs)
    threshold ← decode_u16_from_field_element i2
    min_distance ← decode_u16_from_field_element i3
    validate_hamming_bounds threshold min_distance
    check_proof build proof_bytes (i0 ∷ i1 ∷ i2 ∷ i3 ∷ [])
    let result : VerificationResult = record {
      verifier = wallet;
      proof_hash = proof_hash proof_bytes;
      verified_at = now;
      is_valid = true;
      challenge_nonce = nonce;
      bump = build.result_bump (wallet, nonce);
      commitment_new = i0;
      commitment_prev = i1;
      threshold = threshold;
      min_distance = min_distance;
    }
    ok (record s {
      results = ((wallet, nonce), result) ∷ s.results;
      events = verification_complete wallet true nonce ∷ s.events;
    })

  -- `try_into` of a vector: four inputs or an error.
  unfoldable pub verify_proof : Pubkey → ℤ → Bytes → List Bytes → Bytes → Verifier → Result Verifier
  verify_proof wallet now proof_bytes (i0 ∷ i1 ∷ i2 ∷ i3 ∷ []) nonce s =
      verify_and_store wallet now proof_bytes i0 i1 i2 i3 nonce s
  verify_proof wallet now proof_bytes public_inputs nonce s =
      require (elim (lookup s.results (wallet, nonce)) [ none ↦ true | some a ↦ false ])
        (framework FrameworkError.account_in_use)
      >> err (verifier VerifierError.invalid_public_inputs)

  unfoldable pub verify_proof_compact :
      Pubkey → ℤ → Bytes → Bytes → Bytes → Bytes → ℕ → ℕ → Verifier → Result Verifier
  verify_proof_compact wallet now nonce proof_bytes commitment_new commitment_prev threshold
        min_distance s =
      verify_and_store wallet now proof_bytes commitment_new commitment_prev
        (encode_u16_field_element threshold) (encode_u16_field_element min_distance) nonce s
