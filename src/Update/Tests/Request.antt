-- ===== src/Update/Tests/Request.antt =====
-- A wallet's identity account as bytes, and a request that both programs see.
use protocol_core.Base.{◌≡◌, refl, true, some, ◌∷◌, [], take, arith, Result, ok, err}
use protocol_core.Base.Int.{pos}
use protocol_core.Base.Words.{Bytes, to_le_bytes, from_le_bytes, i64_to_le_bytes}
use protocol_core.Base.Bytes.{bytes_eq, sub, put, nth, zeros}
use protocol_core.Base.Concat.{concat}
use protocol_core.Chain.Sample.{key}
use protocol_core.Request.{
  request_digest, encode, is_refused, canonical_scalar, bytes_lt, read_counter, is_request_state,
  digest_limbs,
}
use protocol_core.Verifier.State.{Verifier, Build, lookup}
use protocol_core.Verifier.Proof.{validate_hamming_bounds}
use protocol_core.Verifier.Bound.{
  Arguments, verify_proof_bound, require_deadline, is_identity, is_at, check_bound_proof, now_u64,
  identity_state_name,
}
use protocol_core.Verifier
use protocol_core.Update.State.{Environment, Account}
use protocol_core.Update.Layout.{
  ring_bytes, identity_parts, serialize_identity, deserialize_identity,
}
use protocol_core.Update.Layout.Laws.{deserialize-serialize_identity}
use protocol_core.Update.Sample.{
  wallet, before, before-IsIdentity, request_state, sample_hash, sample_environment, answer,
}
use protocol_core.Update.Proofs.{bound_result}
use protocol_core.Update.Proofs.Answers.{bound_result-verify_proof_bound, context_of, foreign}

abbrev environment : Environment
environment = record sample_environment { request_bound_v1 = true }

abbrev discriminator : Bytes
discriminator = take 8 (sample_hash identity_state_name)

abbrev bytes : Bytes
bytes = put (zeros 593) 0 (serialize_identity discriminator before)

deserialize-serialize_identity_example : deserialize_identity discriminator bytes ≡ some before
deserialize-serialize_identity_example =
    deserialize-serialize_identity discriminator before refl before-IsIdentity (zeros 593) refl

abbrev identity : Account
identity = record { key = key 34; owner = key 32; data_bytes = bytes }

abbrev build : Build
build = record {
  request_bound_v1 = true;
  challenge_bump = λ s. 255;
  result_bump = λ s. 254;
  bound_result_bump = λ s. 253;
  groth16_verify = λ a b c inputs. true;
  groth16_verify_bound = λ a b c inputs. true;
}

abbrev arguments : Arguments
arguments = record {
  nonce = key 9;
  proof_bytes = zeros 256;
  commitment_new = key 5;
  commitment_prev = key 6;
  threshold = 96;
  min_distance = 3;
  valid_until = 1000200;
}

abbrev empty : Verifier
empty = record { challenges = []; results = []; bound_results = []; events = [] }

abbrev after : Result Verifier → Verifier
after (ok t) = t
after (err e) = empty

abbrev answered : Verifier
answered = after (
    verify_proof_bound build (context_of environment) wallet (pos 999900) arguments
      (foreign identity) (foreign request_state) empty)

answered_ok :
    verify_proof_bound build
      (context_of environment)
      wallet
      (pos 999900)
      arguments
      (foreign identity)
      (foreign request_state)
      empty
    ≡ ok answered
unfolding verify_proof_bound lookup is_at bytes_eq require_deadline now_u64 validate_hamming_bounds
    is_identity sub nth put read_counter is_request_state from_le_bytes request_digest encode
    is_refused canonical_scalar bytes_lt Verifier.Bound.action_of check_bound_proof digest_limbs
    serialize_identity identity_parts ring_bytes concat i64_to_le_bytes to_le_bytes
answered_ok = refl

stored : answered.bound_results ≡ ((wallet, key 9), answer) ∷ []
unfolding verify_proof_bound lookup is_at bytes_eq require_deadline now_u64 validate_hamming_bounds
    is_identity sub nth put read_counter is_request_state from_le_bytes request_digest encode
    is_refused canonical_scalar bytes_lt Verifier.Bound.action_of check_bound_proof digest_limbs
    serialize_identity identity_parts ring_bytes concat i64_to_le_bytes to_le_bytes
stored = refl

reads : deserialize_identity discriminator identity.data_bytes ≡ some before
reads = deserialize-serialize_identity discriminator before refl before-IsIdentity (zeros 593) refl

abbrev account : Account
account = record { key = key 41; owner = key 31; data_bytes = zeros 198 }

bound_result-verify_proof_bound_example :
    bound_result environment wallet (pos 1000000) (key 34) before account request_state
    ≡ ok (record {
      commitment_new = key 5;
      commitment_prev = key 6;
      bound_nonce = some (key 9);
      request_bytes = put request_state.data_bytes 41 (to_le_bytes 8 8);
    })
bound_result-verify_proof_bound_example =
    bound_result-verify_proof_bound build environment discriminator wallet (pos 999900) 1000000
      arguments identity request_state account empty answer before answered_ok stored refl reads
      refl refl refl refl (omega arith) (omega arith) (omega arith)
