-- ===== src/Verifier/Tests.antt =====
-- A build whose proof check accepts, and the accounts that a wallet gets from it.
use protocol_core.Base.{
  ℕ, ◌≤◌, ◌<◌, ◌≡◌, ◌↔◌, refl, true, false, none, some, List, [], ◌∷◌, ◌++◌, arith, replicate, take,
  ok,
}
use protocol_core.Base.Int.{pos}
use protocol_core.Base.Words.{Bytes, from_be_bytes, from_le_bytes}
use protocol_core.Base.Bytes.{bytes_eq, sub, nth, zeros}
use protocol_core.Chain.{Pubkey}
use protocol_core.Chain.Sample.{key}
use protocol_core.Request.{
  encode, is_refused, canonical_scalar, bytes_lt, request_digest, digest_limbs, read_counter,
  is_request_state, proof_request_state_name, BoundVerificationResult,
}
use protocol_core.Verifier.State.{
  Verifier, Challenge, VerificationResult, Build, lookup, remove, seeds_eq,
}
use protocol_core.Verifier.Challenges.{close_challenge}
use protocol_core.Verifier.Challenges.Laws.{close_challenge_iff}
use protocol_core.Verifier.Proof.{
  require_zeros, decode_u16_from_field_element, encode_u16_field_element, validate_hamming_bounds,
  verify_and_store, check_proof, rotate_left_3, xor, hash_from, proof_hash,
}
use protocol_core.Verifier.Proof.Bounds.{decode-encode_u16, validate_hamming_bounds_iff}
use protocol_core.Verifier.Bound.{
  Context, Arguments, Foreign, verify_proof_bound, require_deadline, is_identity, is_at, action_of,
  check_bound_proof, now_u64, identity_state_name,
}
use protocol_core.Verifier.Bound.Laws.{IsBound, verify_proof_bound_lem}
use protocol_core.Verifier.Calls.{Call, create, verify_compact, close_result, after, run}
use protocol_core.Verifier.Calls.Attested.{Each, IsAttested, verify_and_store_lem}
use protocol_core.Verifier.Calls.Invariant.{IsSound, run-IsSound}
use protocol_core.Verifier.Calls.Isolation.{IsOthers, run_apart}

abbrev sample_build : Build
sample_build = record {
  request_bound_v1 = false;
  challenge_bump = λ s. 255;
  result_bump = λ s. 254;
  bound_result_bump = λ s. 253;
  groth16_verify = λ a b c inputs. true;
  groth16_verify_bound = λ a b c inputs. true;
}

abbrev sample_context : Context
sample_context = record {
  verifier_id = key 31;
  anchor_id = key 32;
  deployment_domain = key 33;
  identity_key = λ w. key 34;
  identity_bump = λ w. 252;
  mint_key = λ w. key 35;
  request_state_key = λ w. key 36;
  request_state_bump = λ w. 251;
  hash = λ bs. take 32 (bs ++ zeros 32);
}

abbrev empty : Verifier
empty = record { challenges = []; results = []; bound_results = []; events = [] }

-- A wallet stores a result for the nonce key 9.
abbrev wallet : Pubkey
wallet = key 1

abbrev proof : Bytes
proof = replicate 256 3

abbrev field_element : ℕ → Bytes
field_element n = zeros 31 ++ (n ∷ [])

abbrev stored : Verifier
stored = after empty (
    verify_and_store sample_build wallet (pos 1000) proof (key 5) (key 6) (field_element 96)
      (field_element 3) (key 9) empty)

stored_ok :
    verify_and_store sample_build wallet
      (pos 1000)
      proof
      (key 5)
      (key 6)
      (field_element 96)
      (field_element 3)
      (key 9)
      empty
    ≡ ok stored
unfolding verify_and_store lookup bytes_eq decode_u16_from_field_element require_zeros sub
    from_be_bytes from_le_bytes validate_hamming_bounds check_proof proof_hash hash_from xor
    rotate_left_3
stored_ok = refl

verify_and_store_lem_example :
    (r : VerificationResult) × (stored.results ≡ ((wallet, key 9), r) ∷ [])
    × IsAttested sample_build (wallet, key 9) r
    × (lookup empty.results (wallet, key 9) ≡ none)
    × (stored.challenges ≡ [])
    × (stored.bound_results ≡ [])
    × (r.verified_at ≡ pos 1000)
    × (sample_build.request_bound_v1 ≡ false)
verify_and_store_lem_example =
    verify_and_store_lem sample_build wallet (pos 1000) proof (key 5) (key 6) (field_element 96)
      (field_element 3) (key 9) empty stored_ok

empty-IsSound : IsSound sample_build sample_context empty
unfolding Each
empty-IsSound = record { challenges_sound = tt; results_sound = tt; bound_results_sound = tt }

-- A wallet's challenge and result, and another wallet that closes neither.
abbrev calls : List Call
calls =
    create wallet (key 8) (pos 900)
    ∷ verify_compact wallet (pos 1000) (key 9) proof (key 5) (key 6) 96 3
    ∷ close_result (key 2) (wallet, key 9)
    ∷ []

run-IsSound_example :
    IsSound sample_build sample_context (run sample_build sample_context empty calls)
run-IsSound_example = run-IsSound sample_build sample_context calls empty empty-IsSound

-- What the other wallet does alone.
abbrev others : List Call
others = create (key 2) (key 9) (pos 900) ∷ close_result (key 2) (wallet, key 9) ∷ []

others-IsOthers : IsOthers wallet others
unfolding IsOthers
others-IsOthers = ground arith

abbrev owned : Verifier
owned = run sample_build sample_context empty calls

run_apart_example :
    lookup (run sample_build sample_context owned others).results (wallet, key 9)
    ≡ lookup owned.results (wallet, key 9)
run_apart_example =
    run_apart sample_build sample_context wallet (key 9) others owned
      (run-IsSound sample_build sample_context calls empty empty-IsSound) others-IsOthers

decode-encode_u16_test : decode_u16_from_field_element (encode_u16_field_element 96) ≡ ok 96
decode-encode_u16_test = decode-encode_u16 96 (omega arith)

validate_hamming_bounds_iff_test :
    (validate_hamming_bounds 96 3 ≡ ok tt) ↔ (96 ≤ 96) × (3 ≤ 3) × (3 < 96)
validate_hamming_bounds_iff_test = validate_hamming_bounds_iff 96 3

-- A challenge that is neither used nor expired, which its creator closes.
abbrev fresh : Challenge
fresh = record {
  challenger = wallet;
  nonce = key 8;
  created_at = pos 900;
  expires_at = pos 1200;
  used = false;
  bump = 255;
}

abbrev challenged : Verifier
challenged = record empty { challenges = ((wallet, key 8), fresh) ∷ [] }

close_challenge_iff_test : (close_challenge wallet (wallet, key 8) challenged ≡ ok empty) ↔ (
    (c : Challenge) × (lookup challenged.challenges (wallet, key 8) ≡ some c)
    × (c.challenger ≡ wallet)
    × (empty ≡ record challenged { challenges = remove challenged.challenges (wallet, key 8) }))
close_challenge_iff_test = close_challenge_iff wallet (wallet, key 8) challenged empty

closes_fresh : close_challenge wallet (wallet, key 8) challenged ≡ ok empty
unfolding close_challenge lookup remove seeds_eq bytes_eq
closes_fresh = refl

-- The build with the feature, and the anchor program's two accounts of the wallet.
abbrev bound_build : Build
bound_build = record sample_build { request_bound_v1 = true }

abbrev identity : Foreign
identity = record {
  key = key 34;
  owner = key 32;
  data_bytes =
      take 8 (sample_context.hash identity_state_name)
      ++ wallet
      ++ zeros 22
      ++ key 6
      ++ key 35
      ++ (252 ∷ [])
      ++ zeros 466;
}

abbrev request_state : Foreign
request_state = record {
  key = key 36;
  owner = key 32;
  data_bytes =
      take 8 (sample_context.hash proof_request_state_name)
      ++ (1 ∷ [])
      ++ wallet
      ++ (7 ∷ zeros 7)
      ++ (251 ∷ []);
}

abbrev arguments : Arguments
arguments = record {
  nonce = key 9;
  proof_bytes = proof;
  commitment_new = key 5;
  commitment_prev = key 6;
  threshold = 96;
  min_distance = 3;
  valid_until = 1200;
}

abbrev bound : Verifier
bound = after empty (
    verify_proof_bound bound_build sample_context wallet (pos 1000) arguments identity request_state
      empty)

bound_ok :
    verify_proof_bound bound_build sample_context wallet
      (pos 1000)
      arguments
      identity
      request_state
      empty
    ≡ ok bound
unfolding verify_proof_bound lookup is_at bytes_eq require_deadline now_u64 validate_hamming_bounds
    is_identity sub nth read_counter is_request_state from_le_bytes request_digest encode is_refused
    canonical_scalar bytes_lt action_of check_bound_proof digest_limbs
bound_ok = refl

verify_proof_bound_lem_example :
    (r : BoundVerificationResult) × (bound.bound_results ≡ ((wallet, key 9), r) ∷ [])
    × IsBound bound_build sample_context (wallet, key 9) r
    × (lookup empty.bound_results (wallet, key 9) ≡ none)
    × (bound.challenges ≡ [])
    × (bound.results ≡ [])
    × (read_counter sample_context.hash request_state.data_bytes wallet 251 ≡ some r.counter)
    × (is_identity sample_context wallet r.commitment_prev identity.data_bytes ≡ true)
    × (bound_build.request_bound_v1 ≡ true)
verify_proof_bound_lem_example =
    verify_proof_bound_lem bound_build sample_context wallet (pos 1000) arguments identity
      request_state empty bound_ok
