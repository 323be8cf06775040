-- ===== src/Verifier/Bound.antt =====
-- programs/entros-verifier/src/bound.rs: the proof that is bound to a request, with the feature
-- `request-bound-v1`. The two accounts that it reads belong to the anchor program.
pub mod Laws
use protocol_core.Base.{
  ℕ, suc, ◌+◌, ◌^◌, ◌≡◌, Bool, true, false, not, ◌&&◌, Option, none, some, List, [], ◌∷◌, length,
  ltb, leb, ◌==◌, if◌then◌else◌, Result, ok, err, verifier, framework, VerifierError,
  FrameworkError, require, ◌>>=◌, ◌>>◌, ok_or, take,
}
use protocol_core.Base.Int.{ℤ, pos, negsuc}
use protocol_core.Base.Words.{Bytes, from_le_bytes}
use protocol_core.Base.Bytes.{bytes_eq, sub, nth, zeros}
use protocol_core.Chain.{Pubkey}
use protocol_core.Request.{
  Action, BoundVerificationResult, generation, max_request_lifetime, request_digest, digest_limbs,
  read_counter,
}
use protocol_core.Verifier.State.{Verifier, Build, lookup}
use protocol_core.Verifier.Proof.{validate_hamming_bounds, encode_u16_field_element}

-- An account of another program.
pub record Foreign : Type 0 where
  pub key : Pubkey
  pub owner : Pubkey
  pub data_bytes : Bytes

-- The program ids, the deployment's domain, the anchor program's addresses with their bumps, and
-- the hash.
pub record Context : Type 0 where
  pub verifier_id : Pubkey
  pub anchor_id : Pubkey
  pub deployment_domain : Bytes
  pub identity_key : Pubkey → Pubkey
  pub identity_bump : Pubkey → ℕ
  pub mint_key : Pubkey → Pubkey
  pub request_state_key : Pubkey → Pubkey
  pub request_state_bump : Pubkey → ℕ
  pub hash : Bytes → Bytes

-- The instruction's arguments.
pub record Arguments : Type 0 where
  pub nonce : Bytes
  pub proof_bytes : Bytes
  pub commitment_new : Bytes
  pub commitment_prev : Bytes
  pub threshold : ℕ
  pub min_distance : ℕ
  pub valid_until : ℕ

-- "account:IdentityState"
abbrev pub identity_state_name : Bytes
identity_state_name =
    97 ∷ 99 ∷ 99 ∷ 111 ∷ 117 ∷ 110 ∷ 116 ∷ 58 ∷ 73 ∷ 100 ∷ 101 ∷ 110 ∷ 116 ∷ 105 ∷ 116 ∷ 121 ∷ 83
    ∷ 116 ∷ 97 ∷ 116 ∷ 101 ∷ []

-- `u64::try_from` of the clock.
unfoldable pub now_u64 : ℤ → Result ℕ
now_u64 (pos n) = ok n
now_u64 (negsuc n) = err (verifier VerifierError.challenge_expired)

-- The deadline lies in the next 300 seconds.
unfoldable pub require_deadline : ℤ → ℕ → Result (Unit {0})
unfolding now_u64
require_deadline now valid_until = do
  n ← now_u64 now
  in_window ←
      if leb n valid_until && ltb 0 valid_until
      then (if ltb (n + max_request_lifetime) (2 ^ 64)
          then ok (leb valid_until (n + max_request_lifetime))
          else err (verifier VerifierError.arithmetic_overflow))
      else ok false
  require in_window (verifier VerifierError.challenge_expired)

unfoldable pub is_identity : Context → Pubkey → Bytes → Bytes → Bool
is_identity ctx wallet prev d =
    (length d == 593)
    && bytes_eq (take 8 d) (take 8 (ctx.hash identity_state_name))
    && bytes_eq (sub d 8 32) wallet
    && bytes_eq (sub d 62 32) prev
    && (nth d 126 == ctx.identity_bump wallet)

unfoldable pub is_at : Context → Foreign → Pubkey → Bool
is_at ctx account key = bytes_eq account.key key && bytes_eq account.owner ctx.anchor_id

unfoldable pub action_of : Foreign → Arguments → Bytes → ℕ → Action
action_of identity args mint counter = record {
  identity = identity.key;
  mint = mint;
  counter = counter;
  projection = from_le_bytes (sub identity.data_bytes 583 2);
  commitment_new = args.commitment_new;
  commitment_prev = args.commitment_prev;
  threshold = args.threshold;
  min_distance = args.min_distance;
  valid_until = args.valid_until;
}

unfoldable pub check_bound_proof : Build → Arguments → Bytes → Result (Unit {0})
check_bound_proof build args digest =
    require
      (build.groth16_verify_bound (sub args.proof_bytes 0 64) (sub args.proof_bytes 64 128)
        (sub args.proof_bytes 192 64)
        (args.commitment_new
          ∷ args.commitment_prev
          ∷ encode_u16_field_element args.threshold
          ∷ encode_u16_field_element args.min_distance
          ∷ (digest_limbs digest).0
          ∷ (digest_limbs digest).1
          ∷ []))
      (verifier VerifierError.proof_verification_failed)

unfoldable pub verify_proof_bound :
    Build → Context → Pubkey → ℤ → Arguments → Foreign → Foreign → Verifier → Result Verifier
verify_proof_bound build ctx wallet now args identity request_state s = do
  require (elim (lookup s.bound_results (wallet, args.nonce)) [ none ↦ true | some a ↦ false ])
      (framework FrameworkError.account_in_use)
  require (is_at ctx identity (ctx.identity_key wallet))
      (framework FrameworkError.constraint_violated)
  require (is_at ctx request_state (ctx.request_state_key wallet))
      (framework FrameworkError.constraint_violated)
  require build.request_bound_v1 (verifier VerifierError.unsupported_proof_generation)
  require (not (bytes_eq args.nonce (zeros 32))) (verifier VerifierError.invalid_nonce)
  require_deadline now args.valid_until
  validate_hamming_bounds args.threshold args.min_distance
  require
      (not (bytes_eq args.commitment_new (zeros 32))
        && not (bytes_eq args.commitment_prev (zeros 32)))
      (verifier VerifierError.invalid_public_inputs)
  require (is_identity ctx wallet args.commitment_prev identity.data_bytes)
      (verifier VerifierError.invalid_request_context)
  let mint : Bytes = sub identity.data_bytes 94 32
  require (bytes_eq mint (ctx.mint_key wallet)) (verifier VerifierError.invalid_request_context)
  counter ←
      ok_or (read_counter ctx.hash request_state.data_bytes wallet (ctx.request_state_bump wallet))
        (verifier VerifierError.invalid_request_context)
  digest ←
      ok_or
        (request_digest ctx.hash ctx.deployment_domain ctx.verifier_id ctx.anchor_id wallet
          args.nonce (action_of identity args mint counter))
        (verifier VerifierError.invalid_public_inputs)
  check_bound_proof build args digest
  let result : BoundVerificationResult = record {
    version = generation;
    wallet = wallet;
    nonce = args.nonce;
    commitment_new = args.commitment_new;
    commitment_prev = args.commitment_prev;
    threshold = args.threshold;
    min_distance = args.min_distance;
    counter = counter;
    valid_until = args.valid_until;
    verified_at = now;
    request_digest = digest;
    bump = build.bound_result_bump (wallet, args.nonce);
  }
  ok (record s { bound_results = ((wallet, args.nonce), result) ∷ s.bound_results })
