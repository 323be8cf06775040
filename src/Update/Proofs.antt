-- ===== src/Update/Proofs.antt =====
-- The two branches that read the verifier's result account.
pub mod Laws
pub mod Bound
pub mod Accepts
pub mod Answers
use protocol_core.Base.{
  ℕ, suc, ◌+◌, ◌^◌, ◌≡◌, Bool, true, false, not, ◌&&◌, Option, none, some, List, [], ◌∷◌, ◌++◌,
  length, take, leb, ltb, ◌==◌, if◌then◌else◌, Result, ok, err, entros_anchor, EntrosAnchorError,
  Error, require, ok_or, ◌>>=◌, ◌>>◌, panic,
}
use protocol_core.Base.Int.{ℤ, pos, leb_ℤ, saturating_sub, as_u64}
use protocol_core.Base.Words.{Bytes, to_le_bytes, i64_from_le_bytes}
use protocol_core.Base.Bytes.{bytes_eq, slice, index, write, zeros}
use protocol_core.Chain.{Pubkey}
use protocol_core.Request.{
  Action, BoundVerificationResult, generation, request_digest, read_counter,
}
use protocol_core.Update.State.{Environment, Account, IdentityState}

-- `MAX_PROOF_AGE_SECS`
abbrev pub max_proof_age_secs : ℕ
max_proof_age_secs = 600

abbrev pub verification_result_len_v2 : ℕ
verification_result_len_v2 = 182

abbrev pub verification_result_discriminator : Bytes
verification_result_discriminator = 104 ∷ 111 ∷ 80 ∷ 172 ∷ 219 ∷ 191 ∷ 162 ∷ 38 ∷ []

abbrev pub bound_len : ℕ
bound_len = 198

-- What either branch gives: the two commitments, the nonce of a bound result, and the request
-- counter's bytes, which only the bound branch changes.
pub record Checked : Type 0 where
  pub commitment_new : Bytes
  pub commitment_prev : Bytes
  pub bound_nonce : Option Bytes
  pub request_bytes : Bytes

abbrev pub anchor_error : EntrosAnchorError → Error
anchor_error e = entros_anchor e

-- The account of the nonce and bump that it states itself.
unfoldable pub check_address :
    (Pubkey → Bytes → ℕ → Option Pubkey) → Pubkey → Bytes → ℕ → Account → Result (Unit {0})
check_address derive wallet nonce bump account = do
  expected ←
      ok_or (derive wallet nonce bump)
        (anchor_error EntrosAnchorError.invalid_verification_result_pda)
  require (bytes_eq account.key expected)
      (anchor_error EntrosAnchorError.invalid_verification_result_pda)

unfoldable pub unbound_result : Environment → Pubkey → ℤ → Account → Bytes → Result Checked
unbound_result env wallet now account request_bytes = do
  require (not env.request_bound_v1) (anchor_error EntrosAnchorError.unsupported_proof_generation)
  require (bytes_eq account.owner env.verifier_id)
      (anchor_error EntrosAnchorError.verification_result_wrong_owner)
  let d = account.data_bytes
  require (leb verification_result_len_v2 (length d))
      (anchor_error EntrosAnchorError.stale_verification_result)
  discriminator ← slice d 0 8
  require (bytes_eq discriminator verification_result_discriminator)
      (anchor_error EntrosAnchorError.stale_verification_result)
  verifier ← slice d 8 32
  require (bytes_eq verifier wallet) (anchor_error EntrosAnchorError.verifier_mismatch)
  nonce ← slice d 81 32
  require (not (bytes_eq nonce (zeros 32)))
      (anchor_error EntrosAnchorError.invalid_verification_result_pda)
  bump ← index d 113
  check_address env.result_key wallet nonce bump account
  at ← slice d 72 8
  require (leb_ℤ (i64_from_le_bytes at) now) (anchor_error EntrosAnchorError.proof_from_future)
  require (leb_ℤ (saturating_sub now (i64_from_le_bytes at)) (pos max_proof_age_secs))
      (anchor_error EntrosAnchorError.proof_expired)
  commitment_new ← slice d 114 32
  commitment_prev ← slice d 146 32
  let checked : Checked = record {
    commitment_new = commitment_new;
    commitment_prev = commitment_prev;
    bound_nonce = none;
    request_bytes = request_bytes;
  }
  ok checked

-- The action that the identity and the result stand for.
unfoldable pub action_of : Pubkey → IdentityState → BoundVerificationResult → ℕ → Action
action_of identity_key identity r counter = record {
  identity = identity_key;
  mint = identity.mint;
  counter = counter;
  projection = identity.projection_version;
  commitment_new = r.commitment_new;
  commitment_prev = r.commitment_prev;
  threshold = r.threshold;
  min_distance = r.min_distance;
  valid_until = r.valid_until;
}

-- `now as u64` stands behind the test that the clock is not negative.
unfoldable pub is_in_time : ℤ → BoundVerificationResult → Bool
unfolding as_u64
is_in_time now r =
    leb_ℤ r.verified_at now
    && leb_ℤ (pos 0) now
    && leb (as_u64 now) r.valid_until
    && ltb 0 r.valid_until

-- `checked_add(1)` of the counter, written back to its bytes.
unfoldable pub advance : Bytes → ℕ → Result Bytes
advance d counter = do
  require (ltb (counter + 1) (2 ^ 64)) (anchor_error EntrosAnchorError.arithmetic_overflow)
  write d 41 (to_le_bytes 8 (counter + 1))

unfoldable pub bound_result :
    Environment → Pubkey → ℤ → Pubkey → IdentityState → Account → Account → Result Checked
bound_result env wallet now identity_key identity account request_state = do
  require env.request_bound_v1 (anchor_error EntrosAnchorError.unsupported_proof_generation)
  require (not (length account.data_bytes == 0))
      (anchor_error EntrosAnchorError.invalid_request_context)
  require (bytes_eq account.owner env.verifier_id)
      (anchor_error EntrosAnchorError.verification_result_wrong_owner)
  require (length account.data_bytes == bound_len)
      (anchor_error EntrosAnchorError.invalid_request_context)
  r ←
      ok_or (env.deserialize_bound account.data_bytes)
        (anchor_error EntrosAnchorError.invalid_request_context)
  require
      (bytes_eq request_state.key (env.request_state_key wallet)
        && bytes_eq request_state.owner env.id)
      (anchor_error EntrosAnchorError.invalid_request_context)
  counter ←
      ok_or (read_counter env.hash request_state.data_bytes wallet (env.request_state_bump wallet))
        (anchor_error EntrosAnchorError.invalid_request_context)
  require
      ((r.version == generation)
        && bytes_eq r.wallet wallet
        && (r.counter == counter)
        && not (bytes_eq r.nonce (zeros 32)))
      (anchor_error EntrosAnchorError.invalid_request_context)
  check_address env.bound_result_key wallet r.nonce r.bump account
  require (is_in_time now r) (anchor_error EntrosAnchorError.proof_expired)
  digest ←
      ok_or
        (request_digest env.hash env.deployment_domain env.verifier_id env.id wallet r.nonce
          (action_of identity_key identity r counter))
        (anchor_error EntrosAnchorError.invalid_request_context)
  require (bytes_eq r.request_digest digest)
      (anchor_error EntrosAnchorError.invalid_request_context)
  request_bytes ← advance request_state.data_bytes counter
  let checked : Checked = record {
    commitment_new = r.commitment_new;
    commitment_prev = r.commitment_prev;
    bound_nonce = some r.nonce;
    request_bytes = request_bytes;
  }
  ok checked
