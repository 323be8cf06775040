-- ===== src/Update/Tests.antt =====
-- A wallet that updates its identity with a stored result, and one that answers a request.
mod Request
use protocol_core.Base.{
  ℕ, ◌+◌, ◌≤◌, ◌<◌, ◌^◌, ◌≡◌, ◌≢◌, refl, true, false, none, some, ◌∷◌, arith, replicate, Result, ok,
  err, length,
}
use protocol_core.Base.Int.{
  pos, saturating_sub, checked_sub, ◌+ℤ◌, ◌-ℤ◌, ◌≤ℤ◌, as_u64, as_i64, div_trunc,
}
use protocol_core.Base.Words.{
  to_le_bytes, to_be_bytes, from_le_bytes, i64_to_le_bytes, i64_from_le_bytes,
}
use protocol_core.Base.Bytes.{bytes_eq, sub, put, nth, zeros, resize}
use protocol_core.Base.Concat.{concat}
use protocol_core.Chain.Sample.{key, move, credit, debit, sweep}
use protocol_core.Request.{
  BoundVerificationResult, encode, is_refused, canonical_scalar, bytes_lt, request_digest,
  read_counter, is_request_state,
}
use protocol_core.Score.{
  total_score, active_bins, base_score, bin_index, age_days, age_bonus, isqrt,
}
use protocol_core.Ring.{record_verification, opens_new_bin, shift}
use protocol_core.Receipt.Policy.{
  is_configured, accepts, read_u16, stored_policy, read_projection_policy,
  read_validator_key_policy, validate_identity_projection,
}
use protocol_core.Receipt.Instruction.{
  contains, check_header, parse, preceding, load_preceding_ed25519_receipt,
}
use protocol_core.Receipt.Digest.{
  is_zero_digest, build_update_receipt_v4_preimage, compute_update_receipt_v4_digest,
  verify_update_receipt_digest,
}
use protocol_core.Update.Sample.{
  wallet, before, result, request_state, world, receipt, sample_hash, sample_environment,
}
use protocol_core.Update.State.{Environment, Anchor, Account, IdentityState}
use protocol_core.Update.Proofs.{
  Checked, check_address, unbound_result, bound_result, action_of, is_in_time, advance,
  verification_result_discriminator,
}
use protocol_core.Update.Proofs.Laws.{unbound_result_lem}
use protocol_core.Update.Proofs.Bound.{bound_result_lem}
use protocol_core.Update.Proofs.Accepts.{unbound_result-serialize_result}
use protocol_core.Verifier.State.{VerificationResult}
use protocol_core.Verifier.Layout.{HasSizes, serialize_result}
use protocol_core.Update.Identity.{update_identity}
use protocol_core.Update.Identity.Laws.{update_identity_lem}
use protocol_core.Update.Handler.{
  transfer, grow, read_settings, check_commitments, close_verification_result_cpi, check_result,
  pay_fee, finish, emit_receipt_session, process_anchor_update,
}
use protocol_core.Update.Handler.Laws.{IsUpdate, process_anchor_update_lem}
use protocol_core.Update.Handler.Once.{process_anchor_update_once}

abbrev accepted : Checked
accepted = record {
  commitment_new = key 5;
  commitment_prev = key 6;
  bound_nonce = none;
  request_bytes = request_state.data_bytes;
}

unbound_ok :
    unbound_result sample_environment wallet (pos 999600) result request_state.data_bytes
    ≡ ok accepted
unfolding unbound_result bytes_eq sub nth check_address i64_from_le_bytes from_le_bytes as_i64
    saturating_sub
unbound_ok = refl

unbound_result_lem_test :
    (result.owner ≡ key 31)
    × (182 ≤ length result.data_bytes)
    × (sub result.data_bytes 8 32 ≡ wallet)
    × (sub result.data_bytes 81 32 ≢ zeros 32)
    × (sample_environment.result_key wallet
          (sub result.data_bytes 81 32)
          (nth result.data_bytes 113)
        ≡ some result.key)
    × (i64_from_le_bytes (sub result.data_bytes 72 8) ≤ℤ pos 999600)
    × (pos 999600 ≤ℤ i64_from_le_bytes (sub result.data_bytes 72 8) +ℤ pos 600)
    × (accepted ≡ record {
      commitment_new = sub result.data_bytes 114 32;
      commitment_prev = sub result.data_bytes 146 32;
      bound_nonce = none;
      request_bytes = request_state.data_bytes;
    })
unbound_result_lem_test =
    unbound_result_lem sample_environment wallet (pos 999600) result request_state.data_bytes
      unbound_ok

abbrev after : Anchor → Result Anchor → Anchor
after w (ok t) = t
after w (err e) = w

abbrev updated : Anchor
updated =
    after world
      (process_anchor_update sample_environment wallet (pos 1000000) receipt none false world)

updated_ok :
    process_anchor_update sample_environment wallet (pos 1000000) receipt none false world
    ≡ ok updated
unfolding process_anchor_update grow transfer read_settings check_result check_commitments finish
    close_verification_result_cpi pay_fee emit_receipt_session update_identity unbound_result
    bytes_eq sub nth put resize check_address i64_from_le_bytes from_le_bytes as_i64 saturating_sub
    read_projection_policy stored_policy read_u16 validate_identity_projection
    read_validator_key_policy verify_update_receipt_digest load_preceding_ed25519_receipt
    is_configured preceding check_header parse contains accepts compute_update_receipt_v4_digest
    build_update_receipt_v4_preimage is_zero_digest concat to_le_bytes i64_to_le_bytes as_u64
    record_verification opens_new_bin shift total_score active_bins base_score bin_index age_days
    age_bonus isqrt checked_sub ◌-ℤ◌ div_trunc move credit debit sweep
updated_ok = refl

process_anchor_update_lem_example :
    IsUpdate sample_environment wallet (pos 1000000) receipt false world updated
process_anchor_update_lem_example =
    process_anchor_update_lem sample_environment wallet (pos 1000000) receipt none false world
      updated_ok

process_anchor_update_once_example :
    process_anchor_update sample_environment wallet (pos 1000001) receipt none false updated
    ≢ ok updated
process_anchor_update_once_example =
    process_anchor_update_once sample_environment sample_environment wallet wallet (pos 1000000)
      (pos 1000001) receipt receipt none none false false world updated updated updated_ok
      (ground arith)

abbrev after_bound : Checked
after_bound = record {
  commitment_new = key 5;
  commitment_prev = key 6;
  bound_nonce = some (key 9);
  request_bytes = put request_state.data_bytes 41 (8 ∷ zeros 7);
}

-- The build with the feature.
abbrev bound_environment : Environment
bound_environment = record sample_environment { request_bound_v1 = true }

abbrev bound_account : Account
bound_account = record { key = key 41; owner = key 31; data_bytes = zeros 198 }

bound_ok :
    bound_result bound_environment wallet (pos 1000000) (key 34) before bound_account request_state
    ≡ ok after_bound
unfolding bound_result bytes_eq sub nth put check_address read_counter is_request_state
    from_le_bytes is_in_time as_u64 request_digest encode is_refused canonical_scalar bytes_lt
    action_of concat to_be_bytes to_le_bytes advance
bound_ok = refl

bound_result_lem_example :
    (r : BoundVerificationResult) × (bound_environment.deserialize_bound bound_account.data_bytes
      ≡ some r)
    × (bound_account.owner ≡ key 31)
    × (r.wallet ≡ wallet)
    × (bound_environment.bound_result_key wallet r.nonce r.bump ≡ some bound_account.key)
    × (request_digest sample_hash
          (key 33)
          (key 31)
          (key 32)
          wallet
          r.nonce
          (action_of (key 34) before r r.counter)
        ≡ some r.request_digest)
    × (is_in_time (pos 1000000) r ≡ true)
    × (read_counter sample_hash request_state.data_bytes wallet 251 ≡ some r.counter)
    × (read_counter sample_hash after_bound.request_bytes wallet 251 ≡ some (r.counter + 1))
    × (key 5 ≡ r.commitment_new)
    × (key 6 ≡ r.commitment_prev)
bound_result_lem_example =
    bound_result_lem bound_environment wallet (pos 1000000) (key 34) before bound_account
      request_state bound_ok

abbrev moved : IdentityState
moved = record before {
  current_commitment = key 5;
  verification_count = 1;
  last_verification_timestamp = pos 1000000;
  recent_timestamps = pos 1000000 ∷ replicate 51 (pos 0);
  trust_score = 112;
}

moved_ok : update_identity 100 10000 (pos 1000000) (key 5) before ≡ ok moved
unfolding update_identity record_verification opens_new_bin shift total_score active_bins base_score
    bin_index age_days age_bonus isqrt checked_sub ◌-ℤ◌ div_trunc as_u64 saturating_sub
moved_ok = refl

update_identity_lem_test :
    (score : ℕ) × (total_score 100 10000
        (pos 1000000)
        (pos 136000)
        (record_verification before.recent_timestamps (pos 1000000))
      ≡ some score)
    × (moved ≡ record before {
      current_commitment = key 5;
      verification_count = 0 + 1;
      last_verification_timestamp = pos 1000000;
      recent_timestamps = record_verification before.recent_timestamps (pos 1000000);
      trust_score = score;
    })
    × (score ≤ 10000)
    × (0 + 1 < 2 ^ 32)
update_identity_lem_test = update_identity_lem 100 10000 (pos 1000000) (key 5) before moved_ok

-- The verifier's account of the same result, as the verifier's program holds it.
abbrev held : VerificationResult
held = record {
  verifier = wallet;
  proof_hash = zeros 32;
  verified_at = pos 999500;
  is_valid = true;
  challenge_nonce = key 9;
  bump = 254;
  commitment_new = key 5;
  commitment_prev = key 6;
  threshold = 96;
  min_distance = 3;
}

held-HasSizes : HasSizes held
held-HasSizes = record {
  verifier_size = refl;
  hash_size = refl;
  nonce_size = refl;
  new_size = refl;
  prev_size = refl;
}

unbound_result-serialize_result_example :
    unbound_result sample_environment wallet
      (pos 1000000)
      (record {
        key = key 40;
        owner = key 31;
        data_bytes = serialize_result verification_result_discriminator held;
      })
      request_state.data_bytes
    ≡ ok accepted
unfolding ◌+ℤ◌
unbound_result-serialize_result_example =
    unbound_result-serialize_result sample_environment (pos 1000000) (key 40)
      request_state.data_bytes held held-HasSizes (omega arith) (omega arith) (ground arith) refl
      refl (omega arith) (omega arith)
