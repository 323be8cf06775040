-- ===== src/Recovery/Tests.antt =====
-- A wallet that resets its identity, one that rebaselines it, and one that stores its baseline.
use protocol_core.Base.{
  ◌≡◌, refl, true, false, none, some, [], ◌∷◌, replicate, take, Result, ok, err,
}
use protocol_core.Base.Int.{pos, saturating_sub, ◌-ℤ◌, as_u64, as_i64}
use protocol_core.Base.Words.{to_le_bytes, from_le_bytes, i64_to_le_bytes, i64_from_le_bytes}
use protocol_core.Base.Bytes.{bytes_eq, sub, put, nth, resize}
use protocol_core.Base.Concat.{concat}
use protocol_core.Chain.Sample.{key, move, credit, debit}
use protocol_core.Request.{read_counter, is_request_state}
use protocol_core.Receipt.Policy.{
  is_configured, accepts, read_u16, stored_policy, read_projection_policy,
  read_validator_key_policy, validate_requested_projection,
}
use protocol_core.Receipt.Instruction.{
  contains, check_header, parse, preceding, load_preceding_ed25519_receipt,
}
use protocol_core.Receipt.Payload.{
  ReceiptPurpose, purpose_byte, is_mint, parse_v1, parse_v2_v3, parse_message, parse_session,
  verify_receipt_payload, verify_validator_receipt,
}
use protocol_core.Counter
use protocol_core.Counter.{fund, initial_bytes, create}
use protocol_core.Update.State.{Environment, Anchor, encrypted_baseline_set}
use protocol_core.Update.Layout.{
  ring_bytes, read_ring, identity_parts, serialize_identity, view_identity, deserialize_identity,
}
use protocol_core.Update.Handler.{transfer, grow, pay_fee, emit_receipt_session}
use protocol_core.Update.Sample.{
  wallet, before, config_v1, request_state, world, layout_environment, tag, receipt_message,
  signed_message,
}
use protocol_core.Recovery.Shared.{
  Remaining, advance_counter, take_counter, read_fees, require_nonzero,
}
use protocol_core.Recovery.Reset.{
  split_last, take_last_counter, require_sysvar, reset_identity, finish_reset, reset_identity_state,
}
use protocol_core.Recovery.Reset.Laws.{IsReset, reset_identity_state_lem}
use protocol_core.Recovery.Rebaseline.{rebaseline_identity, finish_rebaseline, rebaseline_anchor}
use protocol_core.Recovery.Rebaseline.Laws.{IsRebaseline, rebaseline_anchor_lem}
use protocol_core.Recovery.Baseline.{Baselines, init_if_needed, set_encrypted_baseline}

-- The build with the feature, and a transaction with a receipt for this purpose.
abbrev bound_with : ReceiptPurpose → Environment
bound_with purpose = record layout_environment {
  request_bound_v1 = true;
  sysvar = signed_message (receipt_message purpose wallet (key 5) (pos 999900));
}

abbrev counter_account : Remaining
counter_account = record { account = request_state; is_writable = true }

abbrev sysvar_account : Remaining
sysvar_account = record {
  account = record { key = key 38; owner = key 39; data_bytes = [] };
  is_writable = false;
}

-- An identity of the layout before the last two fields, and the configuration with version 1.
abbrev start : Anchor
start = record world {
  identity = record {
    key = key 34;
    owner = key 32;
    data_bytes = take 583 (serialize_identity tag before);
  };
  config = config_v1;
}

abbrev after : Result Anchor → Anchor
after (ok t) = t
after (err e) = start

abbrev reset_state : Anchor
reset_state = after (
    reset_identity_state (bound_with ReceiptPurpose.reset) wallet (pos 1000000) (key 5) 1
      (sysvar_account ∷ counter_account ∷ []) start)

reset_ok :
    reset_identity_state
      (bound_with ReceiptPurpose.reset)
      wallet
      (pos 1000000)
      (key 5)
      1
      (sysvar_account ∷ counter_account ∷ [])
      start
    ≡ ok reset_state
unfolding reset_identity_state take_last_counter split_last advance_counter Counter.advance create
    fund initial_bytes read_counter is_request_state require_nonzero grow transfer read_fees
    validate_requested_projection require_sysvar finish_reset reset_identity pay_fee
    emit_receipt_session bytes_eq sub nth put resize i64_from_le_bytes from_le_bytes as_i64
    saturating_sub read_projection_policy stored_policy read_u16 read_validator_key_policy
    verify_validator_receipt load_preceding_ed25519_receipt is_configured preceding check_header
    parse contains accepts verify_receipt_payload parse_message parse_v1 parse_v2_v3 parse_session
    purpose_byte is_mint concat to_le_bytes i64_to_le_bytes as_u64 ◌-ℤ◌ move credit debit ring_bytes
    read_ring identity_parts serialize_identity view_identity deserialize_identity
reset_ok = refl

reset_identity_state_lem_example :
    IsReset
      (bound_with ReceiptPurpose.reset)
      wallet
      (pos 1000000)
      (key 5)
      1
      (sysvar_account ∷ counter_account ∷ [])
      start
      reset_state
reset_identity_state_lem_example =
    reset_identity_state_lem (bound_with ReceiptPurpose.reset) wallet (pos 1000000) (key 5) 1
      (sysvar_account ∷ counter_account ∷ []) start reset_ok

abbrev rebaselined : Anchor
rebaselined = after (
    rebaseline_anchor (bound_with ReceiptPurpose.rebaseline) wallet (pos 1000000) (key 5) 1
      (counter_account ∷ []) start)

rebaseline_ok :
    rebaseline_anchor
      (bound_with ReceiptPurpose.rebaseline)
      wallet
      (pos 1000000)
      (key 5)
      1
      (counter_account ∷ [])
      start
    ≡ ok rebaselined
unfolding rebaseline_anchor take_counter advance_counter Counter.advance create fund initial_bytes
    read_counter is_request_state require_nonzero grow transfer read_fees
    validate_requested_projection finish_rebaseline rebaseline_identity pay_fee emit_receipt_session
    bytes_eq sub nth put resize i64_from_le_bytes from_le_bytes as_i64 saturating_sub
    read_projection_policy stored_policy read_u16 read_validator_key_policy verify_validator_receipt
    load_preceding_ed25519_receipt is_configured preceding check_header parse contains accepts
    verify_receipt_payload parse_message parse_v1 parse_v2_v3 parse_session purpose_byte is_mint
    concat to_le_bytes i64_to_le_bytes as_u64 ◌-ℤ◌ move credit debit ring_bytes read_ring
    identity_parts serialize_identity view_identity deserialize_identity
rebaseline_ok = refl

rebaseline_anchor_lem_example :
    IsRebaseline
      (bound_with ReceiptPurpose.rebaseline)
      wallet
      (pos 1000000)
      (key 5)
      1
      (counter_account ∷ [])
      start
      rebaselined
rebaseline_anchor_lem_example =
    rebaseline_anchor_lem (bound_with ReceiptPurpose.rebaseline) wallet (pos 1000000) (key 5) 1
      (counter_account ∷ []) start rebaseline_ok

-- A wallet with an identity and no baseline yet.
abbrev bare : Baselines
bare = record {
  identity_state = start.identity;
  key = key 39;
  encrypted_baseline = none;
  ledger = λ k. 1000000;
  events = [];
}

abbrev stored : Baselines
stored = record bare {
  encrypted_baseline = some (record { blob = replicate 96 8; bump = 250 });
  events = encrypted_baseline_set wallet ∷ [];
}

stored_ok : set_encrypted_baseline layout_environment wallet (replicate 96 8) bare ≡ ok stored
unfolding set_encrypted_baseline init_if_needed serialize_identity concat i64_to_le_bytes
    to_le_bytes ring_bytes
stored_ok = refl
