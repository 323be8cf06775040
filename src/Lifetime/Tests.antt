-- ===== src/Lifetime/Tests.antt =====
-- An identity that is reset twice, with an upgrade of its layout and an authorization in between,
-- and one that is rebaselined twice.
mod Migration
use protocol_core.Base.{
  ℕ, ◌+◌, ◌≡◌, refl, false, List, [], ◌∷◌, arith, Result, ok, err, if◌then◌else◌,
}
use protocol_core.Base.Int.{pos, saturating_sub, ◌-ℤ◌, ◌+ℤ◌, ◌≤ℤ◌, as_u64, as_i64}
use protocol_core.Base.Words.{Bytes, to_le_bytes, from_le_bytes, i64_to_le_bytes, i64_from_le_bytes}
use protocol_core.Base.Bytes.{bytes_eq, sub, put, nth, resize}
use protocol_core.Base.Concat.{concat}
use protocol_core.Chain.Sample.{key, move, credit, debit}
use protocol_core.Receipt.Policy.{
  is_configured, accepts, read_u16, stored_policy, read_projection_policy,
  read_validator_key_policy, validate_requested_projection,
}
use protocol_core.Receipt.Instruction.{
  contains, check_header, parse, preceding, load_preceding_ed25519_receipt,
}
use protocol_core.Receipt.Payload.{
  ReceiptPurpose, purpose_byte, is_mint, parse_v1, parse_v2_v3, parse_message, parse_session,
  verify_receipt_payload, verify_validator_receipt,
}
use protocol_core.Update.State.{Anchor, Account, IdentityState}
use protocol_core.Update.Layout.{
  ring_bytes, read_ring, identity_parts, serialize_identity, view_identity, deserialize_identity,
}
use protocol_core.Update.Layout.Codec.{Codec, with_layout-Codec}
use protocol_core.Update.Handler.{transfer, grow, pay_fee, emit_receipt_session}
use protocol_core.Update.Sample.{
  wallet, before, before-IsIdentity, config_v1, request_state, world, sample_environment,
  layout_environment, tag, receipt_message, signed_message,
}
use protocol_core.Recovery.Shared.{take_counter, read_fees, require_nonzero}
use protocol_core.Recovery.Reset.{
  take_last_counter, require_sysvar, reset_identity, finish_reset, reset_identity_state,
}
use protocol_core.Recovery.Rebaseline.{rebaseline_identity, finish_rebaseline, rebaseline_anchor}
use protocol_core.Mint.State.{Store, load_identity, exit_identity, run_cpis, set_cell}
use protocol_core.Mint.State.Laws.{RuntimeLaws}
use protocol_core.Mint.Migrate.{check_token, authorize_new_wallet}
use protocol_core.Mint.Sample.{
  add_tokens, take_tokens, sample_invoke, sample_tokens, sample-RuntimeLaws, empty_world,
}
use protocol_core.Counter.{is_known_len, check_identity, fund, upgrade_identity_layout}
use protocol_core.Lifetime.{Transaction, Call, name_wallet, upgrade_layout, perform, exec, run}
use protocol_core.Lifetime.Ranges.{BoundSizes}
use protocol_core.Lifetime.Follows.{run-Follows}
use protocol_core.Lifetime.Held.{IsHeld, AnyNames, Follows, AllTyped}
use protocol_core.Lifetime.Cooldown.{resets_apart, rebaselines_apart}

abbrev start : Anchor
start = record world {
  identity = record { key = key 34; owner = key 32; data_bytes = serialize_identity tag before };
  config = config_v1;
}

-- A transaction with a receipt for this purpose and commitment, 100 seconds old.
abbrev transaction : ReceiptPurpose → Bytes → ℕ → Transaction
transaction purpose commitment n = record {
  now = pos (n + 100);
  sysvar = signed_message (receipt_message purpose wallet commitment (pos n));
  result = world.result;
  config = config_v1;
  request_state = request_state;
  ledger = world.ledger;
}

abbrev reset_call : ℕ → Call
reset_call n = Call.reset (key n) 1 (
    record {
      account = record { key = key 38; owner = key 39; data_bytes = [] };
      is_writable = false;
    }
    ∷ [])

abbrev after : Anchor → Result Anchor → Anchor
after w (ok t) = t
after w (err e) = w

abbrev once : Anchor
once = after start (
    exec layout_environment sample_tokens wallet (transaction ReceiptPurpose.reset (key 5) 1000000)
      (reset_call 5) start)

once_ok :
    exec layout_environment sample_tokens wallet
      (transaction ReceiptPurpose.reset (key 5) 1000000)
      (reset_call 5)
      start
    ≡ ok once
unfolding exec run perform name_wallet authorize_new_wallet load_identity exit_identity check_token
    run_cpis sample_invoke add_tokens take_tokens set_cell upgrade_layout upgrade_identity_layout
    is_known_len check_identity fund reset_identity_state take_last_counter require_nonzero grow
    transfer read_fees validate_requested_projection require_sysvar finish_reset reset_identity
    pay_fee emit_receipt_session bytes_eq sub nth put resize i64_from_le_bytes from_le_bytes as_i64
    saturating_sub read_projection_policy stored_policy read_u16 read_validator_key_policy
    verify_validator_receipt load_preceding_ed25519_receipt is_configured preceding check_header
    parse contains accepts verify_receipt_payload parse_message parse_v1 parse_v2_v3 parse_session
    purpose_byte is_mint concat to_le_bytes i64_to_le_bytes as_u64 ◌-ℤ◌ move credit debit ring_bytes
    read_ring identity_parts serialize_identity view_identity deserialize_identity
once_ok = refl

-- The account 60 holds the wallet's token.
abbrev others : Store
others = record {
  ledger = λ k. 10000000;
  accounts = λ k.
      if bytes_eq k (key 60)
      then record { owner = key 50; data_bytes = 1 ∷ [] }
      else empty_world.store.accounts k;
}

abbrev between : List (Transaction × Call)
between =
    (transaction ReceiptPurpose.reset (key 5) 1100000, reset_call 5)
    ∷ (transaction ReceiptPurpose.reset (key 5) 1200000, Call.upgrade)
    ∷ (transaction ReceiptPurpose.reset (key 5) 1300000, Call.authorize (key 4) (key 60) others)
    ∷ []

abbrev twice : Anchor
twice = after start (
    exec layout_environment sample_tokens wallet (transaction ReceiptPurpose.reset (key 6) 2000000)
      (reset_call 6) (run layout_environment sample_tokens wallet between once))

twice_ok :
    exec layout_environment sample_tokens wallet
      (transaction ReceiptPurpose.reset (key 6) 2000000)
      (reset_call 6)
      (run layout_environment sample_tokens wallet between once)
    ≡ ok twice
unfolding exec run perform name_wallet authorize_new_wallet load_identity exit_identity check_token
    run_cpis sample_invoke add_tokens take_tokens set_cell upgrade_layout upgrade_identity_layout
    is_known_len check_identity fund reset_identity_state take_last_counter require_nonzero grow
    transfer read_fees validate_requested_projection require_sysvar finish_reset reset_identity
    pay_fee emit_receipt_session bytes_eq sub nth put resize i64_from_le_bytes from_le_bytes as_i64
    saturating_sub read_projection_policy stored_policy read_u16 read_validator_key_policy
    verify_validator_receipt load_preceding_ed25519_receipt is_configured preceding check_header
    parse contains accepts verify_receipt_payload parse_message parse_v1 parse_v2_v3 parse_session
    purpose_byte is_mint concat to_le_bytes i64_to_le_bytes as_u64 ◌-ℤ◌ move credit debit ring_bytes
    read_ring identity_parts serialize_identity view_identity deserialize_identity
twice_ok = refl

layout-Codec : Codec layout_environment
layout-Codec = record {
  round_trip = (with_layout-Codec tag sample_environment refl).round_trip;
  reads_full = (with_layout-Codec tag sample_environment refl).reads_full;
}

layout-RuntimeLaws : RuntimeLaws layout_environment sample_tokens
layout-RuntimeLaws = record { writes_own = sample-RuntimeLaws.writes_own }

layout-BoundSizes : BoundSizes layout_environment
layout-BoundSizes = record { new_size = λ d r e. ground arith }

start-IsHeld : IsHeld layout_environment start before
unfolding exec run perform name_wallet authorize_new_wallet load_identity exit_identity check_token
    run_cpis sample_invoke add_tokens take_tokens set_cell upgrade_layout upgrade_identity_layout
    is_known_len check_identity fund reset_identity_state take_last_counter require_nonzero grow
    transfer read_fees validate_requested_projection require_sysvar finish_reset reset_identity
    pay_fee emit_receipt_session bytes_eq sub nth put resize i64_from_le_bytes from_le_bytes as_i64
    saturating_sub read_projection_policy stored_policy read_u16 read_validator_key_policy
    verify_validator_receipt load_preceding_ed25519_receipt is_configured preceding check_header
    parse contains accepts verify_receipt_payload parse_message parse_v1 parse_v2_v3 parse_session
    purpose_byte is_mint concat to_le_bytes i64_to_le_bytes as_u64 ◌-ℤ◌ move credit debit ring_bytes
    read_ring identity_parts serialize_identity view_identity deserialize_identity
start-IsHeld = record { full = refl; reads = refl; range = before-IsIdentity }

between-AllTyped : AllTyped between
between-AllTyped = (
  record { now_i64 = omega arith; config_bytes = omega arith; sizes = refl },
  (
    record { now_i64 = omega arith; config_bytes = omega arith; sizes = tt },
    (record { now_i64 = omega arith; config_bytes = omega arith; sizes = refl }, tt),
  ),
)

resets_apart_example : pos 1000100 +ℤ pos 604800 ≤ℤ pos 2000100
resets_apart_example =
    resets_apart layout_environment sample_tokens layout-RuntimeLaws layout-Codec layout-BoundSizes
      wallet (transaction ReceiptPurpose.reset (key 5) 1000000)
      (transaction ReceiptPurpose.reset (key 6) 2000000) (key 5) (key 6) 1 1
      (record {
        account = record { key = key 38; owner = key 39; data_bytes = [] };
        is_writable = false;
      }
        ∷ [])
      (record {
        account = record { key = key 38; owner = key 39; data_bytes = [] };
        is_writable = false;
      }
        ∷ [])
      between start before start-IsHeld
      (record { now_i64 = omega arith; config_bytes = omega arith; sizes = refl }) between-AllTyped
      once_ok twice_ok

run-Follows_example :
    (j : IdentityState) × IsHeld layout_environment
      (run layout_environment sample_tokens wallet between start)
      j
    × Follows (AnyNames between) before j
run-Follows_example =
    run-Follows layout_environment sample_tokens layout-RuntimeLaws layout-Codec layout-BoundSizes
      wallet between start before between-AllTyped start-IsHeld

-- Between the two rebaselines the registry moves on to projection version 2.
abbrev config_v2 : Account
config_v2 = record config_v1 { data_bytes = put config_v1.data_bytes 109 (2 ∷ []) }

abbrev first_rebaseline : Transaction
first_rebaseline = transaction ReceiptPurpose.rebaseline (key 5) 1000000

abbrev second_rebaseline : Transaction
second_rebaseline = record {
  now = pos 2000100;
  sysvar =
      signed_message
        (put (receipt_message ReceiptPurpose.rebaseline wallet (key 6) (pos 2000000)) 29 (2 ∷ []));
  result = world.result;
  config = config_v2;
  request_state = request_state;
  ledger = world.ledger;
}

abbrev rebased : Anchor
rebased = after start (
    exec layout_environment sample_tokens wallet first_rebaseline (Call.rebaseline (key 5) 1 [])
      start)

rebased_ok :
    exec layout_environment sample_tokens wallet first_rebaseline
      (Call.rebaseline (key 5) 1 [])
      start
    ≡ ok rebased
unfolding exec run perform name_wallet authorize_new_wallet load_identity exit_identity check_token
    run_cpis sample_invoke add_tokens take_tokens set_cell upgrade_layout upgrade_identity_layout
    is_known_len check_identity fund reset_identity_state rebaseline_anchor take_counter
    finish_rebaseline rebaseline_identity take_last_counter require_nonzero grow transfer read_fees
    validate_requested_projection require_sysvar finish_reset reset_identity pay_fee
    emit_receipt_session bytes_eq sub nth put resize i64_from_le_bytes from_le_bytes as_i64
    saturating_sub read_projection_policy stored_policy read_u16 read_validator_key_policy
    verify_validator_receipt load_preceding_ed25519_receipt is_configured preceding check_header
    parse contains accepts verify_receipt_payload parse_message parse_v1 parse_v2_v3 parse_session
    purpose_byte is_mint concat to_le_bytes i64_to_le_bytes as_u64 ◌-ℤ◌ move credit debit ring_bytes
    read_ring identity_parts serialize_identity view_identity deserialize_identity
rebased_ok = refl

abbrev rebased_twice : Anchor
rebased_twice = after start (
    exec layout_environment sample_tokens wallet second_rebaseline (Call.rebaseline (key 6) 2 [])
      (run layout_environment sample_tokens wallet between rebased))

rebased_twice_ok :
    exec layout_environment sample_tokens wallet second_rebaseline
      (Call.rebaseline (key 6) 2 [])
      (run layout_environment sample_tokens wallet between rebased)
    ≡ ok rebased_twice
unfolding exec run perform name_wallet authorize_new_wallet load_identity exit_identity check_token
    run_cpis sample_invoke add_tokens take_tokens set_cell upgrade_layout upgrade_identity_layout
    is_known_len check_identity fund reset_identity_state rebaseline_anchor take_counter
    finish_rebaseline rebaseline_identity take_last_counter require_nonzero grow transfer read_fees
    validate_requested_projection require_sysvar finish_reset reset_identity pay_fee
    emit_receipt_session bytes_eq sub nth put resize i64_from_le_bytes from_le_bytes as_i64
    saturating_sub read_projection_policy stored_policy read_u16 read_validator_key_policy
    verify_validator_receipt load_preceding_ed25519_receipt is_configured preceding check_header
    parse contains accepts verify_receipt_payload parse_message parse_v1 parse_v2_v3 parse_session
    purpose_byte is_mint concat to_le_bytes i64_to_le_bytes as_u64 ◌-ℤ◌ move credit debit ring_bytes
    read_ring identity_parts serialize_identity view_identity deserialize_identity
rebased_twice_ok = refl

rebaselines_apart_test : pos 1000100 +ℤ pos 604800 ≤ℤ pos 2000100
rebaselines_apart_test =
    rebaselines_apart layout_environment sample_tokens layout-RuntimeLaws layout-Codec
      layout-BoundSizes wallet first_rebaseline second_rebaseline (key 5) (key 6) 1 2 [] [] between
      start before start-IsHeld
      (record { now_i64 = omega arith; config_bytes = omega arith; sizes = refl }) between-AllTyped
      rebased_ok rebased_twice_ok
