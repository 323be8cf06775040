-- ===== src/Lifetime/Tests/Migration.antt =====
-- Wallet 1 resets its identity and gives it to wallet 4, which resets it again.
use protocol_core.Base.{ℕ, ◌+◌, ◌≡◌, refl, false, [], ◌∷◌, arith, Result, ok, err, if◌then◌else◌}
use protocol_core.Base.Int.{pos, saturating_sub, ◌-ℤ◌, ◌+ℤ◌, ◌≤ℤ◌, as_u64, as_i64}
use protocol_core.Base.Words.{Bytes, to_le_bytes, from_le_bytes, i64_to_le_bytes, i64_from_le_bytes}
use protocol_core.Base.Bytes.{bytes_eq, sub, put, nth, resize}
use protocol_core.Base.Concat.{concat}
use protocol_core.Chain.{Pubkey}
use protocol_core.Chain.Sample.{key, move, credit, debit, sweep}
use protocol_core.Receipt.Policy.{
  is_configured, accepts, read_u16, stored_policy, read_projection_policy,
  read_validator_key_policy, validate_requested_projection,
}
use protocol_core.Receipt.Instruction.{
  contains, check_header, parse, preceding, load_preceding_ed25519_receipt,
}
use protocol_core.Receipt.Payload.{
  ReceiptPurpose, purpose_byte, is_mint, parse_v1, parse_v2_v3, parse_message, parse_session,
  verify_receipt_payload, verify_validator_receipt,
}
use protocol_core.Update.State.{Environment, Anchor}
use protocol_core.Update.Layout.{
  ring_bytes, read_ring, identity_parts, serialize_identity, view_identity, deserialize_identity,
}
use protocol_core.Update.Layout.Codec.{Codec, with_layout-Codec}
use protocol_core.Update.Handler.{transfer, grow, pay_fee, emit_receipt_session}
use protocol_core.Update.Sample.{
  before, before-IsIdentity, config_v1, request_state, world, sample_environment, tag,
  receipt_message, signed_message,
}
use protocol_core.Recovery.Shared.{Remaining, read_fees, require_nonzero}
use protocol_core.Recovery.Reset.{
  take_last_counter, require_sysvar, reset_identity, finish_reset, reset_identity_state,
}
use protocol_core.Mint.State.{
  World, transfer_lamports, init_identity, load_identity, exit_identity, close_cell, run_cpis,
  set_cell,
}
use protocol_core.Mint.State.Laws.{RuntimeLaws}
use protocol_core.Mint.Token.{token_calls, issue_token}
use protocol_core.Mint.Issue.{pay}
use protocol_core.Mint.Migrate.{
  check_token, authorize_new_wallet, take_counters, migrated_identity, read_migration_fee,
  migrate_identity,
}
use protocol_core.Mint.Migrate.Moved.{AreDistinct}
use protocol_core.Mint.Sample.{
  mint_environment, add_tokens, take_tokens, sample_invoke, sample_tokens, sample-RuntimeLaws,
  empty_world,
}
use protocol_core.Lifetime.{Transaction, Call, perform, exec, run}
use protocol_core.Lifetime.Ranges.{BoundSizes}
use protocol_core.Lifetime.Held.{IsHeld}
use protocol_core.Lifetime.Migration.{resets_apart-migrate_identity}

-- The build without the feature.
abbrev plain : Environment
plain = record mint_environment { request_bound_v1 = false }

plain-Codec : Codec plain
plain-Codec = record {
  round_trip = (with_layout-Codec tag sample_environment refl).round_trip;
  reads_full = (with_layout-Codec tag sample_environment refl).reads_full;
}

plain-RuntimeLaws : RuntimeLaws plain sample_tokens
plain-RuntimeLaws = record { writes_own = sample-RuntimeLaws.writes_own }

plain-BoundSizes : BoundSizes plain
plain-BoundSizes = record { new_size = λ d r e. ground arith }

abbrev start : Anchor
start = record world {
  identity = record {
    key = 34 ∷ key 1;
    owner = key 32;
    data_bytes = serialize_identity tag before;
  };
  config = config_v1;
}

-- A transaction with a receipt for a reset of this wallet to this commitment, 100 seconds old.
abbrev transaction : Pubkey → Bytes → ℕ → Transaction
transaction wallet commitment n = record {
  now = pos (n + 100);
  sysvar = signed_message (receipt_message ReceiptPurpose.reset wallet commitment (pos n));
  result = world.result;
  config = config_v1;
  request_state = request_state;
  ledger = world.ledger;
}

abbrev sysvar_account : Remaining
sysvar_account = record {
  account = record { key = key 38; owner = key 39; data_bytes = [] };
  is_writable = false;
}

abbrev first : Transaction
first = transaction (key 1) (key 5) 1000000

abbrev second : Transaction
second = transaction (key 4) (key 6) 2000000

abbrev reset_call : ℕ → Call
reset_call n = Call.reset (key n) 1 (sysvar_account ∷ [])

abbrev after : Anchor → Result Anchor → Anchor
after w (ok t) = t
after w (err e) = w

abbrev after_world : World → Result World → World
after_world w (ok t) = t
after_world w (err e) = w

abbrev once : Anchor
once = after start (exec plain sample_tokens (key 1) first (reset_call 5) start)

once_ok : exec plain sample_tokens (key 1) first (reset_call 5) start ≡ ok once
unfolding exec run perform reset_identity_state take_last_counter require_nonzero grow transfer
    read_fees validate_requested_projection require_sysvar finish_reset reset_identity pay_fee
    emit_receipt_session bytes_eq sub nth put resize i64_from_le_bytes from_le_bytes as_i64
    saturating_sub read_projection_policy stored_policy read_u16 read_validator_key_policy
    verify_validator_receipt load_preceding_ed25519_receipt is_configured preceding check_header
    parse contains accepts verify_receipt_payload parse_message parse_v1 parse_v2_v3 parse_session
    purpose_byte is_mint concat to_le_bytes i64_to_le_bytes as_u64 ◌-ℤ◌ move credit debit ring_bytes
    read_ring identity_parts serialize_identity view_identity deserialize_identity
once_ok = refl

-- A world in which wallet 1 holds the identity, with one token in the account 60.
abbrev holding : World
holding = record {
  store = record {
    ledger = λ k. 10000000;
    accounts = λ k.
        if bytes_eq k (34 ∷ key 1)
        then record { owner = key 32; data_bytes = once.identity.data_bytes }
        else if bytes_eq k (key 60)
        then record { owner = key 50; data_bytes = 1 ∷ [] }
        else empty_world.store.accounts k;
  };
  events = [];
}

abbrev named : World
named =
    after_world holding (authorize_new_wallet plain sample_tokens (key 1) (key 4) (key 60) holding)

named_ok : authorize_new_wallet plain sample_tokens (key 1) (key 4) (key 60) holding ≡ ok named
unfolding exec run perform reset_identity_state take_last_counter require_nonzero grow transfer
    read_fees validate_requested_projection require_sysvar finish_reset reset_identity pay_fee
    emit_receipt_session bytes_eq sub nth put resize i64_from_le_bytes from_le_bytes as_i64
    saturating_sub read_projection_policy stored_policy read_u16 read_validator_key_policy
    verify_validator_receipt load_preceding_ed25519_receipt is_configured preceding check_header
    parse contains accepts verify_receipt_payload parse_message parse_v1 parse_v2_v3 parse_session
    purpose_byte is_mint concat to_le_bytes i64_to_le_bytes as_u64 ◌-ℤ◌ move credit debit ring_bytes
    read_ring identity_parts serialize_identity view_identity deserialize_identity migrate_identity
    authorize_new_wallet init_identity load_identity check_token transfer_lamports take_counters
    issue_token token_calls run_cpis sample_invoke add_tokens take_tokens set_cell migrated_identity
    read_migration_fee pay exit_identity close_cell sweep
named_ok = refl

abbrev moved : World
moved =
    after_world named
      (migrate_identity plain sample_tokens (key 4) (key 1) (key 61) (key 60) [] named)

moved_ok :
    migrate_identity plain sample_tokens (key 4) (key 1) (key 61) (key 60) [] named ≡ ok moved
unfolding exec run perform reset_identity_state take_last_counter require_nonzero grow transfer
    read_fees validate_requested_projection require_sysvar finish_reset reset_identity pay_fee
    emit_receipt_session bytes_eq sub nth put resize i64_from_le_bytes from_le_bytes as_i64
    saturating_sub read_projection_policy stored_policy read_u16 read_validator_key_policy
    verify_validator_receipt load_preceding_ed25519_receipt is_configured preceding check_header
    parse contains accepts verify_receipt_payload parse_message parse_v1 parse_v2_v3 parse_session
    purpose_byte is_mint concat to_le_bytes i64_to_le_bytes as_u64 ◌-ℤ◌ move credit debit ring_bytes
    read_ring identity_parts serialize_identity view_identity deserialize_identity migrate_identity
    authorize_new_wallet init_identity load_identity check_token transfer_lamports take_counters
    issue_token token_calls run_cpis sample_invoke add_tokens take_tokens set_cell migrated_identity
    read_migration_fee pay exit_identity close_cell sweep
moved_ok = refl

abbrev taken : Anchor
taken = record start {
  identity = record {
    key = 34 ∷ key 4;
    owner = key 32;
    data_bytes = (moved.store.accounts (34 ∷ key 4)).data_bytes;
  };
}

abbrev twice : Anchor
twice = after taken (exec plain sample_tokens (key 4) second (reset_call 6) taken)

twice_ok : exec plain sample_tokens (key 4) second (reset_call 6) taken ≡ ok twice
unfolding exec run perform reset_identity_state take_last_counter require_nonzero grow transfer
    read_fees validate_requested_projection require_sysvar finish_reset reset_identity pay_fee
    emit_receipt_session bytes_eq sub nth put resize i64_from_le_bytes from_le_bytes as_i64
    saturating_sub read_projection_policy stored_policy read_u16 read_validator_key_policy
    verify_validator_receipt load_preceding_ed25519_receipt is_configured preceding check_header
    parse contains accepts verify_receipt_payload parse_message parse_v1 parse_v2_v3 parse_session
    purpose_byte is_mint concat to_le_bytes i64_to_le_bytes as_u64 ◌-ℤ◌ move credit debit ring_bytes
    read_ring identity_parts serialize_identity view_identity deserialize_identity migrate_identity
    authorize_new_wallet init_identity load_identity check_token transfer_lamports take_counters
    issue_token token_calls run_cpis sample_invoke add_tokens take_tokens set_cell migrated_identity
    read_migration_fee pay exit_identity close_cell sweep
twice_ok = refl

start-IsHeld : IsHeld plain start before
unfolding exec run perform reset_identity_state take_last_counter require_nonzero grow transfer
    read_fees validate_requested_projection require_sysvar finish_reset reset_identity pay_fee
    emit_receipt_session bytes_eq sub nth put resize i64_from_le_bytes from_le_bytes as_i64
    saturating_sub read_projection_policy stored_policy read_u16 read_validator_key_policy
    verify_validator_receipt load_preceding_ed25519_receipt is_configured preceding check_header
    parse contains accepts verify_receipt_payload parse_message parse_v1 parse_v2_v3 parse_session
    purpose_byte is_mint concat to_le_bytes i64_to_le_bytes as_u64 ◌-ℤ◌ move credit debit ring_bytes
    read_ring identity_parts serialize_identity view_identity deserialize_identity
start-IsHeld = record { full = refl; reads = refl; range = before-IsIdentity }

wallets-AreDistinct : AreDistinct plain (key 4) (key 1)
wallets-AreDistinct = record {
  two = ground arith;
  no_counter = ground arith;
  no_old_counter = ground arith;
}

resets_apart-migrate_identity_example : pos 1000100 +ℤ pos 604800 ≤ℤ pos 2000100
unfolding exec run perform reset_identity_state take_last_counter require_nonzero grow transfer
    read_fees validate_requested_projection require_sysvar finish_reset reset_identity pay_fee
    emit_receipt_session bytes_eq sub nth put resize i64_from_le_bytes from_le_bytes as_i64
    saturating_sub read_projection_policy stored_policy read_u16 read_validator_key_policy
    verify_validator_receipt load_preceding_ed25519_receipt is_configured preceding check_header
    parse contains accepts verify_receipt_payload parse_message parse_v1 parse_v2_v3 parse_session
    purpose_byte is_mint concat to_le_bytes i64_to_le_bytes as_u64 ◌-ℤ◌ move credit debit ring_bytes
    read_ring identity_parts serialize_identity view_identity deserialize_identity migrate_identity
    authorize_new_wallet init_identity load_identity check_token transfer_lamports take_counters
    issue_token token_calls run_cpis sample_invoke add_tokens take_tokens set_cell migrated_identity
    read_migration_fee pay exit_identity close_cell sweep
resets_apart-migrate_identity_example =
    resets_apart-migrate_identity plain plain-Codec sample_tokens plain-RuntimeLaws (key 1) (key 4)
      (key 60) (key 61) (key 60) [] holding named_ok moved_ok refl refl wallets-AreDistinct
      plain-BoundSizes first second (key 5) (key 6) 1 1 (sysvar_account ∷ []) (sysvar_account ∷ [])
      [] [] start taken before start-IsHeld
      (record { now_i64 = omega arith; config_bytes = omega arith; sizes = refl }) tt tt once_ok
      refl refl refl twice_ok
