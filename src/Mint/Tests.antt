-- ===== src/Mint/Tests.antt =====
-- One wallet mints.
mod Migration
use protocol_core.Base.{
  ℕ, ◌+◌, ◌≡◌, ◌≢◌, refl, some, [], ◌∷◌, arith, replicate, if◌then◌else◌, Result, ok, err, length,
  inr,
}
use protocol_core.Base.Int.{pos, saturating_sub, ◌-ℤ◌, as_u64, as_i64}
use protocol_core.Base.Words.{to_le_bytes, from_le_bytes, i64_to_le_bytes, i64_from_le_bytes}
use protocol_core.Base.Bytes.{bytes_eq, sub, put, nth, zeros}
use protocol_core.Base.Concat.{concat}
use protocol_core.Chain.Sample.{key, move, credit, debit, sweep}
use protocol_core.Request.{read_counter, is_request_state}
use protocol_core.Receipt.Policy.{
  is_configured, accepts, read_u16, stored_policy, read_projection_policy,
  read_validator_key_policy,
}
use protocol_core.Receipt.Instruction.{
  contains, check_header, parse, preceding, load_preceding_ed25519_receipt,
}
use protocol_core.Receipt.Payload.{
  purpose_byte, is_mint, parse_v1, parse_v2_v3, parse_message, parse_session,
  verify_receipt_payload, verify_validator_receipt,
}
use protocol_core.Counter
use protocol_core.Counter.{fund, initial_bytes, create}
use protocol_core.Update.Layout.{
  ring_bytes, read_ring, identity_parts, serialize_identity, view_identity, deserialize_identity,
}
use protocol_core.Update.State.{IdentityState}
use protocol_core.Update.Layout.Laws.{IsIdentity}
use protocol_core.Update.Layout.Codec.{Codec, with_layout-Codec}
use protocol_core.Update.Handler.{emit_receipt_session}
use protocol_core.Update.Sample.{sample_environment, tag}
use protocol_core.Recovery.Shared.{read_fees, require_nonzero}
use protocol_core.Mint.State.{
  World, transfer_lamports, init_identity, load_identity, exit_identity, close_cell, advance_at,
  run_cpis, set_cell,
}
use protocol_core.Mint.Token.{token_calls, issue_token}
use protocol_core.Mint.Issue.{take_counter, new_identity, pay, mint_anchor}
use protocol_core.Mint.Issue.Laws.{AreApart, mint_anchor_apart}
use protocol_core.Mint.Issue.Amounts.{mint_anchor_amounts}
use protocol_core.Mint.Migrate.{
  check_token, authorize_new_wallet, take_counters, migrated_identity, read_migration_fee,
  migrate_identity,
}
use protocol_core.Mint.Migrate.Moved.{
  IsElsewhere, AreDistinct, IsMigrated, migrate_identity_lem, migrate_identity_elsewhere,
}
use protocol_core.Mint.Migrate.Amounts.{migrate_identity_amounts}
use protocol_core.Mint.Migrate.Authority.{
  IsAuthorized, authorize_new_wallet_lem, migrate_identity-authorize_new_wallet,
  migrate_identity_once,
}
use protocol_core.Mint.Sample.{
  mint_environment, amount, add_tokens, take_tokens, sample_invoke, sample_tokens,
  sample-RuntimeLaws, sample-TokenLaws, empty_world, counter_meta,
}

abbrev after : World → Result World → World
after w (ok t) = t
after w (err e) = w

-- Wallet 1 mints, with the token account 60.
abbrev minted : World
minted = after empty_world (
    mint_anchor mint_environment sample_tokens (key 1) (key 60) (pos 1000000) (key 5)
      (counter_meta (key 1) ∷ []) empty_world)

minted_ok :
    mint_anchor mint_environment sample_tokens
      (key 1)
      (key 60)
      (pos 1000000)
      (key 5)
      (counter_meta (key 1) ∷ [])
      empty_world
    ≡ ok minted
unfolding mint_anchor init_identity transfer_lamports take_counter advance_at Counter.advance create
    fund initial_bytes read_counter is_request_state require_nonzero issue_token token_calls
    run_cpis sample_invoke add_tokens set_cell read_fees new_identity pay exit_identity
    emit_receipt_session bytes_eq sub nth put i64_from_le_bytes from_le_bytes as_i64 saturating_sub
    read_projection_policy stored_policy read_u16 read_validator_key_policy verify_validator_receipt
    load_preceding_ed25519_receipt is_configured preceding check_header parse contains accepts
    verify_receipt_payload parse_message parse_v1 parse_v2_v3 parse_session purpose_byte is_mint
    concat to_le_bytes i64_to_le_bytes as_u64 ◌-ℤ◌ move credit debit ring_bytes identity_parts
    serialize_identity
minted_ok = refl

config-AreApart : AreApart mint_environment (key 1) (key 2)
config-AreApart = record { no_identity = ground arith; no_counter = ground arith }

mint_anchor_apart_test : minted.store.accounts (key 2) ≡ empty_world.store.accounts (key 2)
unfolding bytes_eq
mint_anchor_apart_test =
    mint_anchor_apart mint_environment sample_tokens sample-RuntimeLaws (key 1) (key 60)
      (pos 1000000) (key 5) (counter_meta (key 1) ∷ []) empty_world minted_ok (key 2)
      config-AreApart (inr refl)

mint_anchor_amounts_test :
    (amount (minted.store.accounts (key 60)) ≡ amount (empty_world.store.accounts (key 60)) + 1)
    × (amount (minted.store.accounts (key 61)) ≡ amount (empty_world.store.accounts (key 61)))
mint_anchor_amounts_test =
    mint_anchor_amounts mint_environment sample_tokens amount sample-TokenLaws (key 1) (key 60)
      (pos 1000000) (key 5) (counter_meta (key 1) ∷ []) empty_world minted_ok (key 61)
      (record { no_identity = ground arith; no_counter = ground arith })
      (record { no_identity = ground arith; no_counter = ground arith }) (ground arith)
