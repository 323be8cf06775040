-- ===== src/Mint/Tests/Migration.antt =====
-- Wallet 1 names wallet 4, and the identity moves there.
use protocol_core.Base.{
  ℕ, ◌+◌, ◌≡◌, ◌≢◌, refl, some, [], ◌∷◌, arith, replicate, if◌then◌else◌, Result, ok, err, length,
  inr,
}
use protocol_core.Base.Int.{pos, as_u64, as_i64}
use protocol_core.Base.Words.{to_le_bytes, from_le_bytes, i64_to_le_bytes, i64_from_le_bytes}
use protocol_core.Base.Bytes.{bytes_eq, sub, put, nth, zeros}
use protocol_core.Base.Concat.{concat}
use protocol_core.Chain.Sample.{key, move, credit, debit, sweep}
use protocol_core.Request.{read_counter, is_request_state}
use protocol_core.Counter
use protocol_core.Counter.{fund, initial_bytes, create}
use protocol_core.Update.Layout.{
  ring_bytes, read_ring, identity_parts, serialize_identity, view_identity, deserialize_identity,
}
use protocol_core.Update.State.{IdentityState}
use protocol_core.Update.Layout.Laws.{IsIdentity}
use protocol_core.Update.Layout.Codec.{Codec, with_layout-Codec}
use protocol_core.Update.Sample.{sample_environment, tag}
use protocol_core.Mint.State.{
  World, transfer_lamports, init_identity, load_identity, exit_identity, close_cell, advance_at,
  run_cpis, set_cell,
}
use protocol_core.Mint.Token.{token_calls, issue_token}
use protocol_core.Mint.Issue.{pay}
use protocol_core.Mint.Migrate.{
  check_token, authorize_new_wallet, take_counters, migrated_identity, read_migration_fee,
  migrate_identity,
}
use protocol_core.Mint.Migrate.Moved.{IsElsewhere, AreDistinct, migrate_identity_elsewhere}
use protocol_core.Mint.Migrate.Amounts.{migrate_identity_amounts}
use protocol_core.Mint.Migrate.Authority.{
  IsAuthorized, authorize_new_wallet_lem, migrate_identity-authorize_new_wallet,
  migrate_identity_once,
}
use protocol_core.Mint.Sample.{
  mint_environment, amount, add_tokens, take_tokens, sample_invoke, sample_tokens,
  sample-RuntimeLaws, sample-TokenLaws, empty_world, counter_meta,
}

abbrev after : World → Result World → World
after w (ok t) = t
after w (err e) = w

-- The identity as wallet 1 minted it.
abbrev fresh : IdentityState
fresh = record {
  owner = key 1;
  creation_timestamp = pos 1000000;
  last_verification_timestamp = pos 1000000;
  verification_count = 0;
  trust_score = 0;
  current_commitment = key 5;
  mint = key 1;
  bump = 252;
  recent_timestamps = replicate 52 (pos 0);
  last_reset_timestamp = pos 0;
  new_wallet = zeros 32;
  projection_version = 1;
  last_rebaseline_timestamp = pos 0;
}

fresh-IsIdentity : IsIdentity fresh
fresh-IsIdentity = record {
  owner_size = refl;
  creation_i64 = omega arith;
  last_i64 = omega arith;
  count_u32 = omega arith;
  score_u16 = omega arith;
  commitment_size = refl;
  mint_size = refl;
  ring_size = refl;
  ring_i64 = omega arith;
  reset_i64 = omega arith;
  wallet_size = refl;
  version_u16 = omega arith;
  rebaseline_i64 = omega arith;
}

-- A world in which wallet 1 holds it, with one token in the account 60.
abbrev held_world : World
held_world = record {
  store = record {
    ledger = λ k. 10000000;
    accounts = λ k.
        if bytes_eq k (34 ∷ key 1)
        then record { owner = key 32; data_bytes = serialize_identity tag fresh }
        else if bytes_eq k (key 60)
        then record { owner = key 50; data_bytes = 1 ∷ [] }
        else empty_world.store.accounts k;
  };
  events = [];
}

-- Wallet 1 names wallet 4.
abbrev named : World
named =
    after held_world
      (authorize_new_wallet mint_environment sample_tokens (key 1) (key 4) (key 60) held_world)

named_ok :
    authorize_new_wallet mint_environment sample_tokens (key 1) (key 4) (key 60) held_world
    ≡ ok named
unfolding authorize_new_wallet load_identity check_token run_cpis sample_invoke exit_identity
    set_cell bytes_eq sub nth put i64_from_le_bytes from_le_bytes as_i64 concat to_le_bytes
    i64_to_le_bytes as_u64 ring_bytes read_ring identity_parts serialize_identity view_identity
    deserialize_identity
named_ok = refl

authorize_new_wallet_lem_test : IsAuthorized mint_environment (key 1) (key 4) held_world named
authorize_new_wallet_lem_test =
    authorize_new_wallet_lem mint_environment sample_tokens sample-RuntimeLaws (key 1) (key 4)
      (key 60) held_world named_ok

-- Wallet 4 takes the identity over, with the token account 61.
abbrev moved : World
moved = after named (
    migrate_identity mint_environment sample_tokens (key 4) (key 1) (key 61) (key 60)
      (counter_meta (key 1) ∷ counter_meta (key 4) ∷ []) named)

moved_ok :
    migrate_identity mint_environment sample_tokens
      (key 4)
      (key 1)
      (key 61)
      (key 60)
      (counter_meta (key 1) ∷ counter_meta (key 4) ∷ [])
      named
    ≡ ok moved
unfolding migrate_identity authorize_new_wallet init_identity load_identity check_token
    transfer_lamports take_counters advance_at Counter.advance create fund initial_bytes
    read_counter is_request_state issue_token token_calls run_cpis sample_invoke add_tokens
    take_tokens set_cell migrated_identity read_migration_fee pay exit_identity close_cell bytes_eq
    sub nth put i64_from_le_bytes from_le_bytes as_i64 concat to_le_bytes i64_to_le_bytes as_u64
    move credit debit sweep ring_bytes read_ring identity_parts serialize_identity view_identity
    deserialize_identity
moved_ok = refl

wallets-AreDistinct : AreDistinct mint_environment (key 4) (key 1)
wallets-AreDistinct = record {
  two = ground arith;
  no_counter = ground arith;
  no_old_counter = ground arith;
}

elsewhere : (n : ℕ) → IsElsewhere mint_environment (key 4) (key 1) (key n)
elsewhere n = record {
  not_new = ground arith;
  not_old = ground arith;
  not_counter = ground arith;
  not_old_counter = ground arith;
}

migrate_identity_elsewhere_example : moved.store.accounts (key 2) ≡ named.store.accounts (key 2)
unfolding authorize_new_wallet load_identity check_token run_cpis sample_invoke exit_identity
    set_cell bytes_eq sub nth put i64_from_le_bytes from_le_bytes as_i64 concat to_le_bytes
    i64_to_le_bytes as_u64 ring_bytes read_ring identity_parts serialize_identity view_identity
    deserialize_identity
migrate_identity_elsewhere_example =
    migrate_identity_elsewhere mint_environment sample_tokens sample-RuntimeLaws (key 4) (key 1)
      (key 61) (key 60) (counter_meta (key 1) ∷ counter_meta (key 4) ∷ []) named moved_ok (key 2)
      (elsewhere 2) (inr refl)

migrate_identity_amounts_example :
    (amount (moved.store.accounts (key 61)) ≡ amount (named.store.accounts (key 61)) + 1)
    × (amount (named.store.accounts (key 60)) ≡ amount (moved.store.accounts (key 60)) + 1)
    × (amount (moved.store.accounts (key 62)) ≡ amount (named.store.accounts (key 62)))
migrate_identity_amounts_example =
    migrate_identity_amounts mint_environment sample_tokens amount sample-TokenLaws (key 4) (key 1)
      (key 61) (key 60) (counter_meta (key 1) ∷ counter_meta (key 4) ∷ []) named moved_ok (key 62)
      (ground arith) (ground arith) (ground arith) (elsewhere 61) (elsewhere 60) (elsewhere 62)

layout-Codec : Codec mint_environment
layout-Codec = record {
  round_trip = (with_layout-Codec tag sample_environment refl).round_trip;
  reads_full = (with_layout-Codec tag sample_environment refl).reads_full;
}

held_full : length (held_world.store.accounts (34 ∷ key 1)).data_bytes ≡ 593
unfolding bytes_eq concat to_le_bytes i64_to_le_bytes as_u64 ring_bytes identity_parts
    serialize_identity
held_full = refl

held_reads :
    mint_environment.deserialize (held_world.store.accounts (34 ∷ key 1)).data_bytes ≡ some fresh
unfolding bytes_eq sub nth i64_from_le_bytes from_le_bytes as_i64 concat to_le_bytes i64_to_le_bytes
    as_u64 ring_bytes read_ring identity_parts serialize_identity view_identity deserialize_identity
held_reads = refl

migrate_identity-authorize_new_wallet_example : key 4 ≡ key 4
migrate_identity-authorize_new_wallet_example =
    migrate_identity-authorize_new_wallet mint_environment sample_tokens sample-RuntimeLaws
      layout-Codec (key 1) (key 4) (key 4) (key 60) (key 61) (key 60)
      (counter_meta (key 1) ∷ counter_meta (key 4) ∷ []) held_world fresh named_ok held_full
      held_reads fresh-IsIdentity refl wallets-AreDistinct moved_ok

-- Wallet 5 tries to take it over right after.
next-AreDistinct : AreDistinct mint_environment (key 5) (key 4)
next-AreDistinct = record {
  two = ground arith;
  no_counter = ground arith;
  no_old_counter = ground arith;
}

abbrev agreed : IdentityState
agreed = record fresh { new_wallet = key 4 }

agreed-IsIdentity : IsIdentity agreed
agreed-IsIdentity = record {
  owner_size = refl;
  creation_i64 = omega arith;
  last_i64 = omega arith;
  count_u32 = omega arith;
  score_u16 = omega arith;
  commitment_size = refl;
  mint_size = refl;
  ring_size = refl;
  ring_i64 = omega arith;
  reset_i64 = omega arith;
  wallet_size = refl;
  version_u16 = omega arith;
  rebaseline_i64 = omega arith;
}

agreed_reads :
    mint_environment.deserialize (named.store.accounts (34 ∷ key 1)).data_bytes ≡ some agreed
unfolding authorize_new_wallet load_identity check_token run_cpis sample_invoke exit_identity
    set_cell bytes_eq sub nth put i64_from_le_bytes from_le_bytes as_i64 concat to_le_bytes
    i64_to_le_bytes as_u64 ring_bytes read_ring identity_parts serialize_identity view_identity
    deserialize_identity
agreed_reads = refl

migrate_identity_once_example :
    migrate_identity mint_environment sample_tokens
      (key 5)
      (key 4)
      (key 62)
      (key 61)
      (counter_meta (key 4) ∷ counter_meta (key 5) ∷ [])
      moved
    ≢ ok moved
migrate_identity_once_example =
    migrate_identity_once mint_environment sample_tokens sample-RuntimeLaws layout-Codec (key 1)
      (key 4) (key 5) (key 61) (key 60) (key 62) (key 61)
      (counter_meta (key 1) ∷ counter_meta (key 4) ∷ [])
      (counter_meta (key 4) ∷ counter_meta (key 5) ∷ []) named agreed moved_ok agreed_reads
      agreed-IsIdentity refl refl (ground arith) wallets-AreDistinct next-AreDistinct
