-- ===== src/Registry/Tests.antt =====
-- A live registry, and the instructions on it.
use protocol_core.Base.{
  ◌+◌, inr, ◌≤◌, ◌≡◌, ◌≢◌, refl, sym, subst, ◌∙◌, true, some, List, [], ◌∷◌, arith, replicate, ok,
  length,
}
use protocol_core.Base.Int.{ℤ, pos, checked_add, ◌+ℤ◌, ◌≤ℤ◌, as_u64}
use protocol_core.Base.Words.{to_le_bytes, from_le_bytes, i64_to_le_bytes}
use protocol_core.Base.Bytes.{bytes_eq, sub, put, zeros}
use protocol_core.Base.Concat.{concat}
use protocol_core.Chain.{Pubkey}
use protocol_core.Chain.Sample.{key, move, credit, debit, sample_chain, sample_chain-laws}
use protocol_core.Registry.Config.{
  ProtocolConfig, IsConfig, serialize, view, config_len, view-serialize, length-serialize,
}
use protocol_core.Registry.State.{
  Registry, Program, ValidatorState, default_pubkey, config_of, config_of_full, stored_admin,
  require_admin, transfer, top_up, ensure_protocol_config_len, IsLayout,
}
use protocol_core.Registry.Setup.{InitArgs, initial_config}
use protocol_core.Registry.Keys.{grace_window, write_keys, old_validator, rotate_validator_pubkey}
use protocol_core.Registry.Keys.Laws.{HasWindow, rotate_validator_pubkey_lem}
use protocol_core.Registry.Projection.{
  read_projection_versions, validate_projection_transition, set_projection_versions,
}
use protocol_core.Registry.Projection.Laws.{set_projection_versions_lem}
use protocol_core.Registry.Funds.{unstake_validator}
use protocol_core.Registry.Funds.Stakes.{find, remove, total_stake}
use protocol_core.Registry.Funds.Vault.{
  IsCovered, IsSeparate, VaultLaws, unstake_validator_succeeds,
}
use protocol_core.Registry.Calls.{
  Call, rotate_key, propose, accept, set_versions, unstake, exec, run, after,
}
use protocol_core.Registry.Calls.Spec.{spec, Permitted}
use protocol_core.Registry.Calls.Refine.{IsReady, exec_refines}
use protocol_core.Registry.Calls.History.{AllCalls, IsSound, IsLive, Advances, run-IsLive}
use protocol_core.Registry.Calls.Solvency.{NoVaultSigner, run-IsCovered}

abbrev sample_program : Program
sample_program = record {
  id = key 1;
  config_key = key 2;
  config_bump = 255;
  treasury_key = key 3;
  vault_key = key 4;
  validator_key = λ k. 9 ∷ k;
  validator_bump = λ k. 254;
  discriminator = replicate 8 7;
  system_program = zeros 32;
}

-- The admin is key 10, the validator signs with key 11.
abbrev args : InitArgs
args = record {
  min_stake = 1000;
  challenge_expiry = pos 300;
  max_trust_score = 10000;
  base_trust_increment = 100;
  verification_fee = 5000;
  validator_pubkey = key 11;
}

abbrev sample_config : ProtocolConfig
sample_config = initial_config sample_program (key 10) args

-- A wallet, key 20, has staked 2000 lamports.
abbrev staked : ValidatorState
staked = record {
  authority = key 20;
  stake = 2000;
  registration_time = pos 500;
  is_active = true;
  verifications_performed = 0;
  bump = 254;
}

abbrev live : Registry
live = record {
  owner = key 1;
  data_bytes = serialize sample_program.discriminator sample_config;
  ledger = λ k. 1000000;
  validators = (key 20, staked) ∷ [];
  events = [];
}

sample_config-IsConfig : IsConfig sample_config
unfolding initial_config
sample_config-IsConfig = record {
  admin_size = refl;
  min_stake_u64 = omega arith;
  challenge_expiry_i64 = omega arith;
  max_trust_score_u16 = omega arith;
  base_trust_increment_u16 = omega arith;
  bump_u8 = omega arith;
  verification_fee_u64 = omega arith;
  migration_fee_u64 = omega arith;
  validator_size = refl;
  current_u16 = omega arith;
  minimum_u16 = omega arith;
  pending_size = refl;
  secondary_size = refl;
  valid_until_i64 = omega arith;
}

view-serialize_example : view (serialize sample_program.discriminator sample_config) ≡ sample_config
view-serialize_example =
    view-serialize sample_program.discriminator sample_config refl sample_config-IsConfig

live_full : length live.data_bytes ≡ config_len
live_full = length-serialize sample_program.discriminator sample_config refl sample_config-IsConfig

live_config : config_of live ≡ sample_config
live_config =
    config_of_full live live_full
    ∙ view-serialize sample_program.discriminator sample_config refl sample_config-IsConfig

sample_config-IsSound : IsSound sample_config
unfolding initial_config
sample_config-IsSound = record {
  config = sample_config-IsConfig;
  window = omega arith;
  keyed = ground arith;
}

live-IsLive : IsLive live
live-IsLive = record {
  full = live_full;
  sound = subst IsSound (sym live_config) sample_config-IsSound;
}

live-IsReady : IsReady live
live-IsReady = record {
  full = live_full;
  config = subst IsConfig (sym live_config) sample_config-IsConfig;
}

live-IsLayout : IsLayout live.data_bytes
live-IsLayout = omega (arith, live_full)

-- A history with a rotation, a transfer of the authority that the admin proposes and the new admin
-- accepts, a refused call by the old admin, and a withdrawal of a stake.
abbrev history : List Call
history =
    rotate_key (key 10) (key 12) (pos 3600) (pos 1000)
    ∷ propose (key 10) (key 13)
    ∷ accept (key 13)
    ∷ set_versions (key 10) 4 2
    ∷ set_versions (key 13) 4 2
    ∷ unstake (key 20)
    ∷ []

history-AllCalls : AllCalls sample_program history
history-AllCalls = ground arith

history-NoVaultSigner : NoVaultSigner sample_program.vault_key history
history-NoVaultSigner = ground arith

run-IsLive_example :
    IsLive (run sample_chain sample_program live history)
    × Advances (config_of live) (config_of (run sample_chain sample_program live history))
run-IsLive_example =
    run-IsLive sample_chain sample_program refl live history history-AllCalls live-IsLive

sample_program-IsSeparate : IsSeparate sample_program
sample_program-IsSeparate = record {
  config = ground arith;
  treasury = ground arith;
  validators = λ k. ground arith;
}

live-IsCovered : IsCovered sample_program live
unfolding total_stake
live-IsCovered = omega arith

run-IsCovered_example : IsCovered sample_program (run sample_chain sample_program live history)
run-IsCovered_example =
    run-IsCovered sample_chain sample_chain-laws sample_program sample_program-IsSeparate live
      history history-NoVaultSigner live-IsCovered

found : find (key 20) live.validators ≡ some staked
unfolding find bytes_eq
found = refl

sample-VaultLaws : VaultLaws sample_chain sample_program
unfolding move
sample-VaultLaws = record {
  pays = λ l b n h rent wealthy. (credit (debit l sample_program.vault_key n) b n, ground arith);
}

unstake_validator_succeeds_example :
    (s : Registry) × (unstake_validator sample_chain sample_program (key 20) live ≡ ok s)
    × (s.validators ≡ remove (key 20) live.validators)
    × (s.ledger (key 4) + staked.stake ≡ live.ledger (key 4))
    × (s.ledger (key 20) ≡ live.ledger (key 20) + staked.stake + live.ledger (9 ∷ key 20))
unstake_validator_succeeds_example =
    unstake_validator_succeeds sample_chain sample_chain-laws sample_program
      sample_program-IsSeparate sample-VaultLaws (key 20) live staked live-IsCovered found refl refl
      (ground arith) (ground arith) (inr (omega arith)) (omega arith)

-- A rotation with an hour of grace.
abbrev rotation : Call
rotation = rotate_key (key 10) (key 12) (pos 3600) (pos 1000)

abbrev rotated : Registry
rotated = after live (
    rotate_validator_pubkey sample_chain sample_program (key 10) (key 12) (pos 3600) (pos 1000)
      live)

rotated_ok :
    rotate_validator_pubkey sample_chain sample_program (key 10) (key 12) (pos 3600) (pos 1000) live
    ≡ ok rotated
unfolding rotate_validator_pubkey bytes_eq require_admin stored_admin old_validator
    ensure_protocol_config_len top_up transfer grace_window write_keys put sub serialize concat
    initial_config to_le_bytes i64_to_le_bytes as_u64 checked_add ◌+ℤ◌
rotated_ok = refl

rotate_validator_pubkey_lem_example :
    (secondary : Pubkey) × (valid_until : ℤ) × HasWindow
      (config_of live).validator_pubkey
      (key 12)
      (pos 1000)
      (pos 3600)
      secondary
      valid_until
    × (config_of rotated ≡ record (config_of live) {
      validator_pubkey = key 12;
      secondary_validator_pubkey = secondary;
      secondary_validator_valid_until = valid_until;
    })
    × ((config_of live).admin ≡ key 10)
    × (key 12 ≢ default_pubkey)
    × (pos 0 ≤ℤ pos 3600)
    × (pos 3600 ≤ℤ pos 86400)
    × (length rotated.data_bytes ≡ config_len)
rotate_validator_pubkey_lem_example =
    rotate_validator_pubkey_lem sample_chain sample_program (key 10) live live-IsLayout (key 12)
      (pos 3600) (pos 1000) refl (omega arith) rotated_ok

exec-rotated : exec sample_chain sample_program rotation live ≡ ok rotated
unfolding exec
exec-rotated = rotated_ok

exec_refines_example :
    (config_of rotated ≡ spec sample_program rotation (config_of live))
    × Permitted rotation (config_of live)
    × (length rotated.data_bytes ≡ config_len)
exec_refines_example =
    exec_refines sample_chain sample_program refl rotation live rotated live-IsReady
      (refl, omega arith) exec-rotated

abbrev advanced : Registry
advanced = after live (set_projection_versions sample_chain sample_program (key 10) 4 2 live)

advanced_ok : set_projection_versions sample_chain sample_program (key 10) 4 2 live ≡ ok advanced
unfolding set_projection_versions bytes_eq require_admin stored_admin read_projection_versions
    validate_projection_transition ensure_protocol_config_len top_up transfer put sub serialize
    concat initial_config to_le_bytes from_le_bytes i64_to_le_bytes as_u64
advanced_ok = refl

set_projection_versions_lem_test :
    (config_of advanced ≡ record (config_of live) {
      current_projection_version = 4;
      minimum_supported_projection_version = 2;
    })
    × ((config_of live).admin ≡ key 10)
    × (2 ≤ 4)
    × ((config_of live).current_projection_version ≤ 4)
    × ((config_of live).minimum_supported_projection_version ≤ 2)
    × (length advanced.data_bytes ≡ config_len)
set_projection_versions_lem_test =
    set_projection_versions_lem sample_chain sample_program live live-IsLayout (key 10) 4 2
      (omega arith) (omega arith) advanced_ok
