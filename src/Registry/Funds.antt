-- ===== src/Registry/Funds.antt =====
-- The instructions that move lamports between wallets, treasury and vault, and the score preview.
pub mod Stakes
pub mod Vault
use protocol_core.Base.{
  ℕ, ◌+◌, ◌-◌, ◌≡◌, Bool, true, false, not, Option, none, some, List, [], ◌∷◌, arith, length, ltb,
  leb, ◌==◌, if◌then◌else◌, Result, ok, err, panic, registry, framework, RegistryError,
  FrameworkError, require, ok_or, ◌>>=◌, ◌>>◌,
}
use protocol_core.Base.Int.{ℤ}
use protocol_core.Base.Bytes.{bytes_eq}
use protocol_core.Chain.{Pubkey, Chain}
use protocol_core.Score.{total_score}
use protocol_core.Registry.State.{
  Registry, Program, ValidatorState, Event, validator_registered, validator_unstaked,
  trust_score_computed, treasury_withdrawn, emit, load_config, transfer,
}
use Stakes.{find, remove, is_free, new_state}

-- `ValidatorState::LEN`
abbrev pub validator_state_len : ℕ
validator_state_len = 66

module _ (chain : Chain) (program : Program) where
  unfoldable pub withdraw_treasury : Pubkey → ℕ → Registry → Result Registry
  withdraw_treasury admin amount r = do
    config ← load_config program r
    require (bytes_eq config.admin admin) (registry RegistryError.unauthorized)
    let available = r.ledger program.treasury_key - chain.minimum_balance 0
    require (leb amount available) (registry RegistryError.insufficient_treasury_balance)
    s ← transfer chain program program.treasury_key admin amount r
    ok (emit (treasury_withdrawn admin amount) s)

  -- `init` of the validator account: it must not be there, and its wallet pays the rent.
  unfoldable pub init_validator_state : Pubkey → Registry → Result Registry
  init_validator_state validator r = do
    require (is_free (find validator r.validators)) (framework FrameworkError.account_in_use)
    let account = program.validator_key validator
    let required = chain.minimum_balance validator_state_len
    if ltb (r.ledger account) required
        then transfer chain program validator account (required - r.ledger account) r
        else ok r

  unfoldable pub register_validator : Pubkey → ℕ → ℤ → Registry → Result Registry
  register_validator validator stake_amount now r = do
    config ← load_config program r
    s ← init_validator_state validator r
    require (leb config.min_stake stake_amount) (registry RegistryError.insufficient_stake)
    t ← transfer chain program validator program.vault_key stake_amount s
    let state = new_state validator stake_amount now (program.validator_bump validator)
    ok (
        emit (validator_registered validator stake_amount)
          (record t { validators = (validator, state) ∷ t.validators }))

  -- The vault returns the stake, and the account is closed in favour of the wallet.
  unfoldable pub unstake_validator : Pubkey → Registry → Result Registry
  unstake_validator validator r = do
    state ← ok_or (find validator r.validators) (framework FrameworkError.account_not_initialized)
    require (state.bump == program.validator_bump validator)
        (framework FrameworkError.constraint_violated)
    require (bytes_eq state.authority validator) (registry RegistryError.unauthorized)
    s ← transfer chain program program.vault_key validator state.stake r
    ok (
        emit (validator_unstaked state.authority state.stake) (record s {
          ledger = chain.close s.ledger (program.validator_key validator) validator;
          validators = remove validator s.validators;
        }))

  -- The preview computes and reports a score, and stores nothing.
  unfoldable pub compute_trust_score : ℕ → ℤ → List ℤ → ℤ → Registry → Result Registry
  compute_trust_score verification_count creation_timestamp recent_timestamps now r = do
    config ← load_config program r
    trust_score ←
        ok_or
          (total_score config.base_trust_increment config.max_trust_score now creation_timestamp
            recent_timestamps)
          (registry RegistryError.arithmetic_overflow)
    ok (emit (trust_score_computed verification_count creation_timestamp trust_score) r)
