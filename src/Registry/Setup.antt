-- ===== src/Registry/Setup.antt =====
-- `initialize_protocol` and `update_protocol_config`, over the typed account.
pub mod Laws
use protocol_core.Base.{
  ℕ, ◌≡◌, Bool, not, ◌&&◌, arith, length, ◌==◌, Result, ok, err, panic, registry, framework,
  RegistryError, FrameworkError, require, ◌>>=◌, ◌>>◌,
}
use protocol_core.Base.Int.{ℤ, pos}
use protocol_core.Base.Bytes.{bytes_eq}
use protocol_core.Chain.{Pubkey, Chain}
use protocol_core.Registry.Config.{ProtocolConfig, serialize, config_len}
use protocol_core.Registry.State.{
  Registry, Program, Event, protocol_config_updated, default_pubkey, emit, load_config, top_up,
}

-- The arguments of `initialize_protocol`.
pub record InitArgs : Type 0 where
  pub min_stake : ℕ
  pub challenge_expiry : ℤ
  pub max_trust_score : ℕ
  pub base_trust_increment : ℕ
  pub verification_fee : ℕ
  pub validator_pubkey : Pubkey

-- What the account holds after it; `migration_fee` keeps the zero of the new account.
unfoldable pub initial_config : Program → Pubkey → InitArgs → ProtocolConfig
initial_config program admin args = record {
  admin = admin;
  min_stake = args.min_stake;
  challenge_expiry = args.challenge_expiry;
  max_trust_score = args.max_trust_score;
  base_trust_increment = args.base_trust_increment;
  bump = program.config_bump;
  verification_fee = args.verification_fee;
  migration_fee = 0;
  validator_pubkey = args.validator_pubkey;
  current_projection_version = 0;
  minimum_supported_projection_version = 0;
  pending_authority = default_pubkey;
  secondary_validator_pubkey = default_pubkey;
  secondary_validator_valid_until = pos 0;
}

module _ (chain : Chain) (program : Program) where
  -- `init` wants an account that is not there yet, and makes the admin pay its rent.
  unfoldable pub initialize_protocol : Pubkey → InitArgs → Registry → Result Registry
  initialize_protocol admin args r = do
    require (length r.data_bytes == 0 && bytes_eq r.owner program.system_program)
        (framework FrameworkError.account_in_use)
    s ← top_up chain program admin config_len r
    require (not (bytes_eq args.validator_pubkey default_pubkey))
        (registry RegistryError.invalid_validator_pubkey)
    ok (record s {
      owner = program.id;
      data_bytes = serialize program.discriminator (initial_config program admin args);
    })

  unfoldable pub update_protocol_config : Pubkey → ℕ → Registry → Result Registry
  update_protocol_config admin verification_fee r = do
    config ← load_config program r
    require (bytes_eq config.admin admin) (registry RegistryError.unauthorized)
    ok (
        emit (protocol_config_updated admin verification_fee) (record r {
          data_bytes =
              serialize program.discriminator
                (record config { verification_fee = verification_fee });
        }))
