-- ===== src/Registry/Config/Fields.antt =====
-- The struct, its borsh encoding in field order, and its fields by their byte offsets.
use protocol_core.Base.{ℕ, ◌<◌, ◌^◌, ◌≡◌, List, [], ◌∷◌, length}
use protocol_core.Base.Int.{ℤ, IsI64}
use protocol_core.Base.Words.{Bytes, to_le_bytes, from_le_bytes, i64_to_le_bytes, i64_from_le_bytes}
use protocol_core.Base.Bytes.{sub}
use protocol_core.Base.Concat.{concat}

pub record ProtocolConfig : Type 0 where
  pub admin : Bytes
  pub min_stake : ℕ
  pub challenge_expiry : ℤ
  pub max_trust_score : ℕ
  pub base_trust_increment : ℕ
  pub bump : ℕ
  pub verification_fee : ℕ
  pub migration_fee : ℕ
  pub validator_pubkey : Bytes
  pub current_projection_version : ℕ
  pub minimum_supported_projection_version : ℕ
  pub pending_authority : Bytes
  pub secondary_validator_pubkey : Bytes
  pub secondary_validator_valid_until : ℤ

-- The Rust types' sizes and ranges.
pub record IsConfig (c : ProtocolConfig) : Type 0 where
  pub admin_size : length c.admin ≡ 32
  pub min_stake_u64 : c.min_stake < 256 ^ 8
  pub challenge_expiry_i64 : IsI64 c.challenge_expiry
  pub max_trust_score_u16 : c.max_trust_score < 256 ^ 2
  pub base_trust_increment_u16 : c.base_trust_increment < 256 ^ 2
  pub bump_u8 : c.bump < 256 ^ 1
  pub verification_fee_u64 : c.verification_fee < 256 ^ 8
  pub migration_fee_u64 : c.migration_fee < 256 ^ 8
  pub validator_size : length c.validator_pubkey ≡ 32
  pub current_u16 : c.current_projection_version < 256 ^ 2
  pub minimum_u16 : c.minimum_supported_projection_version < 256 ^ 2
  pub pending_size : length c.pending_authority ≡ 32
  pub secondary_size : length c.secondary_validator_pubkey ≡ 32
  pub valid_until_i64 : IsI64 c.secondary_validator_valid_until

-- `ProtocolConfig::LEN_PRE_ROLLOVER` and `ProtocolConfig::LEN`.
abbrev pub len_pre_rollover : ℕ
len_pre_rollover = 113

abbrev pub config_len : ℕ
config_len = 185

abbrev pub parts : Bytes → ProtocolConfig → List Bytes
parts discriminator c =
    discriminator
    ∷ c.admin
    ∷ to_le_bytes 8 c.min_stake
    ∷ i64_to_le_bytes c.challenge_expiry
    ∷ to_le_bytes 2 c.max_trust_score
    ∷ to_le_bytes 2 c.base_trust_increment
    ∷ to_le_bytes 1 c.bump
    ∷ to_le_bytes 8 c.verification_fee
    ∷ to_le_bytes 8 c.migration_fee
    ∷ c.validator_pubkey
    ∷ to_le_bytes 2 c.current_projection_version
    ∷ to_le_bytes 2 c.minimum_supported_projection_version
    ∷ c.pending_authority
    ∷ c.secondary_validator_pubkey
    ∷ i64_to_le_bytes c.secondary_validator_valid_until
    ∷ []

unfoldable pub serialize : Bytes → ProtocolConfig → Bytes
unfolding concat
serialize discriminator c = concat (parts discriminator c)

-- The fields at the offsets that both programs read and write.
unfoldable pub view : Bytes → ProtocolConfig
view d = record {
  admin = sub d 8 32;
  min_stake = from_le_bytes (sub d 40 8);
  challenge_expiry = i64_from_le_bytes (sub d 48 8);
  max_trust_score = from_le_bytes (sub d 56 2);
  base_trust_increment = from_le_bytes (sub d 58 2);
  bump = from_le_bytes (sub d 60 1);
  verification_fee = from_le_bytes (sub d 61 8);
  migration_fee = from_le_bytes (sub d 69 8);
  validator_pubkey = sub d 77 32;
  current_projection_version = from_le_bytes (sub d 109 2);
  minimum_supported_projection_version = from_le_bytes (sub d 111 2);
  pending_authority = sub d 113 32;
  secondary_validator_pubkey = sub d 145 32;
  secondary_validator_valid_until = i64_from_le_bytes (sub d 177 8);
}
