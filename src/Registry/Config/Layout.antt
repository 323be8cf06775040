-- ===== src/Registry/Config/Layout.antt =====
-- The offsets fall on the fields: reading back what was encoded, and the effect of each write.
use protocol_core.Base.{ℕ, ◌<◌, ◌≡◌, length, length-append, arith}
use protocol_core.Base.Words.{
  Bytes, to_le_bytes, i64_to_le_bytes, i64_round_trip, from_le_bytes-to_le_bytes,
  length-to_le_bytes, length-i64_to_le_bytes,
}
use protocol_core.Base.Bytes.{sub}
use protocol_core.Base.Concat.{elem, offset, concat, sub-concat}
use protocol_core.Registry.Config.Fields.{
  ProtocolConfig, IsConfig, parts, serialize, view, config_len,
}

-- Reading the fields of an encoded configuration gives them back: the offsets are those of the
-- encoding.
module _ (discriminator : Bytes) (c : ProtocolConfig) (tag : length discriminator ≡ 8)
    (v : IsConfig c) where
  -- The field behind the parts above it, whose sizes the record and the codecs give.
  part_at :
      (k i n : ℕ)
      → offset (parts discriminator c) k ≡ i
      → length (elem (parts discriminator c) k) ≡ n
      → k < 15
      → sub (serialize discriminator c) i n ≡ elem (parts discriminator c) k
  unfolding serialize
  part_at k i n e h l = sub-concat (parts discriminator c) k i n e h (omega arith)

  pub admin_at : sub (serialize discriminator c) 8 32 ≡ c.admin
  unfolding elem offset
  admin_at =
      part_at 1 8 32 (omega (arith, length-to_le_bytes, length-i64_to_le_bytes))
        (omega (arith, length-to_le_bytes, length-i64_to_le_bytes)) (omega arith)

  pub min_stake_at : sub (serialize discriminator c) 40 8 ≡ to_le_bytes 8 c.min_stake
  unfolding elem offset
  min_stake_at =
      part_at 2 40 8 (omega (arith, length-to_le_bytes, length-i64_to_le_bytes))
        (omega (arith, length-to_le_bytes, length-i64_to_le_bytes)) (omega arith)

  pub challenge_expiry_at :
      sub (serialize discriminator c) 48 8 ≡ i64_to_le_bytes c.challenge_expiry
  unfolding elem offset
  challenge_expiry_at =
      part_at 3 48 8 (omega (arith, length-to_le_bytes, length-i64_to_le_bytes))
        (omega (arith, length-to_le_bytes, length-i64_to_le_bytes)) (omega arith)

  pub max_trust_score_at : sub (serialize discriminator c) 56 2 ≡ to_le_bytes 2 c.max_trust_score
  unfolding elem offset
  max_trust_score_at =
      part_at 4 56 2 (omega (arith, length-to_le_bytes, length-i64_to_le_bytes))
        (omega (arith, length-to_le_bytes, length-i64_to_le_bytes)) (omega arith)

  pub base_trust_increment_at :
      sub (serialize discriminator c) 58 2 ≡ to_le_bytes 2 c.base_trust_increment
  unfolding elem offset
  base_trust_increment_at =
      part_at 5 58 2 (omega (arith, length-to_le_bytes, length-i64_to_le_bytes))
        (omega (arith, length-to_le_bytes, length-i64_to_le_bytes)) (omega arith)

  pub bump_at : sub (serialize discriminator c) 60 1 ≡ to_le_bytes 1 c.bump
  unfolding elem offset
  bump_at =
      part_at 6 60 1 (omega (arith, length-to_le_bytes, length-i64_to_le_bytes))
        (omega (arith, length-to_le_bytes, length-i64_to_le_bytes)) (omega arith)

  pub verification_fee_at : sub (serialize discriminator c) 61 8 ≡ to_le_bytes 8 c.verification_fee
  unfolding elem offset
  verification_fee_at =
      part_at 7 61 8 (omega (arith, length-to_le_bytes, length-i64_to_le_bytes))
        (omega (arith, length-to_le_bytes, length-i64_to_le_bytes)) (omega arith)

  pub migration_fee_at : sub (serialize discriminator c) 69 8 ≡ to_le_bytes 8 c.migration_fee
  unfolding elem offset
  migration_fee_at =
      part_at 8 69 8 (omega (arith, length-to_le_bytes, length-i64_to_le_bytes))
        (omega (arith, length-to_le_bytes, length-i64_to_le_bytes)) (omega arith)

  pub validator_pubkey_at : sub (serialize discriminator c) 77 32 ≡ c.validator_pubkey
  unfolding elem offset
  validator_pubkey_at =
      part_at 9 77 32 (omega (arith, length-to_le_bytes, length-i64_to_le_bytes))
        (omega (arith, length-to_le_bytes, length-i64_to_le_bytes)) (omega arith)

  pub current_projection_version_at :
      sub (serialize discriminator c) 109 2 ≡ to_le_bytes 2 c.current_projection_version
  unfolding elem offset
  current_projection_version_at =
      part_at 10 109 2 (omega (arith, length-to_le_bytes, length-i64_to_le_bytes))
        (omega (arith, length-to_le_bytes, length-i64_to_le_bytes)) (omega arith)

  pub minimum_supported_projection_version_at :
      sub (serialize discriminator c) 111 2 ≡ to_le_bytes 2 c.minimum_supported_projection_version
  unfolding elem offset
  minimum_supported_projection_version_at =
      part_at 11 111 2 (omega (arith, length-to_le_bytes, length-i64_to_le_bytes))
        (omega (arith, length-to_le_bytes, length-i64_to_le_bytes)) (omega arith)

  pub pending_authority_at : sub (serialize discriminator c) 113 32 ≡ c.pending_authority
  unfolding elem offset
  pending_authority_at =
      part_at 12 113 32 (omega (arith, length-to_le_bytes, length-i64_to_le_bytes))
        (omega (arith, length-to_le_bytes, length-i64_to_le_bytes)) (omega arith)

  pub secondary_validator_pubkey_at :
      sub (serialize discriminator c) 145 32 ≡ c.secondary_validator_pubkey
  unfolding elem offset
  secondary_validator_pubkey_at =
      part_at 13 145 32 (omega (arith, length-to_le_bytes, length-i64_to_le_bytes))
        (omega (arith, length-to_le_bytes, length-i64_to_le_bytes)) (omega arith)

  pub secondary_validator_valid_until_at :
      sub (serialize discriminator c) 177 8 ≡ i64_to_le_bytes c.secondary_validator_valid_until
  unfolding elem offset
  secondary_validator_valid_until_at =
      part_at 14 177 8 (omega (arith, length-to_le_bytes, length-i64_to_le_bytes))
        (omega (arith, length-to_le_bytes, length-i64_to_le_bytes)) (omega arith)

  -- Reading the fields, at the byte offsets that the programs use, of an encoded configuration
  -- with fields in range gives the configuration back.
  pub view-serialize : view (serialize discriminator c) ≡ c
  unfolding view
  view-serialize = ground (
    arith,
    admin_at,
    min_stake_at,
    from_le_bytes-to_le_bytes 8 c.min_stake v.min_stake_u64,
    challenge_expiry_at,
    i64_round_trip c.challenge_expiry v.challenge_expiry_i64,
    max_trust_score_at,
    from_le_bytes-to_le_bytes 2 c.max_trust_score v.max_trust_score_u16,
    base_trust_increment_at,
    from_le_bytes-to_le_bytes 2 c.base_trust_increment v.base_trust_increment_u16,
    bump_at,
    from_le_bytes-to_le_bytes 1 c.bump v.bump_u8,
    verification_fee_at,
    from_le_bytes-to_le_bytes 8 c.verification_fee v.verification_fee_u64,
    migration_fee_at,
    from_le_bytes-to_le_bytes 8 c.migration_fee v.migration_fee_u64,
    validator_pubkey_at,
    current_projection_version_at,
    from_le_bytes-to_le_bytes 2 c.current_projection_version v.current_u16,
    minimum_supported_projection_version_at,
    from_le_bytes-to_le_bytes 2 c.minimum_supported_projection_version v.minimum_u16,
    pending_authority_at,
    secondary_validator_pubkey_at,
    secondary_validator_valid_until_at,
    i64_round_trip c.secondary_validator_valid_until v.valid_until_i64,
  )

  -- The encoding has the length of the account.
  pub length-serialize : length (serialize discriminator c) ≡ config_len
  unfolding serialize concat
  length-serialize = omega (arith, length-append {0}, length-to_le_bytes, length-i64_to_le_bytes)
