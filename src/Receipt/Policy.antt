-- ===== src/Receipt/Policy.antt =====
-- `ValidatorKeyPolicy` and `ProjectionPolicy`, read from the bytes of the registry's configuration.
pub mod Laws
use protocol_core.Base.{
  ℕ, suc, ◌+◌, ◌≡◌, Bool, true, false, not, ◌&&◌, ◌||◌, List, [], ◌∷◌, length, leb, ◌==◌,
  if◌then◌else◌, Result, ok, err, entros_anchor, EntrosAnchorError, require, ◌>>=◌, ◌>>◌, panic,
}
use protocol_core.Base.Int.{ℤ, pos, leb_ℤ}
use protocol_core.Base.Words.{Bytes, from_le_bytes, i64_from_le_bytes}
use protocol_core.Base.Bytes.{bytes_eq, sub, slice, index, zeros}

-- The `PC_*` constants.
abbrev pub len_with_validator_pubkey : ℕ
len_with_validator_pubkey = 109

abbrev pub len_with_projection_policy : ℕ
len_with_projection_policy = 113

abbrev pub len_with_rollover : ℕ
len_with_rollover = 185

pub record ValidatorKeyPolicy : Type 0 where
  pub primary : Bytes
  pub secondary : Bytes
  pub secondary_valid_until : ℤ

unfoldable pub is_configured : ValidatorKeyPolicy → Bool
is_configured p = not (bytes_eq p.primary (zeros 32))

unfoldable pub accepts : ValidatorKeyPolicy → Bytes → ℤ → Bool
accepts p signed_pubkey now =
    bytes_eq signed_pubkey p.primary
    || (not (bytes_eq p.secondary (zeros 32))
        && leb_ℤ now p.secondary_valid_until
        && bytes_eq signed_pubkey p.secondary)

unfoldable pub read_validator_key_policy : Bytes → Result ValidatorKeyPolicy
read_validator_key_policy d = do
  primary ← if leb len_with_validator_pubkey (length d) then slice d 77 32 else ok (zeros 32)
  secondary ← if leb len_with_rollover (length d) then slice d 145 32 else ok (zeros 32)
  valid_until ←
      if leb len_with_rollover (length d)
      then (slice d 177 8 >>= λ bs. ok (i64_from_le_bytes bs))
      else ok (pos 0)
  let policy : ValidatorKeyPolicy = record {
    primary = primary;
    secondary = secondary;
    secondary_valid_until = valid_until;
  }
  ok policy

pub record ProjectionPolicy : Type 0 where
  pub current : ℕ
  pub minimum : ℕ

-- The two bytes are read one by one.
unfoldable pub read_u16 : Bytes → ℕ → Result ℕ
read_u16 d i = do low ← index d i; high ← index d (i + 1); ok (from_le_bytes (low ∷ high ∷ []))

unfoldable pub stored_policy : Bytes → Result ProjectionPolicy
unfolding read_u16
stored_policy d =
    if leb (length d) len_with_validator_pubkey
    then ok (record { current = 0; minimum = 0 })
    else (do
      require (leb len_with_projection_policy (length d))
          (entros_anchor EntrosAnchorError.invalid_protocol_config)
      current ← read_u16 d 109
      minimum ← read_u16 d 111
      ok (record { current = current; minimum = minimum }))

unfoldable pub read_projection_policy : Bytes → Result ProjectionPolicy
unfolding stored_policy
read_projection_policy d = do
  policy ← stored_policy d
  require (leb policy.minimum policy.current)
      (entros_anchor EntrosAnchorError.invalid_protocol_config)
  ok policy

unfoldable pub validate_identity_projection : ℕ → ProjectionPolicy → Result (Unit {0})
validate_identity_projection version policy = do
  require (leb policy.minimum version) (entros_anchor EntrosAnchorError.projection_version_too_old)
  require (leb version policy.current) (entros_anchor EntrosAnchorError.projection_version_too_new)

unfoldable pub validate_requested_projection : ℕ → ProjectionPolicy → Result (Unit {0})
validate_requested_projection version policy =
    require (version == policy.current)
      (entros_anchor EntrosAnchorError.projection_version_mismatch)
