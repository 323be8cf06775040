-- ===== src/Registry/Keys.antt =====
-- `set_validator_pubkey` and `rotate_validator_pubkey`.
pub mod Laws
use protocol_core.Base.{
  ℕ, ◌+◌, ◌≡◌, Bool, true, false, not, ◌&&◌, Option, none, some, arith, length, ltb, leb, ◌==◌,
  if◌then◌else◌, Result, ok, err, panic, registry, framework, RegistryError, require, ok_or, ◌>>=◌,
  ◌>>◌,
}
use protocol_core.Base.Int.{ℤ, pos, leb_ℤ, ltb_ℤ, checked_add}
use protocol_core.Base.Words.{Bytes, i64_to_le_bytes}
use protocol_core.Base.Bytes.{bytes_eq, slice, write, zeros}
use protocol_core.Chain.{Pubkey, Chain}
use protocol_core.Registry.State.{
  Registry, Program, Event, validator_pubkey_set, validator_pubkey_rotated, default_pubkey, emit,
  ensure_protocol_config_len, require_admin,
}

-- `MAX_VALIDATOR_GRACE_PERIOD_SECS`
abbrev pub max_validator_grace_period_secs : ℕ
max_validator_grace_period_secs = 86400

-- The three writes that both instructions end with.
unfoldable pub write_keys : Bytes → Pubkey → Pubkey → Bytes → Result Bytes
write_keys d primary secondary valid_until = do
  d1 ← write d 77 primary
  d2 ← write d1 145 secondary
  write d2 177 valid_until

-- The key in use before, which a legacy account may lack.
unfoldable pub old_validator : Bytes → Result Pubkey
old_validator d = if leb 109 (length d) then slice d 77 32 else ok default_pubkey

-- Which key stays valid, and until when.
unfoldable pub grace_window : Pubkey → Pubkey → ℤ → ℤ → Result (Pubkey × ℤ)
grace_window old new now grace_period_secs =
    if ltb_ℤ (pos 0) grace_period_secs
      && not (bytes_eq old default_pubkey)
      && not (bytes_eq old new)
    then (do
      valid_until ←
          ok_or (checked_add now grace_period_secs) (registry RegistryError.arithmetic_overflow)
      ok (old, valid_until))
    else ok (default_pubkey, pos 0)

module _ (chain : Chain) (program : Program) where
  unfoldable pub set_validator_pubkey : Pubkey → Pubkey → Registry → Result Registry
  set_validator_pubkey admin validator_pubkey r = do
    require (not (bytes_eq validator_pubkey default_pubkey))
        (registry RegistryError.invalid_validator_pubkey)
    require_admin admin r
    s ← ensure_protocol_config_len chain program admin r
    d ← write_keys s.data_bytes validator_pubkey (zeros 32) (zeros 8)
    ok (emit (validator_pubkey_set admin validator_pubkey) (record s { data_bytes = d }))

  unfoldable pub rotate_validator_pubkey : Pubkey → Pubkey → ℤ → ℤ → Registry → Result Registry
  rotate_validator_pubkey admin new_validator_pubkey grace_period_secs now r = do
    require (not (bytes_eq new_validator_pubkey default_pubkey))
        (registry RegistryError.invalid_validator_pubkey)
    require
        (leb_ℤ (pos 0) grace_period_secs
          && leb_ℤ grace_period_secs (pos max_validator_grace_period_secs))
        (registry RegistryError.invalid_validator_grace_period)
    require (bytes_eq r.owner program.id) (registry RegistryError.invalid_protocol_config)
    require_admin admin r
    old ← old_validator r.data_bytes
    s ← ensure_protocol_config_len chain program admin r
    window ← grace_window old new_validator_pubkey now grace_period_secs
    d ← write_keys s.data_bytes new_validator_pubkey window.0 (i64_to_le_bytes window.1)
    ok (
        emit (validator_pubkey_rotated admin new_validator_pubkey window.0 window.1)
          (record s { data_bytes = d }))
