-- ===== src/Registry/Projection.antt =====
-- The projection versions: `read_projection_versions`, `validate_projection_transition` and
-- `set_projection_versions`.
pub mod Laws
use protocol_core.Base.{
  ℕ, ◌+◌, ◌≡◌, Bool, true, false, not, arith, length, ltb, leb, if◌then◌else◌, Result, ok, err,
  panic, registry, RegistryError, require, ◌>>=◌, ◌>>◌,
}
use protocol_core.Base.Words.{Bytes, to_le_bytes, from_le_bytes}
use protocol_core.Base.Bytes.{bytes_eq, slice, write}
use protocol_core.Chain.{Pubkey, Chain}
use protocol_core.Registry.Config.{config_len, len_pre_rollover}
use protocol_core.Registry.State.{
  Registry, Program, Event, projection_versions_set, emit, ensure_protocol_config_len,
  require_admin,
}

-- The pair (current, minimum). A layout that ends before the versions has version 0.
unfoldable pub read_projection_versions : Bytes → Result (ℕ × ℕ)
read_projection_versions d = if leb (length d) 109 then ok (0, 0) else (do
  require (leb len_pre_rollover (length d)) (registry RegistryError.invalid_protocol_config)
  c ← slice d 109 2
  m ← slice d 111 2
  require (leb (from_le_bytes m) (from_le_bytes c)) (registry RegistryError.invalid_protocol_config)
  ok (from_le_bytes c, from_le_bytes m))

unfoldable pub validate_projection_transition : ℕ × ℕ → ℕ × ℕ → Result (Unit {0})
validate_projection_transition stored next = do
  require (leb next.1 next.0) (registry RegistryError.invalid_projection_version_range)
  require (leb stored.0 next.0) (registry RegistryError.projection_version_rollback)
  require (leb stored.1 next.1) (registry RegistryError.minimum_projection_version_rollback)

module _ (chain : Chain) (program : Program) where
  unfoldable pub set_projection_versions : Pubkey → ℕ → ℕ → Registry → Result Registry
  set_projection_versions admin current minimum r = do
    require (bytes_eq r.owner program.id) (registry RegistryError.invalid_protocol_config)
    require_admin admin r
    stored ← read_projection_versions r.data_bytes
    validate_projection_transition stored (current, minimum)
    s ← ensure_protocol_config_len chain program admin r
    d ← write s.data_bytes 109 (to_le_bytes 2 current)
    d' ← write d 111 (to_le_bytes 2 minimum)
    ok (emit (projection_versions_set admin current minimum) (record s { data_bytes = d' }))
