-- ===== src/Registry/Config.antt =====
-- programs/entros-registry/src/state.rs, `ProtocolConfig`: the account's fields, its bytes, and the
-- fields read back from the bytes.
mod Fields
mod Layout
mod Writes
pub use Writes.*
pub use Layout.{view-serialize, length-serialize, validator_pubkey_at}
unfoldable pub use Fields.{serialize, view}
pub use Fields.{ProtocolConfig, IsConfig, config_len, len_pre_rollover}
