-- ===== src/Registry.antt =====
-- programs/entros-registry/src/lib.rs: the protocol configuration and its admin, the validators'
-- stakes, the treasury.
pub mod Config
pub mod State
pub mod Setup
pub mod Keys
pub mod Authority
pub mod Projection
pub mod Funds
pub mod Calls
pub mod Tests
