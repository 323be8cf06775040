-- ===== src/Mint.antt =====
-- programs/entros-anchor/src/lib.rs: a wallet mints its identity with a token of its own, and moves
-- the identity to another wallet. The token program and the system program are parameters.
pub mod State
pub mod Token
pub mod Issue
pub mod Migrate
pub mod Sample
pub mod Tests
