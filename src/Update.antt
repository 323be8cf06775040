-- ===== src/Update.antt =====
-- programs/entros-anchor/src/lib.rs, `process_anchor_update` with its three instructions: a wallet
-- moves its identity to a new commitment, with a proof that the verifier stored and a receipt that
-- a validator signed.
pub mod State
pub mod Layout
pub mod Proofs
pub mod Identity
pub mod Handler
pub mod Sample
pub mod Tests
