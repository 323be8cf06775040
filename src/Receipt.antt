-- ===== src/Receipt.antt =====
-- programs/entros-anchor/src/lib.rs: what the anchor reads of the registry's configuration, and the
-- validator's receipt that must precede a mint, an update, a rebaseline or a reset.
pub mod Policy
pub mod Instruction
pub mod Payload
pub mod Digest
pub mod Tests
