-- ===== src/Recovery.antt =====
-- programs/entros-anchor/src/lib.rs: a wallet replaces its commitment without a proof, by a reset or
-- a rebaseline, and stores its encrypted baseline.
pub mod Shared
pub mod Reset
pub mod Rebaseline
pub mod Baseline
pub mod Tests
