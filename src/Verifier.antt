-- ===== src/Verifier.antt =====
-- programs/entros-verifier/src: the accounts that the program creates and closes, the instructions,
-- and the dispatch of them. The pairing check of the proof system and the hash are parameters.
pub mod State
pub mod Layout
pub mod Proof
pub mod Challenges
pub mod Bound
pub mod Calls
pub mod Tests
