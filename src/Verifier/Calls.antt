-- ===== src/Verifier/Calls.antt =====
-- programs/entros-verifier/src/lib.rs, the `#[program]` module: the calls and a run of them.
pub mod Attested
pub mod Invariant
pub mod Isolation
use protocol_core.Base.{ℕ, List, [], ◌∷◌, Result, ok, err}
use protocol_core.Base.Int.{ℤ}
use protocol_core.Base.Words.{Bytes}
use protocol_core.Chain.{Pubkey}
use protocol_core.Verifier.State.{Verifier, Build, Seeds}
use protocol_core.Verifier.Challenges.{
  create_challenge, close_challenge, close_verification_result, close_bound_verification_result,
}
use protocol_core.Verifier.Proof.{verify_proof, verify_proof_compact}
use protocol_core.Verifier.Bound.{Context, Arguments, Foreign, verify_proof_bound}

-- One constructor for each instruction, the signer first.
pub data Call : Type 0 where
  create : Pubkey → Bytes → ℤ → Call
  verify : Pubkey → ℤ → Bytes → List Bytes → Bytes → Call
  verify_compact : Pubkey → ℤ → Bytes → Bytes → Bytes → Bytes → ℕ → ℕ → Call
  verify_bound : Pubkey → ℤ → Arguments → Foreign → Foreign → Call
  close_created : Pubkey → Seeds → Call
  close_result : Pubkey → Seeds → Call
  close_bound : Pubkey → Bytes → Call

abbrev pub signer : Call → Pubkey
signer (create w nonce now) = w
signer (verify w now proof_bytes inputs nonce) = w
signer (verify_compact w now nonce proof_bytes new prev t m) = w
signer (verify_bound w now args identity request_state) = w
signer (close_created w address) = w
signer (close_result w address) = w
signer (close_bound w nonce) = w

-- A failed transaction changes nothing.
abbrev pub after : Verifier → Result Verifier → Verifier
after s (ok t) = t
after s (err e) = s

module _ (build : Build) (ctx : Context) where
  unfoldable pub exec : Call → Verifier → Result Verifier
  exec (create w nonce now) = create_challenge build w nonce now
  exec (verify w now proof_bytes inputs nonce) = verify_proof build w now proof_bytes inputs nonce
  exec (verify_compact w now nonce proof_bytes new prev t m) =
      verify_proof_compact build w now nonce proof_bytes new prev t m
  exec (verify_bound w now args identity request_state) =
      verify_proof_bound build ctx w now args identity request_state
  exec (close_created w address) = close_challenge w address
  exec (close_result w address) = close_verification_result w address
  exec (close_bound w nonce) = close_bound_verification_result build w nonce

  unfoldable pub run : Verifier → List Call → Verifier
  run s [] = s
  run s (c ∷ cs) = run (after s (exec c s)) cs
