-- ===== src/Registry/Calls.antt =====
-- The instructions of `#[program] pub mod entros_registry` as one dispatch, and a history of them.
pub mod Spec
pub mod Refine
pub mod History
pub mod Solvency
use protocol_core.Base.{ℕ, List, [], ◌∷◌, Result, ok, err, Error}
use protocol_core.Base.Int.{ℤ}
use protocol_core.Base.Words.{Bytes}
use protocol_core.Chain.{Pubkey, Chain}
use protocol_core.Registry.State.{Registry, Program}
use protocol_core.Registry.Setup.{InitArgs, initialize_protocol, update_protocol_config}
use protocol_core.Registry.Keys.{set_validator_pubkey, rotate_validator_pubkey}
use protocol_core.Registry.Authority.{propose_authority, accept_authority, migrate_admin}
use protocol_core.Registry.Projection.{set_projection_versions}
use protocol_core.Registry.Funds.{
  withdraw_treasury, register_validator, unstake_validator, compute_trust_score,
}

-- An instruction with its signer, its arguments and the clock that it reads.
pub data Call : Type 0 where
  initialize : Pubkey → InitArgs → Call
  update_config : Pubkey → ℕ → Call
  set_key : Pubkey → Pubkey → Call
  rotate_key : Pubkey → Pubkey → ℤ → ℤ → Call
  propose : Pubkey → Pubkey → Call
  accept : Pubkey → Call
  migrate : Bytes → Pubkey → Call
  set_versions : Pubkey → ℕ → ℕ → Call
  withdraw : Pubkey → ℕ → Call
  register : Pubkey → ℕ → ℤ → Call
  unstake : Pubkey → Call
  compute : ℕ → ℤ → List ℤ → ℤ → Call

-- A failed transaction changes nothing.
abbrev pub after : Registry → Result Registry → Registry
after r (ok s) = s
after r (err e) = r

module _ (chain : Chain) (program : Program) where
  unfoldable pub exec : Call → Registry → Result Registry
  exec (initialize admin args) = initialize_protocol chain program admin args
  exec (update_config admin fee) = update_protocol_config chain program admin fee
  exec (set_key admin k) = set_validator_pubkey chain program admin k
  exec (rotate_key admin k grace now) = rotate_validator_pubkey chain program admin k grace now
  exec (propose admin k) = propose_authority chain program admin k
  exec (accept signer) = accept_authority chain program signer
  exec (migrate programdata signer) = migrate_admin chain program programdata signer
  exec (set_versions admin c m) = set_projection_versions chain program admin c m
  exec (withdraw admin amount) = withdraw_treasury chain program admin amount
  exec (register validator stake now) = register_validator chain program validator stake now
  exec (unstake validator) = unstake_validator chain program validator
  exec (compute count creation stamps now) =
      compute_trust_score chain program count creation stamps now

  unfoldable pub run : Registry → List Call → Registry
  run r [] = r
  run r (c ∷ cs) = run (after r (exec c r)) cs
