-- ===== src/Base/Outcome.antt =====
-- Results of the handlers: the error enums of the three programs, the framework's refusals, and
-- a panic, which aborts the transaction like an error does.

use mathlib.Core.Path.{◌≡◌, refl}
use mathlib.Core.Logic.{◌⊎◌, inl, inr}
use mathlib.Core.Bool.{Bool, true, false}
use mathlib.Core.Option.{Option, none, some}

-- programs/*/src/errors.rs
pub data RegistryError : Type 0 where
  insufficient_stake validator_already_registered validator_not_active unauthorized : RegistryError
  arithmetic_overflow insufficient_treasury_balance program_data_bytes : RegistryError
  wrong_upgrade_authority invalid_protocol_config invalid_validator_pubkey : RegistryError
  invalid_projection_version_range projection_version_rollback : RegistryError
  minimum_projection_version_rollback invalid_pending_authority no_pending_authority : RegistryError
  invalid_validator_grace_period : RegistryError

pub data VerifierError : Type 0 where
  invalid_proof_format proof_verification_failed challenge_expired : VerifierError
  challenge_already_used invalid_public_inputs challenge_not_used invalid_nonce : VerifierError
  arithmetic_overflow unsupported_proof_generation invalid_request_context : VerifierError

pub data EntrosAnchorError : Type 0 where
  invalid_commitment unauthorized arithmetic_overflow invalid_protocol_config : EntrosAnchorError
  invalid_identity_state identity_serialization_failed : EntrosAnchorError
  verification_result_wrong_owner stale_verification_result verifier_mismatch : EntrosAnchorError
  proof_expired commitment_mismatch prev_commitment_mismatch : EntrosAnchorError
  reset_cooldown_active rebaseline_cooldown_active unauthorized_new_wallet : EntrosAnchorError
  proof_from_future missing_validator_receipt receipt_validator_mismatch : EntrosAnchorError
  receipt_commitment_mismatch receipt_wallet_mismatch receipt_expired : EntrosAnchorError
  receipt_from_future malformed_receipt_message identity_state_not_found : EntrosAnchorError
  validator_not_configured verification_interval_too_short : EntrosAnchorError
  projection_version_too_old projection_version_too_new : EntrosAnchorError
  projection_version_not_advanced receipt_version_mismatch : EntrosAnchorError
  receipt_purpose_mismatch receipt_projection_version_mismatch : EntrosAnchorError
  projection_version_mismatch invalid_reset_receipt_accounts : EntrosAnchorError
  unsupported_proof_generation invalid_request_context invalid_assurance_tier : EntrosAnchorError
  commitment_unchanged invalid_verification_result_pda invalid_verifier_program : EntrosAnchorError
  receipt_already_used : EntrosAnchorError

-- Refusals that do not come from the handlers' own code: a `#[derive(Accounts)]` constraint, an
-- account that is there already or is missing, and a failed call of another program.
pub data FrameworkError : Type 0 where
  constraint_violated account_in_use account_not_initialized cpi_failed : FrameworkError

pub data Error : Type 0 where
  registry : RegistryError → Error
  verifier : VerifierError → Error
  entros_anchor : EntrosAnchorError → Error
  framework : FrameworkError → Error
  panic : Error

-- What a handler returns: the new state or value, or the error that undoes the transaction.
pub data Result {ℓ} (A : Type ℓ) : Type ℓ where
  ok : A → Result A
  err : Error → Result A

-- `require!(condition, error)`.
abbrev pub require : Bool → Error → Result (Unit {0})
require condition e = elim condition [ true ↦ ok tt | false ↦ err e ]

-- `option.ok_or(error)`.
abbrev pub ok_or {ℓ} : {A : Type ℓ} → Option A → Error → Result A
ok_or option e = elim option [ none ↦ err e | some a ↦ ok a ]

-- `result?` and what follows it.
infixl 5 ◌>>=◌
abbrev pub ◌>>=◌ {ℓ₁ ℓ₂} :
    {State : Type ℓ₁} {Next : Type ℓ₂} → Result State → (State → Result Next) → Result Next
err e >>= rest = err e
ok s >>= rest = rest s

infixl 5 ◌>>◌
abbrev pub ◌>>◌ {ℓ} : {Next : Type ℓ} → Result (Unit {0}) → Result Next → Result Next
err e >> rest = err e
ok u >> rest = rest

-- A result is one of the two, with the equation that says so.
pub Result-cases {ℓ} :
    {A : Type ℓ} (m : Result A) → ((a : A) × (m ≡ ok a)) ⊎ ((e : Error) × (m ≡ err e))
Result-cases (ok a) = inl (a, refl)
Result-cases (err e) = inr (e, refl)
