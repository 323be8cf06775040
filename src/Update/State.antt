-- ===== src/Update/State.antt =====
-- The accounts of an update, and what surrounds them. The derived codecs of two account types, the
-- derivation of addresses, the hash and the call of the verifier program are parameters.
use protocol_core.Base.{ℕ, Bool, Option, List}
use protocol_core.Base.Int.{ℤ}
use protocol_core.Base.Words.{Bytes}
use protocol_core.Chain.{Pubkey, Ledger, Chain}
use protocol_core.Request.{BoundVerificationResult}
use protocol_core.Receipt.Instruction.{Sysvar}
use protocol_core.Receipt.Payload.{ReceiptSession}

pub record IdentityState : Type 0 where
  pub owner : Pubkey
  pub creation_timestamp : ℤ
  pub last_verification_timestamp : ℤ
  pub verification_count : ℕ
  pub trust_score : ℕ
  pub current_commitment : Bytes
  pub mint : Pubkey
  pub bump : ℕ
  pub recent_timestamps : List ℤ
  pub last_reset_timestamp : ℤ
  pub new_wallet : Pubkey
  pub projection_version : ℕ
  pub last_rebaseline_timestamp : ℤ

-- `IdentityState::LEN`
abbrev pub identity_len : ℕ
identity_len = 593

pub record Account : Type 0 where
  pub key : Pubkey
  pub owner : Pubkey
  pub data_bytes : Bytes

pub data Event : Type 0 where
  -- owner, mint, commitment
  anchor_minted : Pubkey → Pubkey → Bytes → Event
  -- the wallets, then the identities, old before new
  migrate_identity_event : Pubkey → Pubkey → Pubkey → Pubkey → Event
  -- owner, verification count, trust score, commitment
  anchor_updated : Pubkey → ℕ → ℕ → Bytes → Event
  -- owner, mint, commitment
  anchor_reset : Pubkey → Pubkey → Bytes → Event
  encrypted_baseline_set : Pubkey → Event
  -- owner, commitment, projection version
  anchor_rebaselined : Pubkey → Bytes → ℕ → Event
  -- owner, purpose, projection version, and the session
  receipt_session_bound : Pubkey → ℕ → ℕ → ReceiptSession → Event

-- The identity, the verifier's result, the registry's configuration and the request counter.
pub record Anchor : Type 0 where
  pub identity : Account
  pub result : Account
  pub config : Account
  pub request_state : Account
  pub ledger : Ledger
  pub events : List Event

pub record Environment : Type 0 where
  pub chain : Chain
  pub request_bound_v1 : Bool
  pub id : Pubkey
  pub verifier_id : Pubkey
  pub registry_id : Pubkey
  pub system_program : Pubkey
  pub treasury_key : Pubkey
  pub deployment_domain : Bytes
  pub hash : Bytes → Bytes
  -- `find_program_address` of the request counter, and `create_program_address` of the results,
  -- from the wallet, the nonce and the bump
  pub request_state_key : Pubkey → Pubkey
  pub request_state_bump : Pubkey → ℕ
  -- the other addresses of a wallet, and the bumps that the framework finds
  pub identity_key : Pubkey → Pubkey
  pub identity_bump : Pubkey → ℕ
  pub mint_key : Pubkey → Pubkey
  pub baseline_bump : Pubkey → ℕ
  pub mint_authority_key : Pubkey
  pub config_key : Pubkey
  pub sysvar_id : Pubkey
  pub result_key : Pubkey → Bytes → ℕ → Option Pubkey
  pub bound_result_key : Pubkey → Bytes → ℕ → Option Pubkey
  pub deserialize : Bytes → Option IdentityState
  pub serialize : IdentityState → Bytes
  pub deserialize_bound : Bytes → Option BoundVerificationResult
  -- does the verifier program, called with these bytes by this signer, close this account?
  pub invoke : Bytes → Pubkey → Account → Bool
  pub sysvar : Sysvar
