-- ===== src/Recovery/Shared.antt =====
-- What `mint_anchor`, `reset_identity_state` and `rebaseline_anchor` share: the request counter
-- among the remaining accounts, and what they read of the registry's configuration.
pub mod Laws
use protocol_core.Base.{
  ℕ, suc, ◌+◌, Bool, true, false, Option, none, some, List, [], ◌∷◌, length, leb, if◌then◌else◌,
  Result, ok, err, EntrosAnchorError, require, ◌>>=◌, ◌>>◌, panic,
}
use protocol_core.Base.Words.{Bytes, from_le_bytes}
use protocol_core.Base.Bytes.{bytes_eq, slice, zeros}
use protocol_core.Chain.{Pubkey}
use protocol_core.Receipt.Policy.{
  ValidatorKeyPolicy, ProjectionPolicy, read_projection_policy, read_validator_key_policy,
}
use protocol_core.Counter
use protocol_core.Counter.{Holding, Program}
use protocol_core.Update.State.{Environment, Anchor, Account}
use protocol_core.Update.Proofs.{anchor_error}

-- An account that the context does not name.
pub record Remaining : Type 0 where
  pub account : Account
  pub is_writable : Bool

abbrev pub program_of : Environment → Program
program_of env = record {
  chain = env.chain;
  id = env.id;
  system_program = env.system_program;
  state_key = env.request_state_key;
  state_bump = env.request_state_bump;
  mint_key = env.mint_key;
  identity_bump = env.identity_bump;
  hash = env.hash;
}

abbrev pub holding : Account → Anchor → Holding
holding a w = record { key = a.key; owner = a.owner; data_bytes = a.data_bytes; ledger = w.ledger }

-- `proof_request::advance` of the remaining account, which the signer pays for.
unfoldable pub advance_counter : Environment → Pubkey → Pubkey → Remaining → Anchor → Result Anchor
advance_counter env wallet payer r w = do
  h ← Counter.advance (program_of env) r.is_writable true wallet payer (holding r.account w)
  let state : Account = record { key = h.key; owner = h.owner; data_bytes = h.data_bytes }
  ok (record w { request_state = state; ledger = h.ledger })

-- The request counter is the only remaining account, in a build with the feature.
unfoldable pub take_counter : Environment → Pubkey → List Remaining → Anchor → Result Anchor
take_counter env wallet [] w =
    if env.request_bound_v1
    then err (anchor_error EntrosAnchorError.invalid_request_context)
    else ok w
take_counter env wallet (r ∷ []) w =
    if env.request_bound_v1 then advance_counter env wallet wallet r w else ok w
take_counter env wallet (r ∷ s ∷ rs) w =
    if env.request_bound_v1
    then err (anchor_error EntrosAnchorError.invalid_request_context)
    else ok w

pub record Fees : Type 0 where
  pub verification_fee : ℕ
  pub projection_policy : ProjectionPolicy
  pub validator_keys : ValidatorKeyPolicy

-- A configuration that is too short for the fee charges none.
unfoldable pub read_fees : Environment → Account → Result Fees
read_fees env config = do
  require (bytes_eq config.owner env.registry_id)
      (anchor_error EntrosAnchorError.invalid_protocol_config)
  policy ← read_projection_policy config.data_bytes
  fee ←
      if leb 69 (length config.data_bytes)
      then (slice config.data_bytes 61 8 >>= λ bs. ok (from_le_bytes bs))
      else ok 0
  validator_keys ← read_validator_key_policy config.data_bytes
  let fees : Fees = record {
    verification_fee = fee;
    projection_policy = policy;
    validator_keys = validator_keys;
  }
  ok fees

unfoldable pub require_nonzero : Bytes → Result (Unit {0})
require_nonzero commitment =
    require (if bytes_eq commitment (zeros 32) then false else true)
      (anchor_error EntrosAnchorError.invalid_commitment)
