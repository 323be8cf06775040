-- ===== src/Mint/Issue.antt =====
-- `mint_anchor`: a wallet's new identity.
pub mod Steps
pub mod Laws
pub mod Amounts
use protocol_core.Base.{
  ℕ, suc, Bool, true, false, Option, none, some, List, [], ◌∷◌, ltb, replicate, if◌then◌else◌,
  Result, ok, err, EntrosAnchorError, ◌>>=◌, ◌>>◌,
}
use protocol_core.Base.Int.{ℤ, pos}
use protocol_core.Base.Words.{Bytes}
use protocol_core.Base.Bytes.{zeros}
use protocol_core.Chain.{Pubkey}
use protocol_core.Receipt.Payload.{ReceiptPurpose, ReceiptSession, verify_validator_receipt}
use protocol_core.Update.State.{Environment, Account, IdentityState, anchor_minted}
use protocol_core.Update.Proofs.{anchor_error}
use protocol_core.Update.Handler.{emit_receipt_session}
use protocol_core.Recovery.Shared.{Fees, read_fees, require_nonzero}
use protocol_core.Mint.State.{
  Store, Tokens, World, Meta, transfer_lamports, init_identity, exit_identity, advance_at,
}
use protocol_core.Mint.Token.{issue_token}

-- The request counter is the only remaining account, in a build with the feature.
unfoldable pub take_counter : Environment → Pubkey → List Meta → Store → Result Store
take_counter env user [] s =
    if env.request_bound_v1
    then err (anchor_error EntrosAnchorError.invalid_request_context)
    else ok s
take_counter env user (m ∷ []) s =
    if env.request_bound_v1 then advance_at env user user m s else ok s
take_counter env user (m ∷ n ∷ ms) s =
    if env.request_bound_v1
    then err (anchor_error EntrosAnchorError.invalid_request_context)
    else ok s

-- What the instruction does not set is zero, as the new account is.
unfoldable pub new_identity : Environment → Pubkey → ℤ → Bytes → ℕ → IdentityState
new_identity env user now initial_commitment version = record {
  owner = user;
  creation_timestamp = now;
  last_verification_timestamp = now;
  verification_count = 0;
  trust_score = 0;
  current_commitment = initial_commitment;
  mint = env.mint_key user;
  bump = env.identity_bump user;
  recent_timestamps = replicate 52 (pos 0);
  last_reset_timestamp = pos 0;
  new_wallet = zeros 32;
  projection_version = version;
  last_rebaseline_timestamp = pos 0;
}

abbrev pub config_of : Environment → Store → Account
config_of env s = record {
  key = env.config_key;
  owner = (s.accounts env.config_key).owner;
  data_bytes = (s.accounts env.config_key).data_bytes;
}

unfoldable pub pay : Environment → Pubkey → ℕ → Store → Result Store
unfolding transfer_lamports
pay env user fee s = if ltb 0 fee then transfer_lamports env user env.treasury_key fee s else ok s

-- The account's context, the counter, the token; then the receipt, the fee and the identity.
unfoldable pub mint_anchor :
    Environment → Tokens → Pubkey → Pubkey → ℤ → Bytes → List Meta → World → Result World
mint_anchor env tokens user token_account now initial_commitment remaining w = do
  let k = env.identity_key user
  opened ← init_identity env user k w.store
  counted ← take_counter env user remaining opened
  require_nonzero initial_commitment
  issued ← issue_token env tokens user token_account counted
  fees ← read_fees env (config_of env issued)
  session ←
      verify_validator_receipt env.sysvar fees.validator_keys user initial_commitment
        ReceiptPurpose.mint fees.projection_policy.current now
  let identity = new_identity env user now initial_commitment fees.projection_policy.current
  paid ← pay env user fees.verification_fee issued
  let minted : World = record {
    store = exit_identity env k identity paid;
    events =
        emit_receipt_session identity.owner ReceiptPurpose.mint fees.projection_policy.current
          session (anchor_minted identity.owner identity.mint initial_commitment ∷ w.events);
  }
  ok minted
