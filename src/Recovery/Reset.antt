-- ===== src/Recovery/Reset.antt =====
-- `reset_identity_state`: a new commitment, and a history that starts again.
pub mod Counted
pub mod Laws
use protocol_core.Base.{
  ℕ, suc, ◌+◌, ◌≡◌, Bool, true, false, Option, none, some, List, [], ◌∷◌, length, leb, ltb, ◌==◌,
  replicate, if◌then◌else◌, Result, ok, err, EntrosAnchorError, require, ok_or, ◌>>=◌, ◌>>◌,
}
use protocol_core.Base.Int.{ℤ, pos, leb_ℤ, saturating_sub}
use protocol_core.Base.Words.{Bytes}
use protocol_core.Base.Bytes.{bytes_eq, put}
use protocol_core.Chain.{Pubkey}
use protocol_core.Receipt.Policy.{ProjectionPolicy, validate_requested_projection}
use protocol_core.Receipt.Payload.{ReceiptPurpose, ReceiptSession, verify_validator_receipt}
use protocol_core.Update.State.{Environment, Anchor, Account, IdentityState, anchor_reset}
use protocol_core.Update.Proofs.{anchor_error}
use protocol_core.Update.Handler.{with_bytes, grow, pay_fee, emit_receipt_session}
use protocol_core.Recovery.Shared.{Remaining, Fees, advance_counter, read_fees, require_nonzero}

abbrev pub reset_cooldown_secs : ℕ
reset_cooldown_secs = 604800

-- `split_last`
unfoldable pub split_last : List Remaining → Option (Remaining × List Remaining)
split_last [] = none
split_last (r ∷ rs) = elim (split_last rs) [ none ↦ some (r, []) | some p ↦ some (p.0, r ∷ p.1) ]

-- The request counter is the last of the remaining accounts, in a build with the feature.
unfoldable pub take_last_counter :
    Environment → Pubkey → List Remaining → Anchor → Result (List Remaining × Anchor)
take_last_counter env wallet remaining w =
    if env.request_bound_v1
    then (do
      p ← ok_or (split_last remaining) (anchor_error EntrosAnchorError.invalid_request_context)
      a ← advance_counter env wallet wallet p.0 w
      ok (p.1, a))
    else ok (remaining, w)

-- The one account that is left is the instructions sysvar.
unfoldable pub require_sysvar : Environment → List Remaining → Result (Unit {0})
require_sysvar env (r ∷ []) =
    require (bytes_eq r.account.key env.sysvar_id)
      (anchor_error EntrosAnchorError.invalid_reset_receipt_accounts)
require_sysvar env [] = err (anchor_error EntrosAnchorError.invalid_reset_receipt_accounts)
require_sysvar env (r ∷ s ∷ rs) =
    err (anchor_error EntrosAnchorError.invalid_reset_receipt_accounts)

unfoldable pub reset_identity : ℤ → Bytes → ℕ → IdentityState → IdentityState
reset_identity now new_commitment version i = record i {
  current_commitment = new_commitment;
  verification_count = 0;
  trust_score = 0;
  recent_timestamps = replicate 52 (pos 0);
  last_verification_timestamp = now;
  last_reset_timestamp = now;
  projection_version = version;
}

-- The writes, once the receipt is accepted.
unfoldable pub finish_reset :
    Environment
    → Pubkey
    → Bytes
    → Fees
    → Option ReceiptSession
    → IdentityState
    → Anchor
    → Result Anchor
finish_reset env authority new_commitment fees session later g = do
  let stored : Anchor = record g {
    identity = with_bytes g.identity (put g.identity.data_bytes 0 (env.serialize later));
  }
  paid ← pay_fee env authority fees.verification_fee stored
  ok (record paid {
    events =
        emit_receipt_session later.owner ReceiptPurpose.reset fees.projection_policy.current session
          (anchor_reset later.owner later.mint new_commitment ∷ paid.events);
  })

unfoldable pub reset_identity_state :
    Environment → Pubkey → ℤ → Bytes → ℕ → List Remaining → Anchor → Result Anchor
unfolding require_nonzero
reset_identity_state env authority now new_commitment projection_version remaining w = do
  taken ← take_last_counter env authority remaining w
  require_nonzero new_commitment
  require (bytes_eq taken.1.identity.owner env.id)
      (anchor_error EntrosAnchorError.invalid_identity_state)
  g ← grow env authority taken.1
  identity ←
      ok_or (env.deserialize g.identity.data_bytes)
        (anchor_error EntrosAnchorError.invalid_identity_state)
  require (bytes_eq identity.owner authority) (anchor_error EntrosAnchorError.unauthorized)
  require (leb_ℤ (pos reset_cooldown_secs) (saturating_sub now identity.last_reset_timestamp))
      (anchor_error EntrosAnchorError.reset_cooldown_active)
  fees ← read_fees env g.config
  validate_requested_projection projection_version fees.projection_policy
  require_sysvar env taken.0
  session ←
      verify_validator_receipt env.sysvar fees.validator_keys authority new_commitment
        ReceiptPurpose.reset fees.projection_policy.current now
  finish_reset env authority new_commitment fees session
      (reset_identity now new_commitment fees.projection_policy.current identity) g
