-- ===== src/Recovery/Rebaseline.antt =====
-- `rebaseline_anchor`: a new commitment in a newer projection space, with the history kept.
pub mod Laws
use protocol_core.Base.{
  ℕ, suc, ◌+◌, ◌≡◌, Bool, true, false, Option, none, some, List, [], ◌∷◌, length, leb, ltb, ◌==◌,
  if◌then◌else◌, Result, ok, err, EntrosAnchorError, require, ok_or, ◌>>=◌, ◌>>◌,
}
use protocol_core.Base.Int.{ℤ, pos, leb_ℤ, saturating_sub}
use protocol_core.Base.Words.{Bytes}
use protocol_core.Base.Bytes.{bytes_eq, put}
use protocol_core.Chain.{Pubkey}
use protocol_core.Receipt.Policy.{ProjectionPolicy, validate_requested_projection}
use protocol_core.Receipt.Payload.{ReceiptPurpose, ReceiptSession, verify_validator_receipt}
use protocol_core.Update.State.{Environment, Anchor, Account, IdentityState, anchor_rebaselined}
use protocol_core.Update.Proofs.{anchor_error}
use protocol_core.Update.Handler.{with_bytes, grow, pay_fee, emit_receipt_session}
use protocol_core.Recovery.Shared.{Remaining, Fees, take_counter, read_fees, require_nonzero}

abbrev pub rebaseline_cooldown_secs : ℕ
rebaseline_cooldown_secs = 604800

unfoldable pub rebaseline_identity : ℤ → Bytes → ℕ → IdentityState → IdentityState
rebaseline_identity now new_commitment version i = record i {
  current_commitment = new_commitment;
  projection_version = version;
  last_rebaseline_timestamp = now;
  last_verification_timestamp = now;
}

-- The writes, once the receipt is accepted.
unfoldable pub finish_rebaseline :
    Environment
    → Pubkey
    → Bytes
    → Fees
    → Option ReceiptSession
    → IdentityState
    → Anchor
    → Result Anchor
finish_rebaseline env authority new_commitment fees session later g = do
  let stored : Anchor = record g {
    identity = with_bytes g.identity (put g.identity.data_bytes 0 (env.serialize later));
  }
  paid ← pay_fee env authority fees.verification_fee stored
  ok (record paid {
    events =
        emit_receipt_session later.owner ReceiptPurpose.rebaseline fees.projection_policy.current
          session
          (anchor_rebaselined later.owner new_commitment fees.projection_policy.current
            ∷ paid.events);
  })

unfoldable pub rebaseline_anchor :
    Environment → Pubkey → ℤ → Bytes → ℕ → List Remaining → Anchor → Result Anchor
unfolding require_nonzero
rebaseline_anchor env authority now new_commitment projection_version remaining w = do
  a ← take_counter env authority remaining w
  require_nonzero new_commitment
  require (bytes_eq a.identity.owner env.id) (anchor_error EntrosAnchorError.invalid_identity_state)
  g ← grow env authority a
  identity ←
      ok_or (env.deserialize g.identity.data_bytes)
        (anchor_error EntrosAnchorError.invalid_identity_state)
  require (bytes_eq identity.owner authority) (anchor_error EntrosAnchorError.unauthorized)
  fees ← read_fees env g.config
  validate_requested_projection projection_version fees.projection_policy
  require (ltb identity.projection_version fees.projection_policy.current)
      (anchor_error EntrosAnchorError.projection_version_not_advanced)
  require
      (leb_ℤ (pos rebaseline_cooldown_secs) (saturating_sub now identity.last_rebaseline_timestamp))
      (anchor_error EntrosAnchorError.rebaseline_cooldown_active)
  session ←
      verify_validator_receipt env.sysvar fees.validator_keys authority new_commitment
        ReceiptPurpose.rebaseline fees.projection_policy.current now
  finish_rebaseline env authority new_commitment fees session
      (rebaseline_identity now new_commitment fees.projection_policy.current identity) g
