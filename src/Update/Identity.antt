-- ===== src/Update/Identity.antt =====
-- What an update writes into the identity.
pub mod Laws
use protocol_core.Base.{
  ℕ, suc, ◌+◌, ◌^◌, ◌≡◌, Bool, true, false, List, [], ◌∷◌, ltb, Result, ok, err, entros_anchor,
  EntrosAnchorError, require, ok_or, ◌>>=◌, ◌>>◌,
}
use protocol_core.Base.Int.{ℤ}
use protocol_core.Base.Words.{Bytes}
use protocol_core.Score.{total_score}
use protocol_core.Ring.{record_verification}
use protocol_core.Update.State.{IdentityState}

-- The increment and the ceiling are the configuration's; the score is taken after the ring.
unfoldable pub update_identity : ℕ → ℕ → ℤ → Bytes → IdentityState → Result IdentityState
update_identity increment max_score now commitment_new identity = do
  require (ltb (identity.verification_count + 1) (2 ^ 32))
      (entros_anchor EntrosAnchorError.arithmetic_overflow)
  let ring = record_verification identity.recent_timestamps now
  trust_score ←
      ok_or (total_score increment max_score now identity.creation_timestamp ring)
        (entros_anchor EntrosAnchorError.arithmetic_overflow)
  let updated : IdentityState = record identity {
    current_commitment = commitment_new;
    verification_count = identity.verification_count + 1;
    last_verification_timestamp = now;
    recent_timestamps = ring;
    trust_score = trust_score;
  }
  ok updated
