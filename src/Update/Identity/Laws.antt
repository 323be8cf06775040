-- ===== src/Update/Identity/Laws.antt =====
-- What an update leaves of the identity, and what it changes.
use protocol_core.Base.{ℕ, ◌+◌, ◌≤◌, ◌<◌, ◌^◌, ◌≡◌, inl, inr, some, arith, ok, Option-cases}
use protocol_core.Base.Int.{ℤ}
use protocol_core.Base.Words.{Bytes}
use protocol_core.Score.{total_score, total_score-le}
use protocol_core.Ring.{record_verification}
use protocol_core.Update.State.{IdentityState}
use protocol_core.Update.Identity.{update_identity}

-- An update that succeeds counts one verification more, within 32 bits, records it in the ring,
-- stores the score of the new ring, which is at most the ceiling, and changes no other field than
-- the commitment and the time.
pub update_identity_lem :
    (increment max_score : ℕ) (now : ℤ) (new : Bytes) (i : IdentityState) {j : IdentityState}
    → update_identity increment max_score now new i ≡ ok j
    → (score : ℕ) × (total_score increment max_score now i.creation_timestamp
          (record_verification i.recent_timestamps now)
        ≡ some score)
      × (j ≡ record i {
        current_commitment = new;
        verification_count = i.verification_count + 1;
        last_verification_timestamp = now;
        recent_timestamps = record_verification i.recent_timestamps now;
        trust_score = score;
      })
      × (score ≤ max_score)
      × (i.verification_count + 1 < 2 ^ 32)
unfolding update_identity
update_identity_lem increment max_score now new i e =
    let ring = record_verification i.recent_timestamps now in
    elim (Option-cases (total_score increment max_score now i.creation_timestamp ring)) [
      | inl n ↦ ground arith
      | inr (score, n) ↦ (
        score,
        n,
        ground arith,
        total_score-le increment max_score now i.creation_timestamp ring n,
        ground arith,
      )
    ]
