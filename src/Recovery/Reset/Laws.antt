-- ===== src/Recovery/Reset/Laws.antt =====
-- What a reset that succeeds has checked and written.
use protocol_core.Recovery.Reset.Counted.{Counts, take_last_counter_lem}
use protocol_core.Base.{
  ℕ, ◌≡◌, ◌≢◌, refl, ap, ◌∙◌, replicate, subst, inl, inr, Option, some, List, [], ◌∷◌, arith, ok,
  Result-cases, Option-cases,
}
use protocol_core.Base.Int.{ℤ, pos, ◌+ℤ◌, ◌≤ℤ◌, le-saturating_sub}
use protocol_core.Base.Words.{Bytes}
use protocol_core.Base.Bytes.{bytes_eq_iff, put, zeros}
use protocol_core.Chain.{Pubkey}
use protocol_core.Receipt.Policy.{validate_requested_projection}
use protocol_core.Receipt.Payload.{ReceiptPurpose, ReceiptSession, verify_validator_receipt}
use protocol_core.Update.State.{Environment, Anchor, IdentityState}
use protocol_core.Update.Handler.{grow, pay_fee}
use protocol_core.Update.Handler.Laws.{full_bytes, grow_lem, fee_lem}
use protocol_core.Recovery.Shared.{Remaining, Fees, read_fees, require_nonzero}
use protocol_core.Recovery.Shared.Laws.{require_nonzero_lem, validate_requested_projection_lem}
use protocol_core.Recovery.Reset.{
  take_last_counter, require_sysvar, reset_identity, finish_reset, reset_identity_state,
}

-- What lies between the states before and after a reset.
pub record IsReset (env : Environment) (authority : Pubkey) (now : ℤ) (new_commitment : Bytes)
    (projection_version : ℕ) (remaining : List Remaining) (w t : Anchor) : Type 0 where
  pub before : IdentityState
  pub fees : Fees
  pub session : Option ReceiptSession
  pub counted : Anchor
  pub sysvar : Remaining
  pub counts : Counts env authority remaining (sysvar ∷ []) w counted
  pub genuine : sysvar.account.key ≡ env.sysvar_id
  pub nonzero : new_commitment ≢ zeros 32
  pub of_program : w.identity.owner ≡ env.id
  pub reads : env.deserialize (full_bytes w.identity.data_bytes) ≡ some before
  pub own : before.owner ≡ authority
  pub cooled : before.last_reset_timestamp +ℤ pos 604800 ≤ℤ now
  pub configured : read_fees env w.config ≡ ok fees
  pub requested : projection_version ≡ fees.projection_policy.current
  pub signed :
      verify_validator_receipt env.sysvar fees.validator_keys authority new_commitment
        ReceiptPurpose.reset projection_version now
      ≡ ok session
  pub written : t.identity ≡ record w.identity {
    data_bytes = put (full_bytes w.identity.data_bytes) 0 (
        env.serialize (record before {
          current_commitment = new_commitment;
          verification_count = 0;
          trust_score = 0;
          recent_timestamps = replicate 52 (pos 0);
          last_verification_timestamp = now;
          last_reset_timestamp = now;
          projection_version = projection_version;
        }));
  }
  pub recounted : t.request_state ≡ counted.request_state
  pub same_result : t.result ≡ w.result
  pub same_config : t.config ≡ w.config

finish_reset_lem :
    (env : Environment) (authority : Pubkey) (c : Bytes) (fees : Fees)
    (session : Option ReceiptSession) (later : IdentityState) (g : Anchor) {t : Anchor}
    → finish_reset env authority c fees session later g ≡ ok t
    → (t.identity
        ≡ record g.identity { data_bytes = put g.identity.data_bytes 0 (env.serialize later) })
      × (t.request_state ≡ g.request_state)
      × (t.result ≡ g.result)
      × (t.config ≡ g.config)
unfolding finish_reset
finish_reset_lem env authority c fees session later g {t} e =
    let stored : Anchor = record g {
      identity = record g.identity {
        data_bytes = put g.identity.data_bytes 0 (env.serialize later);
      };
    } in
    elim (Result-cases (pay_fee env authority fees.verification_fee stored)) [
      | inr (x, q) ↦ ground arith
      | inl (paid, q) ↦
          let f = fee_lem env authority fees.verification_fee stored paid q in
          (ground (arith, f), ground (arith, f), ground (arith, f), ground (arith, f))
    ]

require_sysvar_lem :
    (env : Environment) (left : List Remaining)
    → require_sysvar env left ≡ ok tt
    → (r : Remaining) × (left ≡ r ∷ []) × (r.account.key ≡ env.sysvar_id)
unfolding require_sysvar
require_sysvar_lem env [] e = ground arith
require_sysvar_lem env (r ∷ []) e =
    (r, refl, ground (arith, bytes_eq_iff r.account.key env.sysvar_id))
require_sysvar_lem env (r ∷ s ∷ rs) e = ground arith

reset_identity_fields :
    (now : ℤ) (c : Bytes) (version : ℕ) (i : IdentityState)
    → reset_identity now c version i ≡ record i {
      current_commitment = c;
      verification_count = 0;
      trust_score = 0;
      recent_timestamps = replicate 52 (pos 0);
      last_verification_timestamp = now;
      last_reset_timestamp = now;
      projection_version = version;
    }
unfolding reset_identity
reset_identity_fields now c version i = refl

module _ (env : Environment) (authority : Pubkey) (now : ℤ) (new_commitment : Bytes)
    (projection_version : ℕ) (remaining : List Remaining) (w : Anchor) where
  -- The last steps, once the identity and the configuration are read.
  assemble :
      {t : Anchor} (taken : List Remaining × Anchor) (g : Anchor) (i : IdentityState) (fees : Fees)
      → reset_identity_state env authority now new_commitment projection_version remaining w ≡ ok t
      → take_last_counter env authority remaining w ≡ ok taken
      → grow env authority taken.1 ≡ ok g
      → env.deserialize g.identity.data_bytes ≡ some i
      → read_fees env g.config ≡ ok fees
      → IsReset env authority now new_commitment projection_version remaining w t
  unfolding reset_identity_state
  assemble {t} taken g i fees e k q n s = elim (Result-cases (require_nonzero new_commitment)) [
    | inr (x, z) ↦ ground arith
    | inl (u, z) ↦
        elim (Result-cases
          (validate_requested_projection projection_version fees.projection_policy)) [
            | inr (x, p) ↦ ground arith
            | inl (u', p) ↦ elim (Result-cases (require_sysvar env taken.0)) [
              | inr (x, y) ↦ ground arith
              | inl (u'', y) ↦
                  elim (Result-cases (
                    verify_validator_receipt env.sysvar fees.validator_keys authority new_commitment
                      ReceiptPurpose.reset fees.projection_policy.current now)) [
                        | inr (x, v) ↦ ground arith
                        | inl (session, v) ↦
                            let (frame, counts) =
                              take_last_counter_lem env authority remaining w k in
                            let grown = grow_lem env authority taken.1 g q in
                            let sysvar = require_sysvar_lem env taken.0 y in
                            let version =
                              validate_requested_projection_lem projection_version
                                fees.projection_policy p in
                            let done : finish_reset env authority new_commitment fees session
                                  (reset_identity now new_commitment fees.projection_policy.current
                                    i)
                                  g
                                ≡ ok t =
                              ground arith in
                            let f =
                              finish_reset_lem env authority new_commitment fees session
                                (reset_identity now new_commitment fees.projection_policy.current i)
                                g done in
                            record {
                              before = i;
                              fees = fees;
                              session = session;
                              counted = taken.1;
                              sysvar = sysvar.0;
                              counts =
                                  subst (λ left. Counts env authority remaining left w taken.1)
                                    sysvar.1 counts;
                              genuine = sysvar.2;
                              nonzero = require_nonzero_lem new_commitment z;
                              of_program =
                                  ground (arith, bytes_eq_iff taken.1.identity.owner env.id, frame);
                              reads = ground (arith, n, grown, frame);
                              own = ground (arith, bytes_eq_iff i.owner authority);
                              cooled =
                                  le-saturating_sub now i.last_reset_timestamp 604800
                                    (ground arith);
                              configured = ground (arith, s, grown, frame);
                              requested = version;
                              signed = rw version v;
                              written =
                                  rw version (ground (arith, f, grown, frame))
                                  ∙ ap
                                      (λ (j : IdentityState). record w.identity {
                                        data_bytes =
                                            put (full_bytes w.identity.data_bytes) 0
                                              (env.serialize j);
                                      })
                                      (reset_identity_fields now new_commitment projection_version
                                        i);
                              recounted = ground (arith, f, grown);
                              same_result = ground (arith, f, grown, frame);
                              same_config = ground (arith, f, grown, frame);
                            }
                      ]
            ]
          ]
  ]

  -- A reset that succeeds read an identity of the signer, last reset at least seven days before;
  -- a receipt for a reset of this wallet to this commitment in the current projection space was
  -- accepted, read from the instructions sysvar; the identity is written over its bytes with the
  -- new commitment, without its history and with the time of the reset; with the feature the
  -- request counter in the last account moves on by one; the result account and the configuration
  -- are untouched.
  pub reset_identity_state_lem :
      {t : Anchor}
      → reset_identity_state env authority now new_commitment projection_version remaining w ≡ ok t
      → IsReset env authority now new_commitment projection_version remaining w t
  unfolding reset_identity_state
  reset_identity_state_lem {t} e =
      elim (Result-cases (take_last_counter env authority remaining w)) [
        | inr (x, k) ↦ ground arith
        | inl (taken, k) ↦ elim (Result-cases (grow env authority taken.1)) [
          | inr (x, q) ↦ ground arith
          | inl (g, q) ↦ elim (Option-cases (env.deserialize g.identity.data_bytes)) [
            | inl n ↦ ground arith
            | inr (i, n) ↦ elim (Result-cases (read_fees env g.config)) [
              | inr (x, s) ↦ ground arith
              | inl (fees, s) ↦ assemble taken g i fees e k q n s
            ]
          ]
        ]
      ]
