-- ===== src/Recovery/Rebaseline/Laws.antt =====
-- What a rebaseline that succeeds has checked and written.
use protocol_core.Base.{
  ℕ, ◌<◌, ◌≡◌, ◌≢◌, refl, ap, ◌∙◌, ◌⊎◌, inl, inr, true, false, Option, some, List, [], ◌∷◌, arith,
  ok, Result-cases, Option-cases,
}
use protocol_core.Base.Int.{ℤ, pos, ◌+ℤ◌, ◌≤ℤ◌, le-saturating_sub}
use protocol_core.Base.Words.{Bytes}
use protocol_core.Base.Bytes.{bytes_eq_iff, put, zeros}
use protocol_core.Chain.{Pubkey}
use protocol_core.Receipt.Policy.{validate_requested_projection}
use protocol_core.Receipt.Payload.{ReceiptPurpose, ReceiptSession, verify_validator_receipt}
use protocol_core.Update.State.{Environment, Anchor, IdentityState}
use protocol_core.Update.Handler.{grow, pay_fee}
use protocol_core.Update.Handler.Laws.{full_bytes, grow_lem, fee_lem}
use protocol_core.Recovery.Shared.{Remaining, Fees, take_counter, read_fees, require_nonzero}
use protocol_core.Recovery.Shared.Laws.{
  IsCounted, take_counter_lem, require_nonzero_lem, validate_requested_projection_lem,
}
use protocol_core.Recovery.Rebaseline.{rebaseline_identity, finish_rebaseline, rebaseline_anchor}

-- What lies between the states before and after a rebaseline.
pub record IsRebaseline (env : Environment) (authority : Pubkey) (now : ℤ) (new_commitment : Bytes)
    (projection_version : ℕ) (remaining : List Remaining) (w t : Anchor) : Type 0 where
  pub before : IdentityState
  pub fees : Fees
  pub session : Option ReceiptSession
  pub counted : Anchor
  pub counts :
      ((env.request_bound_v1 ≡ false) × (counted ≡ w))
      ⊎ ((env.request_bound_v1 ≡ true)
          × (r : Remaining) × (remaining ≡ r ∷ [])
          × IsCounted env authority r w counted)
  pub nonzero : new_commitment ≢ zeros 32
  pub of_program : w.identity.owner ≡ env.id
  pub reads : env.deserialize (full_bytes w.identity.data_bytes) ≡ some before
  pub own : before.owner ≡ authority
  pub cooled : before.last_rebaseline_timestamp +ℤ pos 604800 ≤ℤ now
  pub advanced : before.projection_version < projection_version
  pub configured : read_fees env w.config ≡ ok fees
  pub requested : projection_version ≡ fees.projection_policy.current
  pub signed :
      verify_validator_receipt env.sysvar fees.validator_keys authority new_commitment
        ReceiptPurpose.rebaseline projection_version now
      ≡ ok session
  pub written : t.identity ≡ record w.identity {
    data_bytes = put (full_bytes w.identity.data_bytes) 0 (
        env.serialize (record before {
          current_commitment = new_commitment;
          projection_version = projection_version;
          last_rebaseline_timestamp = now;
          last_verification_timestamp = now;
        }));
  }
  pub recounted : t.request_state ≡ counted.request_state
  pub same_result : t.result ≡ w.result
  pub same_config : t.config ≡ w.config

finish_rebaseline_lem :
    (env : Environment) (authority : Pubkey) (c : Bytes) (fees : Fees)
    (session : Option ReceiptSession) (later : IdentityState) (g : Anchor) {t : Anchor}
    → finish_rebaseline env authority c fees session later g ≡ ok t
    → (t.identity
        ≡ record g.identity { data_bytes = put g.identity.data_bytes 0 (env.serialize later) })
      × (t.request_state ≡ g.request_state)
      × (t.result ≡ g.result)
      × (t.config ≡ g.config)
unfolding finish_rebaseline
finish_rebaseline_lem env authority c fees session later g {t} e =
    let stored : Anchor = record g {
      identity = record g.identity {
        data_bytes = put g.identity.data_bytes 0 (env.serialize later);
      };
    } in
    elim (Result-cases (pay_fee env authority fees.verification_fee stored)) [
      | inr (x, q) ↦ ground arith
      | inl (paid, q) ↦
          let f = fee_lem env authority fees.verification_fee stored paid q in
          (ground (arith, f), ground (arith, f), ground (arith, f), ground (arith, f))
    ]

rebaseline_identity_fields :
    (now : ℤ) (c : Bytes) (version : ℕ) (i : IdentityState)
    → rebaseline_identity now c version i ≡ record i {
      current_commitment = c;
      projection_version = version;
      last_rebaseline_timestamp = now;
      last_verification_timestamp = now;
    }
unfolding rebaseline_identity
rebaseline_identity_fields now c version i = refl

module _ (env : Environment) (authority : Pubkey) (now : ℤ) (new_commitment : Bytes)
    (projection_version : ℕ) (remaining : List Remaining) (w : Anchor) where
  -- The last steps, once the identity and the configuration are read.
  assemble :
      {t : Anchor} (taken : Anchor) (g : Anchor) (i : IdentityState) (fees : Fees)
      → rebaseline_anchor env authority now new_commitment projection_version remaining w ≡ ok t
      → take_counter env authority remaining w ≡ ok taken
      → grow env authority taken ≡ ok g
      → env.deserialize g.identity.data_bytes ≡ some i
      → read_fees env g.config ≡ ok fees
      → IsRebaseline env authority now new_commitment projection_version remaining w t
  unfolding rebaseline_anchor
  assemble {t} taken g i fees e k q n s = elim (Result-cases (require_nonzero new_commitment)) [
    | inr (x, z) ↦ ground arith
    | inl (u, z) ↦
        elim (Result-cases
          (validate_requested_projection projection_version fees.projection_policy)) [
            | inr (x, p) ↦ ground arith
            | inl (u', p) ↦
                elim (Result-cases (
                  verify_validator_receipt env.sysvar fees.validator_keys authority new_commitment
                    ReceiptPurpose.rebaseline fees.projection_policy.current now)) [
                      | inr (x, v) ↦ ground arith
                      | inl (session, v) ↦
                          let (frame, counts) = take_counter_lem env authority remaining w k in
                          let grown = grow_lem env authority taken g q in
                          let version =
                            validate_requested_projection_lem projection_version
                              fees.projection_policy p in
                          let done : finish_rebaseline env authority new_commitment fees session
                                (rebaseline_identity now new_commitment
                                  fees.projection_policy.current i)
                                g
                              ≡ ok t =
                            ground arith in
                          let f =
                            finish_rebaseline_lem env authority new_commitment fees session
                              (rebaseline_identity now new_commitment fees.projection_policy.current
                                i)
                              g done in
                          record {
                            before = i;
                            fees = fees;
                            session = session;
                            counted = taken;
                            counts = counts;
                            advanced = ground (arith, version);
                            nonzero = require_nonzero_lem new_commitment z;
                            of_program =
                                ground (arith, bytes_eq_iff taken.identity.owner env.id, frame);
                            reads = ground (arith, n, grown, frame);
                            own = ground (arith, bytes_eq_iff i.owner authority);
                            cooled =
                                le-saturating_sub now i.last_rebaseline_timestamp 604800
                                  (ground arith);
                            configured = ground (arith, s, grown, frame);
                            requested = version;
                            signed = rw version v;
                            written =
                                rw version (ground (arith, f, grown, frame))
                                ∙ ap
                                    (λ (j : IdentityState). record w.identity {
                                      data_bytes =
                                          put (full_bytes w.identity.data_bytes) 0
                                            (env.serialize j);
                                    })
                                    (rebaseline_identity_fields now new_commitment
                                      projection_version i);
                            recounted = ground (arith, f, grown);
                            same_result = ground (arith, f, grown, frame);
                            same_config = ground (arith, f, grown, frame);
                          }
                    ]
          ]
  ]

  -- A rebaseline that succeeds read an identity of the signer in an older projection space than the
  -- configured current one, last rebaselined at least seven days before; a receipt for a rebaseline
  -- of this wallet to this commitment in the current space was accepted; the identity is written
  -- over its bytes with the new commitment, the new space and the time, and its history as it was;
  -- with the feature the wallet's request counter moves on by one; the result account and the
  -- configuration are untouched.
  pub rebaseline_anchor_lem :
      {t : Anchor}
      → rebaseline_anchor env authority now new_commitment projection_version remaining w ≡ ok t
      → IsRebaseline env authority now new_commitment projection_version remaining w t
  unfolding rebaseline_anchor
  rebaseline_anchor_lem {t} e = elim (Result-cases (take_counter env authority remaining w)) [
    | inr (x, k) ↦ ground arith
    | inl (taken, k) ↦ elim (Result-cases (grow env authority taken)) [
      | inr (x, q) ↦ ground arith
      | inl (g, q) ↦ elim (Option-cases (env.deserialize g.identity.data_bytes)) [
        | inl n ↦ ground arith
        | inr (i, n) ↦ elim (Result-cases (read_fees env g.config)) [
          | inr (x, s) ↦ ground arith
          | inl (fees, s) ↦ assemble taken g i fees e k q n s
        ]
      ]
    ]
  ]
