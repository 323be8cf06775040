-- ===== src/Update/Handler/Laws.antt =====
-- What an update that succeeds has checked and written, and that it uses its proof up.
use protocol_core.Base.{
  ℕ, ◌≡◌, ◌≢◌, inl, inr, Bool, Option, none, some, [], length, arith, ltb, if◌then◌else◌, ok,
  Result-cases, Option-cases,
}
use protocol_core.Base.Int.{ℤ, ◌≤ℤ◌}
use protocol_core.Base.Words.{Bytes}
use protocol_core.Base.Bytes.{bytes_eq_iff, put, zeros, resize}
use protocol_core.Chain.{Pubkey}
use protocol_core.Receipt.Payload.{ReceiptSession}
use protocol_core.Receipt.Digest.{UpdateReceiptArgs, verify_update_receipt_digest}
use protocol_core.Update.State.{Environment, Anchor, IdentityState, identity_len}
use protocol_core.Update.Proofs.{Checked}
use protocol_core.Update.Identity.{update_identity}
use protocol_core.Update.Handler.{
  transfer, grow, Settings, read_settings, check_commitments, close_verification_result_cpi,
  check_result, pay_fee, finish, process_anchor_update,
}

-- The identity's bytes at the current length.
abbrev pub full_bytes : Bytes → Bytes
full_bytes d = if ltb (length d) identity_len then resize d identity_len else d

pub grow_lem :
    (env : Environment) (wallet : Pubkey) (w g : Anchor)
    → grow env wallet w ≡ ok g
    → (g.identity ≡ record w.identity { data_bytes = full_bytes w.identity.data_bytes })
      × (g.result ≡ w.result)
      × (g.config ≡ w.config)
      × (g.request_state ≡ w.request_state)
unfolding grow transfer
grow_lem env wallet w g e = ground arith

close_lem :
    (env : Environment) (wallet : Pubkey) (bound : Option Bytes) (w s : Anchor)
    → close_verification_result_cpi env wallet bound w ≡ ok s
    → (s.result ≡ record { key = w.result.key; owner = env.system_program; data_bytes = [] })
      × (s.identity ≡ w.identity)
      × (s.config ≡ w.config)
      × (s.request_state ≡ w.request_state)
unfolding close_verification_result_cpi
close_lem env wallet bound w s e = ground arith

pub fee_lem :
    (env : Environment) (wallet : Pubkey) (fee : ℕ) (w s : Anchor)
    → pay_fee env wallet fee w ≡ ok s
    → (s.result ≡ w.result)
      × (s.identity ≡ w.identity)
      × (s.config ≡ w.config)
      × (s.request_state ≡ w.request_state)
unfolding pay_fee transfer
fee_lem env wallet fee w s e = ground arith

-- What lies between the states before and after an update.
pub record IsUpdate (env : Environment) (wallet : Pubkey) (now : ℤ) (receipt : UpdateReceiptArgs)
    (is_bound : Bool) (w t : Anchor) : Type 0 where
  pub before : IdentityState
  pub later : IdentityState
  pub settings : Settings
  pub checked : Checked
  pub session : Option ReceiptSession
  pub grown : Anchor
  pub grows : grow env wallet w ≡ ok grown
  pub reads : env.deserialize (full_bytes w.identity.data_bytes) ≡ some before
  pub own : before.owner ≡ wallet
  pub configured : read_settings env before.projection_version w.config ≡ ok settings
  pub proved : check_result env is_bound wallet now before grown ≡ ok checked
  pub nonzero : checked.commitment_new ≢ zeros 32
  pub chained : checked.commitment_prev ≡ before.current_commitment
  pub moved : checked.commitment_new ≢ before.current_commitment
  pub signed :
      verify_update_receipt_digest env.hash env.sysvar settings.validator_keys wallet
        checked.commitment_new before.projection_version receipt now
      ≡ ok session
  pub fresh : before.last_verification_timestamp ≤ℤ receipt.validated_at
  pub computed :
      update_identity settings.base_trust_increment settings.max_trust_score now
        checked.commitment_new before
      ≡ ok later
  pub written :
      t.identity.data_bytes ≡ put (full_bytes w.identity.data_bytes) 0 (env.serialize later)
  pub counted : t.request_state.data_bytes ≡ checked.request_bytes
  pub closed : t.result.data_bytes ≡ []
  pub disowned : t.result.owner ≡ env.system_program
  pub kept : t.config ≡ w.config

check_commitments_lem :
    (expected : Option Bytes) (current : Bytes) (c : Checked)
    → check_commitments expected current c ≡ ok tt
    → (c.commitment_new ≢ zeros 32) × (c.commitment_prev ≡ current) × (c.commitment_new ≢ current)
unfolding check_commitments
check_commitments_lem none current c e = ground (
  arith,
  bytes_eq_iff c.commitment_new (zeros 32),
  bytes_eq_iff c.commitment_prev current,
  bytes_eq_iff c.commitment_new c.commitment_prev,
)
check_commitments_lem (some x) current c e = ground (
  arith,
  bytes_eq_iff c.commitment_new (zeros 32),
  bytes_eq_iff c.commitment_prev current,
  bytes_eq_iff c.commitment_new c.commitment_prev,
)

-- The identity and the counter as `finish` stores them.
abbrev stored : Environment → Checked → IdentityState → Anchor → Anchor
stored env c j s = record s {
  identity = record s.identity { data_bytes = put s.identity.data_bytes 0 (env.serialize j) };
  request_state = record s.request_state { data_bytes = c.request_bytes };
}

finish_lem :
    (env : Environment) (wallet : Pubkey) (now : ℤ) (settings : Settings) (c : Checked)
    (session : Option ReceiptSession) (i : IdentityState) (g : Anchor) {t : Anchor}
    → finish env wallet now settings c session i g ≡ ok t
    → (j : IdentityState) × (update_identity settings.base_trust_increment settings.max_trust_score
          now c.commitment_new i
        ≡ ok j)
      × (t.identity.data_bytes ≡ put g.identity.data_bytes 0 (env.serialize j))
      × (t.request_state.data_bytes ≡ c.request_bytes)
      × (t.result.data_bytes ≡ [])
      × (t.result.owner ≡ env.system_program)
      × (t.config ≡ g.config)
unfolding finish
finish_lem env wallet now settings c session i g {t} e =
    let computed =
      update_identity settings.base_trust_increment settings.max_trust_score now c.commitment_new
        i in
    elim (Result-cases (close_verification_result_cpi env wallet c.bound_nonce g)) [
      | inr (x, q) ↦ ground arith
      | inl (s, q) ↦ elim (Result-cases computed) [
        | inr (x, u) ↦ ground arith
        | inl (j, u) ↦
            elim (Result-cases (pay_fee env wallet settings.verification_fee (stored env c j s))) [
              | inr (x, p) ↦ ground arith
              | inl (paid, p) ↦
                  let f = fee_lem env wallet settings.verification_fee (stored env c j s) paid p in
                  let k = close_lem env wallet c.bound_nonce g s q in
                  (
                    j,
                    u,
                    ground (arith, f, k),
                    ground (arith, f, k),
                    ground (arith, f, k),
                    ground (arith, f, k),
                    ground (arith, f, k),
                  )
            ]
      ]
    ]

module _ (env : Environment) (wallet : Pubkey) (now : ℤ) (receipt : UpdateReceiptArgs)
    (expected : Option Bytes) (is_bound : Bool) (w : Anchor) where
  -- The last steps, once the proof is read.
  assemble :
      {t : Anchor} (g : Anchor) (i : IdentityState) (settings : Settings) (checked : Checked)
      → process_anchor_update env wallet now receipt expected is_bound w ≡ ok t
      → grow env wallet w ≡ ok g
      → env.deserialize g.identity.data_bytes ≡ some i
      → read_settings env i.projection_version g.config ≡ ok settings
      → check_result env is_bound wallet now i g ≡ ok checked
      → IsUpdate env wallet now receipt is_bound w t
  unfolding process_anchor_update
  assemble {t} g i settings checked e q n s c =
      elim (Result-cases (check_commitments expected i.current_commitment checked)) [
        | inr (x, k) ↦ ground arith
        | inl (u, k) ↦
            elim (Result-cases (
              verify_update_receipt_digest env.hash env.sysvar settings.validator_keys wallet
                checked.commitment_new i.projection_version receipt now)) [
                  | inr (x, v) ↦ ground arith
                  | inl (session, v) ↦
                      let grows = grow_lem env wallet w g q in
                      let commitments =
                        check_commitments_lem expected i.current_commitment checked k in
                      let done : finish env wallet now settings checked session i g ≡ ok t =
                        ground arith in
                      let f = finish_lem env wallet now settings checked session i g done in
                      record {
                        before = i;
                        later = f.0;
                        settings = settings;
                        checked = checked;
                        session = session;
                        grown = g;
                        grows = q;
                        reads = ground (arith, n, grows);
                        own = ground (arith, bytes_eq_iff i.owner wallet);
                        configured = ground (arith, s, grows);
                        proved = c;
                        nonzero = commitments.0;
                        chained = commitments.1;
                        moved = commitments.2;
                        signed = v;
                        fresh = ground arith;
                        computed = f.1;
                        written = ground (arith, f, grows);
                        counted = f.3;
                        closed = f.4;
                        disowned = f.5;
                        kept = ground (arith, f, grows);
                      }
                ]
      ]

  -- An update that succeeds read an identity of the signer; its proof was accepted by the build's
  -- branch and leads from the identity's commitment to another one that is not zero; a receipt
  -- for just that update was accepted, not older than the last verification; the projection
  -- version lies in the configured window; the identity is written over its bytes as
  -- update_identity computes it, the counter as the branch gives it, the result account is closed
  -- and the configuration untouched.
  pub process_anchor_update_lem :
      {t : Anchor}
      → process_anchor_update env wallet now receipt expected is_bound w ≡ ok t
      → IsUpdate env wallet now receipt is_bound w t
  unfolding process_anchor_update
  process_anchor_update_lem {t} e = elim (Result-cases (grow env wallet w)) [
    | inr (x, q) ↦ ground arith
    | inl (g, q) ↦ elim (Option-cases (env.deserialize g.identity.data_bytes)) [
      | inl n ↦ ground arith
      | inr (i, n) ↦ elim (Result-cases (read_settings env i.projection_version g.config)) [
        | inr (x, s) ↦ ground arith
        | inl (settings, s) ↦ elim (Result-cases (check_result env is_bound wallet now i g)) [
          | inr (x, c) ↦ ground arith
          | inl (checked, c) ↦ assemble g i settings checked e q n s c
        ]
      ]
    ]
  ]
