-- ===== src/Update/Handler.antt =====
-- `process_anchor_update`, `update_anchor`, `update_anchor_compact` and `update_anchor_bound`.
pub mod Laws
pub mod Once
use protocol_core.Base.{
  ℕ, suc, ◌+◌, ◌-◌, ◌≡◌, Bool, true, false, not, ◌&&◌, ◌||◌, Option, none, some, List, [], ◌∷◌,
  ◌++◌, length, take, leb, ltb, ◌==◌, if◌then◌else◌, Result, ok, err, entros_anchor, framework,
  panic, EntrosAnchorError, FrameworkError, require, ok_or, ◌>>=◌, ◌>>◌,
}
use protocol_core.Base.Int.{ℤ, leb_ℤ}
use protocol_core.Base.Words.{Bytes, from_le_bytes}
use protocol_core.Base.Bytes.{bytes_eq, slice, put, zeros, resize}
use protocol_core.Chain.{Pubkey}
use protocol_core.Receipt.Policy.{
  ValidatorKeyPolicy, read_u16, read_projection_policy, read_validator_key_policy,
  validate_identity_projection,
}
use protocol_core.Receipt.Payload.{ReceiptSession, ReceiptPurpose, purpose_byte}
use protocol_core.Receipt.Digest.{UpdateReceiptArgs, verify_update_receipt_digest}
use protocol_core.Update.State.{
  Environment, Anchor, Account, IdentityState, Event, anchor_updated, receipt_session_bound,
  identity_len,
}
use protocol_core.Update.Proofs.{Checked, unbound_result, bound_result, anchor_error}
use protocol_core.Update.Identity.{update_identity}

unfoldable pub transfer : Environment → Pubkey → Pubkey → ℕ → Anchor → Result Anchor
transfer env a b n w = elim (env.chain.transfer w.ledger a b n) [
  | none ↦ err (framework FrameworkError.cpi_failed)
  | some l ↦ ok (record w { ledger = l })
]

abbrev pub with_bytes : Account → Bytes → Account
with_bytes a d = record a { data_bytes = d }

-- An older, shorter identity account grows, and the wallet pays its rent.
unfoldable pub grow : Environment → Pubkey → Anchor → Result Anchor
unfolding transfer
grow env wallet w =
    if ltb (length w.identity.data_bytes) identity_len
    then (let grown : Anchor = record w {
      identity = with_bytes w.identity (resize w.identity.data_bytes identity_len);
    } in
        let required = env.chain.minimum_balance identity_len in
        let current = w.ledger w.identity.key in
        if ltb current required
        then transfer env wallet w.identity.key (required - current) grown
        else ok grown)
    else ok w

-- What the handler reads of the registry's configuration.
pub record Settings : Type 0 where
  pub max_trust_score : ℕ
  pub base_trust_increment : ℕ
  pub verification_fee : ℕ
  pub validator_keys : ValidatorKeyPolicy

unfoldable pub read_settings : Environment → ℕ → Account → Result Settings
read_settings env projection_version config = do
  require (bytes_eq config.owner env.registry_id)
      (anchor_error EntrosAnchorError.invalid_protocol_config)
  require (leb 69 (length config.data_bytes))
      (anchor_error EntrosAnchorError.invalid_protocol_config)
  policy ← read_projection_policy config.data_bytes
  validate_identity_projection projection_version policy
  max_trust_score ← read_u16 config.data_bytes 56
  base_trust_increment ← read_u16 config.data_bytes 58
  fee ← slice config.data_bytes 61 8
  validator_keys ← read_validator_key_policy config.data_bytes
  let settings : Settings = record {
    max_trust_score = max_trust_score;
    base_trust_increment = base_trust_increment;
    verification_fee = from_le_bytes fee;
    validator_keys = validator_keys;
  }
  ok settings

-- The tests on the commitments that both branches share.
unfoldable pub check_commitments : Option Bytes → Bytes → Checked → Result (Unit {0})
check_commitments expected current c = do
  require (not (bytes_eq c.commitment_new (zeros 32)))
      (anchor_error EntrosAnchorError.invalid_commitment)
  require (elim expected [ none ↦ true | some e ↦ bytes_eq c.commitment_new e ])
      (anchor_error EntrosAnchorError.commitment_mismatch)
  require (bytes_eq c.commitment_prev current)
      (anchor_error EntrosAnchorError.prev_commitment_mismatch)
  require (not (bytes_eq c.commitment_new c.commitment_prev))
      (anchor_error EntrosAnchorError.commitment_unchanged)

-- "global:close_verification_result", "global:close_bound_verification_result"
abbrev pub close_name : Option Bytes → Bytes
close_name none =
    103 ∷ 108 ∷ 111 ∷ 98 ∷ 97 ∷ 108 ∷ 58 ∷ 99 ∷ 108 ∷ 111 ∷ 115 ∷ 101 ∷ 95 ∷ 118 ∷ 101 ∷ 114 ∷ 105
    ∷ 102 ∷ 105 ∷ 99 ∷ 97 ∷ 116 ∷ 105 ∷ 111 ∷ 110 ∷ 95 ∷ 114 ∷ 101 ∷ 115 ∷ 117 ∷ 108 ∷ 116 ∷ []
close_name (some nonce) =
    103 ∷ 108 ∷ 111 ∷ 98 ∷ 97 ∷ 108 ∷ 58 ∷ 99 ∷ 108 ∷ 111 ∷ 115 ∷ 101 ∷ 95 ∷ 98 ∷ 111 ∷ 117 ∷ 110
    ∷ 100 ∷ 95 ∷ 118 ∷ 101 ∷ 114 ∷ 105 ∷ 102 ∷ 105 ∷ 99 ∷ 97 ∷ 116 ∷ 105 ∷ 111 ∷ 110 ∷ 95 ∷ 114
    ∷ 101 ∷ 115 ∷ 117 ∷ 108 ∷ 116 ∷ []

abbrev pub close_arguments : Option Bytes → Bytes
close_arguments none = []
close_arguments (some nonce) = nonce

-- The verifier closes the result: its lamports go to the wallet, and the account is gone.
unfoldable pub close_verification_result_cpi :
    Environment → Pubkey → Option Bytes → Anchor → Result Anchor
close_verification_result_cpi env wallet bound_nonce w = do
  let data_bytes = take 8 (env.hash (close_name bound_nonce)) ++ close_arguments bound_nonce
  require (env.invoke data_bytes wallet w.result) (framework FrameworkError.cpi_failed)
  let gone : Account = record { key = w.result.key; owner = env.system_program; data_bytes = [] }
  ok (record w { result = gone; ledger = env.chain.close w.ledger w.result.key wallet })

unfoldable pub emit_receipt_session :
    Pubkey → ReceiptPurpose → ℕ → Option ReceiptSession → List Event → List Event
unfolding purpose_byte
emit_receipt_session owner purpose version none es = es
emit_receipt_session owner purpose version (some session) es =
    receipt_session_bound owner (purpose_byte purpose) version session ∷ es

-- The branch is the build's: with the feature there is a request counter, without it there is none.
unfoldable pub check_result :
    Environment → Bool → Pubkey → ℤ → IdentityState → Anchor → Result Checked
check_result env is_bound wallet now identity w =
    if is_bound
    then bound_result env wallet now w.identity.key identity w.result w.request_state
    else unbound_result env wallet now w.result w.request_state.data_bytes

-- The fee, where there is one.
unfoldable pub pay_fee : Environment → Pubkey → ℕ → Anchor → Result Anchor
unfolding transfer
pay_fee env wallet fee w = if ltb 0 fee then transfer env wallet env.treasury_key fee w else ok w

-- The writes: the result is closed, the identity and the counter are stored, the fee is paid.
unfoldable pub finish :
    Environment
    → Pubkey
    → ℤ
    → Settings
    → Checked
    → Option ReceiptSession
    → IdentityState
    → Anchor
    → Result Anchor
finish env wallet now settings c session identity g = do
  closed ← close_verification_result_cpi env wallet c.bound_nonce g
  updated ←
      update_identity settings.base_trust_increment settings.max_trust_score now c.commitment_new
        identity
  let stored : Anchor = record closed {
    identity =
        with_bytes closed.identity (put closed.identity.data_bytes 0 (env.serialize updated));
    request_state = with_bytes closed.request_state c.request_bytes;
  }
  paid ← pay_fee env wallet settings.verification_fee stored
  ok (record paid {
    events =
        emit_receipt_session updated.owner ReceiptPurpose.update updated.projection_version session
          (anchor_updated updated.owner updated.verification_count updated.trust_score
              c.commitment_new
            ∷ paid.events);
  })

unfoldable pub process_anchor_update :
    Environment → Pubkey → ℤ → UpdateReceiptArgs → Option Bytes → Bool → Anchor → Result Anchor
process_anchor_update env wallet now receipt expected is_bound w = do
  require (if is_bound then env.request_bound_v1 else not env.request_bound_v1)
      (anchor_error EntrosAnchorError.unsupported_proof_generation)
  require (bytes_eq w.identity.owner env.id) (anchor_error EntrosAnchorError.invalid_identity_state)
  g ← grow env wallet w
  identity ←
      ok_or (env.deserialize g.identity.data_bytes)
        (anchor_error EntrosAnchorError.invalid_identity_state)
  require (bytes_eq identity.owner wallet) (anchor_error EntrosAnchorError.unauthorized)
  require (elim expected [ none ↦ true | some e ↦ not (bytes_eq e (zeros 32)) ])
      (anchor_error EntrosAnchorError.invalid_commitment)
  settings ← read_settings env identity.projection_version g.config
  c ← check_result env is_bound wallet now identity g
  check_commitments expected identity.current_commitment c
  session ←
      verify_update_receipt_digest env.hash env.sysvar settings.validator_keys wallet
        c.commitment_new identity.projection_version receipt now
  require (leb_ℤ identity.last_verification_timestamp receipt.validated_at)
      (anchor_error EntrosAnchorError.receipt_already_used)
  finish env wallet now settings c session identity g

-- The three instructions.
unfoldable pub update_anchor :
    Environment → Pubkey → ℤ → Bytes → UpdateReceiptArgs → Anchor → Result Anchor
update_anchor env wallet now new_commitment receipt w = do
  require (not (bytes_eq new_commitment (zeros 32)))
      (anchor_error EntrosAnchorError.invalid_commitment)
  process_anchor_update env wallet now receipt (some new_commitment) false w

unfoldable pub update_anchor_compact :
    Environment → Pubkey → ℤ → UpdateReceiptArgs → Anchor → Result Anchor
update_anchor_compact env wallet now receipt w =
    process_anchor_update env wallet now receipt none false w

unfoldable pub update_anchor_bound :
    Environment → Pubkey → ℤ → UpdateReceiptArgs → Anchor → Result Anchor
update_anchor_bound env wallet now receipt w =
    process_anchor_update env wallet now receipt none true w
