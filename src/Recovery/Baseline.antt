-- ===== src/Recovery/Baseline.antt =====
-- `EncryptedBaseline` and `set_encrypted_baseline`: the program stores the bytes that the wallet
-- gives, once the wallet has an identity.
use protocol_core.Base.{
  ℕ, ◌<◌, ◌-◌, ◌≡◌, Option, none, some, List, ◌∷◌, length, ltb, arith, if◌then◌else◌, inl, inr,
  Result, ok, framework, FrameworkError, EntrosAnchorError, require, ok_or, Result-cases, ◌>>=◌,
  ◌>>◌, ◌↔◌,
}
use protocol_core.Base.Words.{Bytes}
use protocol_core.Chain.{Pubkey, Ledger}
use protocol_core.Update.State.{Environment, Account, Event, encrypted_baseline_set}
use protocol_core.Update.Proofs.{anchor_error}

pub record EncryptedBaseline : Type 0 where
  pub blob : Bytes
  pub bump : ℕ

-- The wallet's identity and its baseline, which is there after the first call.
pub record Baselines : Type 0 where
  pub identity_state : Account
  -- the baseline's address
  pub key : Pubkey
  pub encrypted_baseline : Option EncryptedBaseline
  pub ledger : Ledger
  pub events : List Event

-- discriminator, blob, bump
abbrev pub baseline_len : ℕ
baseline_len = 105

-- `init_if_needed`: the first call pays the rent.
unfoldable pub init_if_needed : Environment → Pubkey → Baselines → Result Ledger
init_if_needed env authority s = elim s.encrypted_baseline [
  | some b ↦ ok s.ledger
  | none ↦
      let required = env.chain.minimum_balance baseline_len in
      let current = s.ledger s.key in
      if ltb current required
      then ok_or (env.chain.transfer s.ledger authority s.key (required - current))
          (framework FrameworkError.cpi_failed)
      else ok s.ledger
]

unfoldable pub set_encrypted_baseline : Environment → Pubkey → Bytes → Baselines → Result Baselines
set_encrypted_baseline env authority blob s = do
  paid ← init_if_needed env authority s
  require (ltb 0 (length s.identity_state.data_bytes))
      (anchor_error EntrosAnchorError.identity_state_not_found)
  let baseline : EncryptedBaseline = record { blob = blob; bump = env.baseline_bump authority }
  ok (record s {
    encrypted_baseline = some baseline;
    ledger = paid;
    events = encrypted_baseline_set authority ∷ s.events;
  })

-- A baseline is stored exactly if the wallet has an identity account and pays the rent that a first
-- baseline lacks; it is then the last one that the wallet gave, whatever was there before, and the
-- identity is untouched.
set_encrypted_baseline_iff :
    (env : Environment) (authority : Pubkey) (blob : Bytes) (s t : Baselines)
    → (set_encrypted_baseline env authority blob s ≡ ok t) ↔ (
        (0 < length s.identity_state.data_bytes)
        × (init_if_needed env authority s ≡ ok t.ledger)
        × (t.encrypted_baseline ≡ some (record { blob = blob; bump = env.baseline_bump authority }))
        × (t.identity_state ≡ s.identity_state)
        × (t.key ≡ s.key)
        × (t.events ≡ encrypted_baseline_set authority ∷ s.events))
unfolding set_encrypted_baseline
set_encrypted_baseline_iff env authority blob s t =
    elim (Result-cases (init_if_needed env authority s)) [
      | inr (x, p) ↦ ground arith
      | inl (l, p) ↦ ground arith
    ]
