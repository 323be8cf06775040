-- ===== src/Registry/State.antt =====
-- What the program's instructions read and write. An account with a `seeds` constraint is named by
-- its seeds: there is one configuration, one treasury, one vault, and a validator account for each
-- wallet. An error leaves the state as it was, since the transaction is undone.
use protocol_core.Base.{
  RegistryError, FrameworkError, registry, framework, ℕ, ◌-◌, ◌≤◌, ◌≡◌, Bool, none, some, List, ◌∷◌,
  arith, length, ltb, leb, ◌==◌, if◌then◌else◌, Result, ok, err, require, Result-cases, inl, inr,
  ◌⊎◌, ◌>>=◌, ◌>>◌, take,
}
use protocol_core.Base.Int.{ℤ}
use protocol_core.Base.Words.{Bytes}
use protocol_core.Base.Bytes.{bytes_eq, bytes_eq_iff, slice, sub-resize, resize, resize_full, zeros}
use protocol_core.Chain.{Pubkey, Ledger, Chain}
use protocol_core.Registry.Config.{ProtocolConfig, view, config_len}

pub record ValidatorState : Type 0 where
  pub authority : Pubkey
  pub stake : ℕ
  pub registration_time : ℤ
  pub is_active : Bool
  pub verifications_performed : ℕ
  pub bump : ℕ

pub data Event : Type 0 where
  validator_registered : Pubkey → ℕ → Event
  trust_score_computed : ℕ → ℤ → ℕ → Event
  validator_unstaked : Pubkey → ℕ → Event
  protocol_config_updated : Pubkey → ℕ → Event
  treasury_withdrawn : Pubkey → ℕ → Event
  admin_migrated : Pubkey → Pubkey → Event
  validator_pubkey_set : Pubkey → Pubkey → Event
  projection_versions_set : Pubkey → ℕ → ℕ → Event
  validator_pubkey_rotated : Pubkey → Pubkey → Pubkey → ℤ → Event
  authority_transfer_proposed : Pubkey → Pubkey → Event
  authority_transfer_accepted : Pubkey → Pubkey → Event

-- The configuration account's owner and bytes, the lamports of all accounts, the validator
-- accounts by wallet, and the events, newest first.
pub record Registry : Type 0 where
  pub owner : Pubkey
  pub data_bytes : Bytes
  pub ledger : Ledger
  pub validators : List (Pubkey × ValidatorState)
  pub events : List Event

-- The program's own id, the addresses and bumps of its accounts, and the account discriminator.
pub record Program : Type 0 where
  pub id : Pubkey
  pub config_key : Pubkey
  pub config_bump : ℕ
  pub treasury_key : Pubkey
  pub vault_key : Pubkey
  pub validator_key : Pubkey → Pubkey
  pub validator_bump : Pubkey → ℕ
  pub discriminator : Bytes
  pub system_program : Pubkey

abbrev pub default_pubkey : Pubkey
default_pubkey = zeros 32

abbrev pub emit : Event → Registry → Registry
emit e r = record r { events = e ∷ r.events }

-- The layouts that the account has had: 69, 77, 109, 113 and 185 bytes.
abbrev pub IsLayout : Bytes → Type 0
IsLayout d =
    (length d ≤ config_len)
    × ((length d ≤ 77) ⊎ (109 ≤ length d))
    × ((length d ≤ 109) ⊎ (113 ≤ length d))

-- The configuration that the account holds: an older, shorter layout reads as zero-filled.
unfoldable pub config_of : Registry → ProtocolConfig
config_of r = view (resize r.data_bytes config_len)

-- `Account<ProtocolConfig>` with `bump = protocol_config.bump`: the owner, the discriminator and
-- the whole layout are checked, then the fields are read.
unfoldable pub load_config : Program → Registry → Result ProtocolConfig
load_config program r = do
  require (bytes_eq r.owner program.id) (framework FrameworkError.account_not_initialized)
  require (leb config_len (length r.data_bytes)) (framework FrameworkError.account_not_initialized)
  require (bytes_eq (take 8 r.data_bytes) program.discriminator)
      (framework FrameworkError.account_not_initialized)
  require ((view r.data_bytes).bump == program.config_bump)
      (framework FrameworkError.constraint_violated)
  ok (view r.data_bytes)

-- The stored admin of a configuration of any layout, read from the raw bytes.
unfoldable pub stored_admin : Registry → Result Pubkey
stored_admin r = do
  require (leb 40 (length r.data_bytes)) (registry RegistryError.invalid_protocol_config)
  slice r.data_bytes 8 32

-- `stored_admin == admin.key()`, the block that four instructions share.
unfoldable pub require_admin : Pubkey → Registry → Result (Unit {0})
unfolding stored_admin
require_admin admin r = do
  stored ← stored_admin r
  require (bytes_eq stored admin) (registry RegistryError.unauthorized)

module _ (chain : Chain) (program : Program) where
  -- `system_program::transfer(...)?`
  unfoldable pub transfer : Pubkey → Pubkey → ℕ → Registry → Result Registry
  transfer a b n r = elim (chain.transfer r.ledger a b n) [
    | none ↦ err (framework FrameworkError.cpi_failed)
    | some l ↦ ok (record r { ledger = l })
  ]

  -- The payer tops the account up to the rent of n bytes.
  unfoldable pub top_up : Pubkey → ℕ → Registry → Result Registry
  top_up payer n r =
      let required = chain.minimum_balance n in
      let current = r.ledger program.config_key in
      if ltb current required
      then transfer payer program.config_key (required - current) r
      else ok r

  unfoldable pub ensure_protocol_config_len : Pubkey → Registry → Result Registry
  ensure_protocol_config_len payer r =
      if ltb (length r.data_bytes) config_len
      then top_up payer config_len (record r { data_bytes = resize r.data_bytes config_len })
      else ok r

  pub top_up_keeps :
      (payer : Pubkey) (n : ℕ) (r s : Registry)
      → top_up payer n r ≡ ok s
      → (s.data_bytes ≡ r.data_bytes)
        × (s.owner ≡ r.owner)
        × (s.validators ≡ r.validators)
        × (s.events ≡ r.events)
  unfolding top_up transfer
  top_up_keeps payer n r s e = ground arith

  -- After it the bytes are those of the full layout, and nothing but the ledger changes beside them.
  pub ensure_grows :
      (payer : Pubkey) (r s : Registry)
      → length r.data_bytes ≤ config_len
      → ensure_protocol_config_len payer r ≡ ok s
      → (s.data_bytes ≡ resize r.data_bytes config_len)
        × (s.owner ≡ r.owner)
        × (s.validators ≡ r.validators)
        × (s.events ≡ r.events)
  unfolding ensure_protocol_config_len top_up transfer
  ensure_grows payer r s h e = ground (arith, resize_full r.data_bytes config_len)

-- The raw read gives the admin of the configuration that the account holds.
stored_admin_lem : (r : Registry) {a : Pubkey} → stored_admin r ≡ ok a → a ≡ (config_of r).admin
unfolding stored_admin config_of view
stored_admin_lem r e = ground (arith, sub-resize r.data_bytes config_len 8 32)

pub require_admin_lem :
    (admin : Pubkey) (r : Registry) {u : Unit {0}}
    → require_admin admin r ≡ ok u
    → (config_of r).admin ≡ admin
unfolding require_admin
require_admin_lem admin r e = elim (Result-cases (stored_admin r)) [
  | inl (a, q) ↦ ground (arith, stored_admin_lem r q, bytes_eq_iff a admin)
  | inr (x, q) ↦ ground arith
]

pub config_of_full :
    (r : Registry) → length r.data_bytes ≡ config_len → config_of r ≡ view r.data_bytes
unfolding config_of
config_of_full r e = rw (resize_full r.data_bytes config_len e)

pub config_of_grown :
    (r : Registry) {d : Bytes} → d ≡ resize r.data_bytes config_len → view d ≡ config_of r
unfolding config_of
config_of_grown r e = rw e
