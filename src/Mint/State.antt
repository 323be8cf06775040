-- ===== src/Mint/State.antt =====
-- The accounts by their addresses, the calls of other programs, and the steps of the framework that
-- the instructions share: a new account, a typed account, the request counter.
pub mod Laws
use protocol_core.Base.{
  ℕ, suc, ◌+◌, ◌-◌, ◌≡◌, Bool, true, false, ◌&&◌, Option, none, some, List, [], ◌∷◌, length, ltb,
  ◌==◌, if◌then◌else◌, Result, ok, err, framework, FrameworkError, require, ok_or, ◌>>=◌, ◌>>◌,
}
use protocol_core.Base.Words.{Bytes}
use protocol_core.Base.Bytes.{bytes_eq, put, zeros}
use protocol_core.Chain.{Pubkey, Ledger}
use protocol_core.Counter
use protocol_core.Counter.{Holding}
use protocol_core.Update.State.{Environment, Account, Event, IdentityState, identity_len}
use protocol_core.Recovery.Shared.{program_of}

pub record Cell : Type 0 where
  pub owner : Pubkey
  pub data_bytes : Bytes

pub record Store : Type 0 where
  pub ledger : Ledger
  pub accounts : Pubkey → Cell

-- The calls of the system program and of the token programs, with the accounts and arguments that
-- the source gives them. The seeds that sign a call are those of the address given as authority.
pub data Cpi : Type 0 where
  -- from, to, lamports, space
  create_account : Pubkey → Pubkey → ℕ → ℕ → Cpi
  initialize_non_transferable_mint : Pubkey → Cpi
  -- mint, authority
  initialize_mint_close_authority : Pubkey → Pubkey → Cpi
  -- mint, authority, metadata address
  initialize_metadata_pointer : Pubkey → Pubkey → Pubkey → Cpi
  -- mint, authority, freeze authority, decimals
  initialize_mint2 : Pubkey → Pubkey → Option Pubkey → ℕ → Cpi
  -- mint, authority, name, symbol, address
  token_metadata_initialize : Pubkey → Pubkey → Bytes → Bytes → Bytes → Cpi
  -- payer, associated token account, authority, mint
  create_associated : Pubkey → Pubkey → Pubkey → Pubkey → Cpi
  create_associated_idempotent : Pubkey → Pubkey → Pubkey → Pubkey → Cpi
  -- mint, to, authority, amount
  mint_to : Pubkey → Pubkey → Pubkey → ℕ → Cpi
  -- token account, delegate, authority, amount
  approve : Pubkey → Pubkey → Pubkey → ℕ → Cpi
  -- mint, from, authority, amount
  burn : Pubkey → Pubkey → Pubkey → ℕ → Cpi
  -- account, destination, authority
  close_account : Pubkey → Pubkey → Pubkey → Cpi

-- The other programs. `tlv_size_of` and `try_calculate_account_len` may fail; the predicates are the
-- framework's checks of a mint and of a wallet's associated token account.
pub record Tokens : Type 0 where
  pub invoke_cpi : Cpi → Store → Option Store
  pub metadata_space : Option ℕ
  pub mint_space : Option ℕ
  pub is_mint : Store → Pubkey → Bool
  pub is_associated : Store → Pubkey → Pubkey → Pubkey → Bool

pub record World : Type 0 where
  pub store : Store
  pub events : List Event

-- A remaining account, by its address.
pub record Meta : Type 0 where
  pub key : Pubkey
  pub is_writable : Bool

unfoldable pub set_cell : Store → Pubkey → Cell → Store
set_cell s k c = record s { accounts = λ x. if bytes_eq x k then c else s.accounts x }

abbrev pub cpi_failed : Result Store
cpi_failed = err (framework FrameworkError.cpi_failed)

unfoldable pub transfer_lamports : Environment → Pubkey → Pubkey → ℕ → Store → Result Store
transfer_lamports env a b n s = elim (env.chain.transfer s.ledger a b n) [
  | none ↦ cpi_failed
  | some l ↦ ok (record s { ledger = l })
]

-- `init`: a new account of the program at the address, full of zeros, whose rent the payer pays.
unfoldable pub init_identity : Environment → Pubkey → Pubkey → Store → Result Store
unfolding transfer_lamports
init_identity env payer k s = do
  require
      (bytes_eq (s.accounts k).owner env.system_program && (length (s.accounts k).data_bytes == 0))
      (framework FrameworkError.account_in_use)
  let required = env.chain.minimum_balance identity_len
  let current = s.ledger k
  f ← if ltb current required then transfer_lamports env payer k (required - current) s else ok s
  let new : Cell = record { owner = env.id; data_bytes = zeros identity_len }
  ok (set_cell f k new)

-- `Account<IdentityState>`
unfoldable pub load_identity : Environment → Pubkey → Store → Result IdentityState
load_identity env k s = do
  require (bytes_eq (s.accounts k).owner env.id) (framework FrameworkError.constraint_violated)
  ok_or (env.deserialize (s.accounts k).data_bytes) (framework FrameworkError.constraint_violated)

-- The account is written when the instruction ends.
unfoldable pub exit_identity : Environment → Pubkey → IdentityState → Store → Store
exit_identity env k i s =
    let c = s.accounts k in
    set_cell s k (record { owner = c.owner; data_bytes = put c.data_bytes 0 (env.serialize i) })

-- `close = target`
unfoldable pub close_cell : Environment → Pubkey → Pubkey → Store → Store
close_cell env k target s =
    let f : Store = record s { ledger = env.chain.close s.ledger k target } in
    set_cell f k (record { owner = env.system_program; data_bytes = [] })

-- `proof_request::advance` of an account of the store.
unfoldable pub advance_at : Environment → Pubkey → Pubkey → Meta → Store → Result Store
advance_at env wallet payer m s = do
  let c = s.accounts m.key
  h ←
      Counter.advance (program_of env) m.is_writable true wallet payer
        (record { key = m.key; owner = c.owner; data_bytes = c.data_bytes; ledger = s.ledger })
  let f : Store = record s { ledger = h.ledger }
  ok (set_cell f m.key (record { owner = h.owner; data_bytes = h.data_bytes }))

unfoldable pub run_cpis : Tokens → List Cpi → Store → Result Store
run_cpis tokens [] s = ok s
run_cpis tokens (c ∷ cs) s =
    ok_or (tokens.invoke_cpi c s) (framework FrameworkError.cpi_failed) >>= run_cpis tokens cs
