-- ===== src/Chain.antt =====
-- The runtime that the programs stand on, as a parameter: the system program's transfers, the
-- framework's closing of an account, the rent. None of this code is in the repository.
pub mod Sample
use protocol_core.Base.{ℕ, ◌+◌, ◌≡◌, ◌≢◌, Option, none, some}
use protocol_core.Base.Words.{Bytes}

abbrev pub Pubkey : Type 0
Pubkey = Bytes

-- The lamports of each account.
abbrev pub Ledger : Type 0
Ledger = Pubkey → ℕ

pub record Chain : Type 0 where
  -- `system_program::transfer` from one account to another; `none` when it fails
  pub transfer : Ledger → Pubkey → Pubkey → ℕ → Option Ledger
  -- Anchor's `close = target`: the account's lamports go to the target
  pub close : Ledger → Pubkey → Pubkey → Ledger
  -- `Rent::minimum_balance`
  pub minimum_balance : ℕ → ℕ

-- What is documented of them.
pub record ChainLaws (c : Chain) : Type 0 where
  pub transfer_moves :
      (l : Ledger) (a b : Pubkey) (n : ℕ) (m : Ledger)
      → c.transfer l a b n ≡ some m
      → a ≢ b
      → (m a + n ≡ l a) × (m b ≡ l b + n)
  pub transfer_frame :
      (l : Ledger) (a b : Pubkey) (n : ℕ) (m : Ledger) (k : Pubkey)
      → c.transfer l a b n ≡ some m
      → k ≢ a
      → k ≢ b
      → m k ≡ l k
  pub close_pays : (l : Ledger) (a b : Pubkey) → a ≢ b → c.close l a b b ≡ l b + l a
  pub close_frame : (l : Ledger) (a b k : Pubkey) → k ≢ a → k ≢ b → c.close l a b k ≡ l k
