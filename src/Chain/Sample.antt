-- ===== src/Chain/Sample.antt =====
-- A chain that meets the laws, and the keys that the tests use.
use protocol_core.Base.{ℕ, ◌+◌, ◌-◌, Option, none, some, arith, leb, if◌then◌else◌, replicate}
use protocol_core.Base.Bytes.{bytes_eq, bytes_eq_iff, bytes_eq_refl}
use protocol_core.Chain.{Pubkey, Ledger, Chain, ChainLaws}

abbrev pub key : ℕ → Pubkey
key n = replicate 32 n

unfoldable pub credit : Ledger → Pubkey → ℕ → Ledger
credit l b n k = if bytes_eq k b then l k + n else l k

unfoldable pub debit : Ledger → Pubkey → ℕ → Ledger
debit l a n k = if bytes_eq k a then l k - n else l k

unfoldable pub move : Ledger → Pubkey → Pubkey → ℕ → Option Ledger
move l a b n = if leb n (l a) then some (credit (debit l a n) b n) else none

unfoldable pub sweep : Ledger → Pubkey → Pubkey → Ledger
sweep l a b = credit (debit l a (l a)) b (l a)

abbrev pub sample_chain : Chain
sample_chain = record { transfer = move; close = sweep; minimum_balance = λ n. n + 128 }

pub sample_chain-laws : ChainLaws sample_chain
unfolding move credit debit sweep
sample_chain-laws = record {
  transfer_moves = λ l a b n m e d.
      ground (arith, bytes_eq_iff a b, bytes_eq_iff b a, bytes_eq_refl a, bytes_eq_refl b);
  transfer_frame = λ l a b n m k e p q. ground (arith, bytes_eq_iff k a, bytes_eq_iff k b);
  close_pays = λ l a b d.
      ground (arith, bytes_eq_iff a b, bytes_eq_iff b a, bytes_eq_refl a, bytes_eq_refl b);
  close_frame = λ l a b k p q. ground (arith, bytes_eq_iff k a, bytes_eq_iff k b);
}
