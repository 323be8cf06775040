-- ===== src/Registry/Funds/Stakes.antt =====
-- The validator accounts by wallet, and the sum of the stakes that they record.
use protocol_core.Base.{
  ℕ, ◌+◌, ◌≡◌, Bool, true, false, Option, none, some, List, [], ◌∷◌, arith, if◌then◌else◌,
}
use protocol_core.Base.Int.{ℤ}
use protocol_core.Base.Bytes.{bytes_eq}
use protocol_core.Chain.{Pubkey}
use protocol_core.Registry.State.{ValidatorState}

abbrev pub Accounts : Type 0
Accounts = List (Pubkey × ValidatorState)

unfoldable pub find : Pubkey → Accounts → Option ValidatorState
find k [] = none
find k ((j, s) ∷ rest) = if bytes_eq j k then some s else find k rest

unfoldable pub remove : Pubkey → Accounts → Accounts
remove k [] = []
remove k ((j, s) ∷ rest) = if bytes_eq j k then rest else (j, s) ∷ remove k rest

unfoldable pub total_stake : Accounts → ℕ
total_stake [] = 0
total_stake ((j, s) ∷ rest) = s.stake + total_stake rest

abbrev pub is_free : Option ValidatorState → Bool
is_free none = true
is_free (some s) = false

-- The state that `register_validator` writes.
unfoldable pub new_state : Pubkey → ℕ → ℤ → ℕ → ValidatorState
new_state validator stake now bump = record {
  authority = validator;
  stake = stake;
  registration_time = now;
  is_active = true;
  verifications_performed = 0;
  bump = bump;
}

pub total_stake-remove :
    (k : Pubkey) (l : Accounts) {s : ValidatorState}
    → find k l ≡ some s
    → total_stake l ≡ s.stake + total_stake (remove k l)
unfolding find remove total_stake
total_stake-remove k [] e = cc
total_stake-remove k ((j, x) ∷ rest) {s} e = ground (arith, total_stake-remove k rest {s = s})
