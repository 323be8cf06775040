-- ===== src/Counter.antt =====
-- programs/entros-anchor/src/proof_request.rs: a wallet's request counter and the growth of its
-- identity account. Accounts are named by their seeds; the rent is a parameter of the chain.
pub mod Laws
pub mod Tests
use protocol_core.Base.{
  ℕ, suc, ◌+◌, ◌-◌, ◌^◌, ◌≡◌, Bool, true, false, not, ◌&&◌, ◌||◌, Option, none, some, List, [], ◌∷◌,
  ◌++◌, length, take, leb, ltb, ◌==◌, if◌then◌else◌, Result, ok, err, entros_anchor, framework,
  EntrosAnchorError, FrameworkError, require, ok_or, ◌>>=◌, ◌>>◌, panic,
}
use protocol_core.Base.Words.{Bytes, to_le_bytes}
use protocol_core.Base.Bytes.{bytes_eq, slice, index, write, resize, zeros}
use protocol_core.Chain.{Pubkey, Ledger, Chain}
use protocol_core.Request.{generation, state_len, proof_request_state_name, read_counter}
use protocol_core.Verifier.Bound.{identity_state_name}

pub record ProofRequestState : Type 0 where
  pub version : ℕ
  pub wallet : Pubkey
  pub counter : ℕ
  pub bump : ℕ

-- A new account is zero-filled.
abbrev pub empty_state : ProofRequestState
empty_state = record { version = 0; wallet = zeros 32; counter = 0; bump = 0 }

-- `init_if_needed`, then the first use fills the state in.
unfoldable pub claim : Pubkey → ℕ → ProofRequestState → Result ProofRequestState
claim authority bump s =
    if s.version == 0
    then (require (bytes_eq s.wallet (zeros 32) && (s.counter == 0))
          (entros_anchor EntrosAnchorError.invalid_request_context)
        >> ok (record s { version = generation; wallet = authority; bump = bump }))
    else ok s

unfoldable pub prepare : Bool → Pubkey → ℕ → Option ProofRequestState → Result ProofRequestState
prepare request_bound_v1 authority bump account = do
  require request_bound_v1 (entros_anchor EntrosAnchorError.unsupported_proof_generation)
  s ← claim authority bump (elim account [ none ↦ empty_state | some s ↦ s ])
  require ((s.version == generation) && bytes_eq s.wallet authority && (s.bump == bump))
      (entros_anchor EntrosAnchorError.invalid_request_context)
  ok s

-- An account of raw bytes, with the lamports of all.
pub record Holding : Type 0 where
  pub key : Pubkey
  pub owner : Pubkey
  pub data_bytes : Bytes
  pub ledger : Ledger

-- The program's id, the system program's, the addresses of a wallet with their bumps, the hash.
pub record Program : Type 0 where
  pub chain : Chain
  pub id : Pubkey
  pub system_program : Pubkey
  pub state_key : Pubkey → Pubkey
  pub state_bump : Pubkey → ℕ
  pub mint_key : Pubkey → Pubkey
  pub identity_bump : Pubkey → ℕ
  pub hash : Bytes → Bytes

-- The payer tops the account up to the rent of n bytes.
unfoldable pub fund : Program → Pubkey → ℕ → Holding → Result Holding
fund program payer n h =
    let required = program.chain.minimum_balance n in
    let current = h.ledger h.key in
    if ltb current required
    then elim (program.chain.transfer h.ledger payer h.key (required - current)) [
      | none ↦ err (framework FrameworkError.cpi_failed)
      | some l ↦ ok (record h { ledger = l })
    ]
    else ok h

-- The new state's bytes: counter 0.
unfoldable pub initial_bytes : Program → Pubkey → Bytes
initial_bytes program wallet =
    take 8 (program.hash proof_request_state_name)
    ++ (generation ∷ [])
    ++ wallet
    ++ to_le_bytes 8 0
    ++ (program.state_bump wallet ∷ [])

-- `allocate`, `assign` and `try_serialize`, for an account that the system program holds empty.
unfoldable pub create : Program → Pubkey → Pubkey → Holding → Result Holding
create program wallet payer h =
    if bytes_eq h.owner program.system_program && (length h.data_bytes == 0)
    then (fund program payer state_len h >>= λ f.
        ok (record f { owner = program.id; data_bytes = initial_bytes program wallet }))
    else ok h

unfoldable pub advance : Program → Bool → Bool → Pubkey → Pubkey → Holding → Result Holding
advance program is_writable payer_signs wallet payer h = do
  require (is_writable && payer_signs) (entros_anchor EntrosAnchorError.invalid_request_context)
  require (bytes_eq h.key (program.state_key wallet))
      (entros_anchor EntrosAnchorError.invalid_request_context)
  c ← create program wallet payer h
  require (bytes_eq c.owner program.id) (entros_anchor EntrosAnchorError.invalid_request_context)
  counter ←
      ok_or (read_counter program.hash c.data_bytes wallet (program.state_bump wallet))
        (entros_anchor EntrosAnchorError.invalid_request_context)
  require (ltb (counter + 1) (2 ^ 64)) (entros_anchor EntrosAnchorError.arithmetic_overflow)
  d ← write c.data_bytes 41 (to_le_bytes 8 (counter + 1))
  ok (record c { data_bytes = d })

-- The four layouts that the identity account has had.
unfoldable pub is_known_len : ℕ → Bool
is_known_len n = (n == 543) || (n == 551) || (n == 583) || (n == 593)

unfoldable pub check_identity : Program → Pubkey → Bytes → Result (Unit {0})
check_identity program wallet d = do
  discriminator ← slice d 0 8
  owner ← slice d 8 32
  bump ← index d 126
  require
      (bytes_eq discriminator (take 8 (program.hash identity_state_name))
        && bytes_eq owner wallet
        && (bump == program.identity_bump wallet))
      (entros_anchor EntrosAnchorError.invalid_identity_state)
  mint ← slice d 94 32
  require (bytes_eq mint (program.mint_key wallet))
      (entros_anchor EntrosAnchorError.invalid_identity_state)

-- The owner constraint of the context, then the code; `fill(0)` behind `resize` writes the zeros
-- that are there already.
unfoldable pub upgrade_identity_layout : Program → Bool → Pubkey → Holding → Result Holding
upgrade_identity_layout program request_bound_v1 wallet h = do
  require (bytes_eq h.owner program.id) (framework FrameworkError.constraint_violated)
  require request_bound_v1 (entros_anchor EntrosAnchorError.unsupported_proof_generation)
  require (is_known_len (length h.data_bytes))
      (entros_anchor EntrosAnchorError.invalid_identity_state)
  check_identity program wallet h.data_bytes
  if length h.data_bytes == 593
      then ok h
      else (fund program wallet 593 h >>= λ f.
          ok (record f { data_bytes = resize f.data_bytes 593 }))
