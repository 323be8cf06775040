-- ===== src/Receipt/Instruction.antt =====
-- `load_preceding_ed25519_receipt`: the message of the Ed25519 instruction just before this one.
-- The instructions of the transaction are what the runtime's sysvar gives.
pub mod Laws
use protocol_core.Base.{
  ℕ, zero, suc, ◌+◌, ◌-◌, ◌≡◌, Bool, true, false, not, ◌&&◌, ◌||◌, Option, none, some, List, [],
  ◌∷◌, length, leb, ltb, ◌==◌, if◌then◌else◌, Result, ok, err, entros_anchor, framework,
  EntrosAnchorError, FrameworkError, Error, require, ◌>>=◌, ◌>>◌, panic, ok_or, get_elem?,
}
use protocol_core.Base.Int.{ℤ}
use protocol_core.Base.Words.{Bytes, from_le_bytes}
use protocol_core.Base.Bytes.{bytes_eq, slice, index}
use protocol_core.Chain.{Pubkey}
use protocol_core.Receipt.Policy.{ValidatorKeyPolicy, is_configured, accepts, read_u16}

pub record Instruction : Type 0 where
  pub program_id : Pubkey
  pub data_bytes : Bytes

-- The transaction's instructions and the place of the current one.
pub record Sysvar : Type 0 where
  pub instructions : List Instruction
  pub current_index : ℕ

abbrev pub ed25519_program_id : Pubkey
ed25519_program_id =
    3 ∷ 125 ∷ 70 ∷ 214 ∷ 124 ∷ 147 ∷ 251 ∷ 190 ∷ 18 ∷ 249 ∷ 66 ∷ 143 ∷ 131 ∷ 141 ∷ 64 ∷ 255 ∷ 5
    ∷ 112 ∷ 116 ∷ 73 ∷ 39 ∷ 244 ∷ 138 ∷ 100 ∷ 252 ∷ 202 ∷ 112 ∷ 68 ∷ 128 ∷ 0 ∷ 0 ∷ 0 ∷ []

abbrev pub ed25519_header_len : ℕ
ed25519_header_len = 16

abbrev pub ed25519_ix_index_current : ℕ
ed25519_ix_index_current = 65535

unfoldable pub contains : List ℕ → ℕ → Bool
contains [] n = false
contains (x ∷ xs) n = (x == n) || contains xs n

abbrev pub malformed : Error
malformed = entros_anchor EntrosAnchorError.malformed_receipt_message

-- The header: its length, the number of signatures, and no reference to another instruction.
unfoldable pub check_header : Bytes → Result (Unit {0})
unfolding read_u16
check_header d = do
  require (leb ed25519_header_len (length d)) malformed
  signatures ← index d 0
  require (signatures == 1) malformed
  sig_ix_index ← read_u16 d 4
  pk_ix_index ← read_u16 d 8
  msg_ix_index ← read_u16 d 14
  require
      ((sig_ix_index == ed25519_ix_index_current)
        && (pk_ix_index == ed25519_ix_index_current)
        && (msg_ix_index == ed25519_ix_index_current))
      malformed

-- The signed key and the message, at the offsets that the header declares.
unfoldable pub parse : Bytes → List ℕ → ValidatorKeyPolicy → ℤ → Result Bytes
unfolding read_u16
parse d allowed_sizes validator_keys now = do
  pubkey_offset ← read_u16 d 6
  message_offset ← read_u16 d 10
  message_size ← read_u16 d 12
  require (leb (pubkey_offset + 32) (length d) && leb (message_offset + message_size) (length d))
      malformed
  require (contains allowed_sizes message_size) malformed
  signed_pubkey ← slice d pubkey_offset 32
  require (accepts validator_keys signed_pubkey now)
      (entros_anchor EntrosAnchorError.receipt_validator_mismatch)
  slice d message_offset message_size

-- The instruction before the current one.
unfoldable pub preceding : Sysvar → Result Instruction
preceding sysvar = do
  require (not (sysvar.current_index == 0))
      (entros_anchor EntrosAnchorError.missing_validator_receipt)
  ok_or (get_elem? sysvar.instructions (sysvar.current_index - 1))
      (framework FrameworkError.constraint_violated)

unfoldable pub load_preceding_ed25519_receipt :
    Sysvar → ValidatorKeyPolicy → List ℕ → ℤ → Result Bytes
load_preceding_ed25519_receipt sysvar validator_keys allowed_sizes now = do
  require (is_configured validator_keys) (entros_anchor EntrosAnchorError.validator_not_configured)
  prev ← preceding sysvar
  require (bytes_eq prev.program_id ed25519_program_id)
      (entros_anchor EntrosAnchorError.missing_validator_receipt)
  check_header prev.data_bytes
  parse prev.data_bytes allowed_sizes validator_keys now
