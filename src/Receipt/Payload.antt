-- ===== src/Receipt/Payload.antt =====
-- `verify_receipt_payload`: the three message layouts, and what the message must agree with.
pub mod Laws
use protocol_core.Base.{
  ℕ, suc, ◌+◌, ◌≡◌, Bool, true, false, not, ◌&&◌, ◌||◌, Option, none, some, List, [], ◌∷◌, length,
  leb, ltb, ◌==◌, if◌then◌else◌, Result, ok, err, entros_anchor, EntrosAnchorError, require, ◌>>=◌,
  ◌>>◌, panic,
}
use protocol_core.Base.Int.{ℤ, pos, leb_ℤ, saturating_sub}
use protocol_core.Base.Words.{Bytes, from_le_bytes, i64_from_le_bytes}
use protocol_core.Base.Bytes.{bytes_eq, slice, index}
use protocol_core.Chain.{Pubkey}
use protocol_core.Receipt.Policy.{ValidatorKeyPolicy, read_u16}
use protocol_core.Receipt.Instruction.{Sysvar, load_preceding_ed25519_receipt, malformed}

abbrev pub max_receipt_age_secs : ℕ
max_receipt_age_secs = 300

abbrev pub max_assurance_tier : ℕ
max_assurance_tier = 2

-- "entros-validator-receipt-v", then the version and a zero byte.
abbrev pub receipt_domain : ℕ → Bytes
receipt_domain version =
    101 ∷ 110 ∷ 116 ∷ 114 ∷ 111 ∷ 115 ∷ 45 ∷ 118 ∷ 97 ∷ 108 ∷ 105 ∷ 100 ∷ 97 ∷ 116 ∷ 111 ∷ 114 ∷ 45
    ∷ 114 ∷ 101 ∷ 99 ∷ 101 ∷ 105 ∷ 112 ∷ 116 ∷ 45 ∷ 118 ∷ version ∷ 0 ∷ []

pub data ReceiptPurpose : Type 0 where
  mint rebaseline reset update : ReceiptPurpose

-- `as u8`
unfoldable pub purpose_byte : ReceiptPurpose → ℕ
purpose_byte mint = 1
purpose_byte rebaseline = 2
purpose_byte reset = 3
purpose_byte update = 4

unfoldable pub is_mint : ReceiptPurpose → Bool
is_mint mint = true
is_mint rebaseline = false
is_mint reset = false
is_mint update = false

pub record ReceiptSession : Type 0 where
  pub final_digest : Bytes
  pub assurance_tier : ℕ

-- What the arms of the `match` give.
pub record Fields : Type 0 where
  pub wallet : Bytes
  pub commitment : Bytes
  pub validated_at : ℤ
  pub session : Option ReceiptSession

-- 72 bytes: for a mint in projection space 0 only.
unfoldable pub parse_v1 : Bytes → ReceiptPurpose → ℕ → Result Fields
unfolding is_mint
parse_v1 m purpose version = do
  require (is_mint purpose && (version == 0))
      (entros_anchor EntrosAnchorError.receipt_version_mismatch)
  at ← slice m 64 8
  wallet ← slice m 0 32
  commitment ← slice m 32 32
  let fields : Fields = record {
    wallet = wallet;
    commitment = commitment;
    validated_at = i64_from_le_bytes at;
    session = none;
  }
  ok fields

-- The session tail of 136 bytes.
unfoldable pub parse_session : Bytes → Result (Option ReceiptSession)
parse_session m = do
  assurance_tier ← index m 135
  require (leb assurance_tier max_assurance_tier)
      (entros_anchor EntrosAnchorError.invalid_assurance_tier)
  final_digest ← slice m 103 32
  let session : ReceiptSession = record {
    final_digest = final_digest;
    assurance_tier = assurance_tier;
  }
  ok (some session)

-- 103 or 136 bytes.
unfoldable pub parse_v2_v3 : Bool → Bytes → ReceiptPurpose → ℕ → Result Fields
unfolding parse_session purpose_byte read_u16
parse_v2_v3 is_v3 m purpose version = do
  domain ← slice m 0 28
  require (bytes_eq domain (receipt_domain (if is_v3 then 51 else 50))) malformed
  stated ← index m 28
  require (stated == purpose_byte purpose)
      (entros_anchor EntrosAnchorError.receipt_purpose_mismatch)
  projection_version ← read_u16 m 29
  require (projection_version == version)
      (entros_anchor EntrosAnchorError.receipt_projection_version_mismatch)
  at ← slice m 95 8
  session ← if is_v3 then parse_session m else ok none
  wallet ← slice m 31 32
  commitment ← slice m 63 32
  let fields : Fields = record {
    wallet = wallet;
    commitment = commitment;
    validated_at = i64_from_le_bytes at;
    session = session;
  }
  ok fields

unfoldable pub parse_message : Bytes → ReceiptPurpose → ℕ → Result Fields
parse_message m purpose version =
    if length m == 72
    then parse_v1 m purpose version
    else if length m == 103
    then parse_v2_v3 false m purpose version
    else if length m == 136
    then parse_v2_v3 true m purpose version
    else err malformed

unfoldable pub verify_receipt_payload :
    Bytes → Pubkey → Bytes → ReceiptPurpose → ℕ → ℤ → Result (Option ReceiptSession)
verify_receipt_payload m wallet commitment purpose version now = do
  fields ← parse_message m purpose version
  require (bytes_eq fields.wallet wallet) (entros_anchor EntrosAnchorError.receipt_wallet_mismatch)
  require (bytes_eq fields.commitment commitment)
      (entros_anchor EntrosAnchorError.receipt_commitment_mismatch)
  require (leb_ℤ fields.validated_at now) (entros_anchor EntrosAnchorError.receipt_from_future)
  require (leb_ℤ (saturating_sub now fields.validated_at) (pos max_receipt_age_secs))
      (entros_anchor EntrosAnchorError.receipt_expired)
  ok fields.session

unfoldable pub verify_validator_receipt :
    Sysvar
    → ValidatorKeyPolicy
    → Pubkey
    → Bytes
    → ReceiptPurpose
    → ℕ
    → ℤ
    → Result (Option ReceiptSession)
verify_validator_receipt sysvar validator_keys wallet commitment purpose version now = do
  m ← load_preceding_ed25519_receipt sysvar validator_keys (72 ∷ 103 ∷ 136 ∷ []) now
  verify_receipt_payload m wallet commitment purpose version now
