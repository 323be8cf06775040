-- ===== src/Receipt/Digest.antt =====
-- The version 4 receipt of an update: its preimage is rebuilt from the instruction's arguments, and
-- the signed message is its hash. The hash is a parameter.
pub mod Laws
use protocol_core.Base.{
  ℕ, suc, ◌+◌, ◌≡◌, Bool, true, false, not, Option, none, some, List, [], ◌∷◌, length, leb, ◌==◌,
  if◌then◌else◌, Result, ok, err, entros_anchor, EntrosAnchorError, require, ◌>>=◌, ◌>>◌,
}
use protocol_core.Base.Int.{ℤ, pos, leb_ℤ, saturating_sub}
use protocol_core.Base.Words.{Bytes, to_le_bytes, i64_to_le_bytes}
use protocol_core.Base.Bytes.{bytes_eq, zeros}
use protocol_core.Base.Concat.{concat}
use protocol_core.Chain.{Pubkey}
use protocol_core.Receipt.Policy.{ValidatorKeyPolicy}
use protocol_core.Receipt.Instruction.{Sysvar, load_preceding_ed25519_receipt, malformed}
use protocol_core.Receipt.Payload.{
  ReceiptSession, receipt_domain, max_assurance_tier, max_receipt_age_secs,
}

pub record UpdateReceiptArgs : Type 0 where
  pub validated_at : ℤ
  pub assurance_tier : ℕ
  pub session_final_digest : Option Bytes

-- The digest's place in the preimage: zero where there is no session.
abbrev pub digest_bytes : Option Bytes → Bytes
digest_bytes none = zeros 32
digest_bytes (some digest) = digest

unfoldable pub is_zero_digest : Option Bytes → Bool
is_zero_digest none = false
is_zero_digest (some digest) = bytes_eq digest (zeros 32)

-- The fields of the 136-byte buffer; the purpose is that of an update.
abbrev pub preimage_parts : Pubkey → Bytes → ℕ → UpdateReceiptArgs → List Bytes
preimage_parts wallet commitment_new projection_version receipt =
    receipt_domain 52
    ∷ (4 ∷ [])
    ∷ to_le_bytes 2 projection_version
    ∷ wallet
    ∷ commitment_new
    ∷ i64_to_le_bytes receipt.validated_at
    ∷ digest_bytes receipt.session_final_digest
    ∷ (receipt.assurance_tier ∷ [])
    ∷ []

unfoldable pub build_update_receipt_v4_preimage :
    Pubkey → Bytes → ℕ → UpdateReceiptArgs → Result Bytes
unfolding is_zero_digest
build_update_receipt_v4_preimage wallet commitment_new projection_version receipt = do
  require (leb receipt.assurance_tier max_assurance_tier)
      (entros_anchor EntrosAnchorError.invalid_assurance_tier)
  require (not (is_zero_digest receipt.session_final_digest)) malformed
  ok (concat (preimage_parts wallet commitment_new projection_version receipt))

abbrev pub session_of : UpdateReceiptArgs → Option ReceiptSession
session_of receipt = elim receipt.session_final_digest [
  | none ↦ none
  | some digest ↦ some (record { final_digest = digest; assurance_tier = receipt.assurance_tier })
]

module _ (hash : Bytes → Bytes) where
  unfoldable pub compute_update_receipt_v4_digest :
      Pubkey → Bytes → ℕ → UpdateReceiptArgs → Result Bytes
  compute_update_receipt_v4_digest wallet commitment_new projection_version receipt = do
    preimage ← build_update_receipt_v4_preimage wallet commitment_new projection_version receipt
    ok (hash preimage)

  unfoldable pub verify_update_receipt_digest :
      Sysvar
      → ValidatorKeyPolicy
      → Pubkey
      → Bytes
      → ℕ
      → UpdateReceiptArgs
      → ℤ
      → Result (Option ReceiptSession)
  verify_update_receipt_digest sysvar validator_keys wallet commitment_new version receipt now = do
    signed_digest ← load_preceding_ed25519_receipt sysvar validator_keys (32 ∷ []) now
    expected_digest ← compute_update_receipt_v4_digest wallet commitment_new version receipt
    require (bytes_eq signed_digest expected_digest)
        (entros_anchor EntrosAnchorError.receipt_commitment_mismatch)
    require (leb_ℤ receipt.validated_at now) (entros_anchor EntrosAnchorError.receipt_from_future)
    require (leb_ℤ (saturating_sub now receipt.validated_at) (pos max_receipt_age_secs))
        (entros_anchor EntrosAnchorError.receipt_expired)
    ok (session_of receipt)
