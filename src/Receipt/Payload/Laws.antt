-- ===== src/Receipt/Payload/Laws.antt =====
-- What an accepted receipt says.
use protocol_core.Base.{
  ℕ, ◌≤◌, ◌≡◌, ◌≢◌, refl, inl, inr, Bool, true, false, Option, none, some, [], ◌∷◌, length, arith,
  ◌==◌, if◌then◌else◌, ok, err, panic, Result-cases, Bool-cases,
}
use protocol_core.Base.Int.{ℤ, pos, ◌≤ℤ◌, ◌+ℤ◌, saturating_sub_le}
use protocol_core.Base.Words.{Bytes, from_le_bytes, i64_from_le_bytes}
use protocol_core.Base.Bytes.{bytes_eq_iff, sub, nth}
use protocol_core.Chain.{Pubkey}
use protocol_core.Receipt.Policy.{ValidatorKeyPolicy}
use protocol_core.Receipt.Policy.Laws.{read_u16_lem}
use protocol_core.Receipt.Instruction.{Sysvar, load_preceding_ed25519_receipt}
use protocol_core.Receipt.Instruction.Laws.{load_preceding_ed25519_receipt_safe}
use protocol_core.Receipt.Payload.{
  ReceiptPurpose, purpose_byte, is_mint, ReceiptSession, Fields, receipt_domain, parse_v1,
  parse_session, parse_v2_v3, parse_message, verify_receipt_payload, verify_validator_receipt,
}

-- The layouts, as a relation of the message to its purpose, projection version and fields.
pub data IsReceipt (m : Bytes) (purpose : ReceiptPurpose) (version : ℕ) (f : Fields) : Type 0 where
  v1 :
      length m ≡ 72
      → is_mint purpose ≡ true
      → version ≡ 0
      → f.wallet ≡ sub m 0 32
      → f.commitment ≡ sub m 32 32
      → f.validated_at ≡ i64_from_le_bytes (sub m 64 8)
      → f.session ≡ none
      → IsReceipt m purpose version f
  v2 :
      length m ≡ 103
      → sub m 0 28 ≡ receipt_domain 50
      → nth m 28 ≡ purpose_byte purpose
      → from_le_bytes (sub m 29 2) ≡ version
      → f.wallet ≡ sub m 31 32
      → f.commitment ≡ sub m 63 32
      → f.validated_at ≡ i64_from_le_bytes (sub m 95 8)
      → f.session ≡ none
      → IsReceipt m purpose version f
  v3 :
      (tail : ReceiptSession)
      → length m ≡ 136
      → sub m 0 28 ≡ receipt_domain 51
      → nth m 28 ≡ purpose_byte purpose
      → from_le_bytes (sub m 29 2) ≡ version
      → f.wallet ≡ sub m 31 32
      → f.commitment ≡ sub m 63 32
      → f.validated_at ≡ i64_from_le_bytes (sub m 95 8)
      → f.session ≡ some tail
      → tail.final_digest ≡ sub m 103 32
      → tail.assurance_tier ≡ nth m 135
      → tail.assurance_tier ≤ 2
      → IsReceipt m purpose version f

parse_v1_lem :
    (m : Bytes) (purpose : ReceiptPurpose) (version : ℕ) {f : Fields}
    → length m ≡ 72
    → parse_v1 m purpose version ≡ ok f
    → IsReceipt m purpose version f
unfolding parse_v1
parse_v1_lem m purpose version {f} h e =
    v1 h (ground arith) (ground arith) (ground arith) (ground arith) (ground arith) (ground arith)

parse_v2_lem :
    (m : Bytes) (purpose : ReceiptPurpose) (version : ℕ) {f : Fields}
    → length m ≡ 103
    → parse_v2_v3 false m purpose version ≡ ok f
    → IsReceipt m purpose version f
unfolding parse_v2_v3
parse_v2_lem m purpose version {f} h e =
    let (a, b, c, d, w, x, y) : (sub m 0 28 ≡ receipt_domain 50)
        × (nth m 28 ≡ purpose_byte purpose)
        × (from_le_bytes (sub m 29 2) ≡ version)
        × (f.wallet ≡ sub m 31 32)
        × (f.commitment ≡ sub m 63 32)
        × (f.validated_at ≡ i64_from_le_bytes (sub m 95 8))
        × (f.session ≡ none) =
      ground (arith, read_u16_lem m 29, bytes_eq_iff (sub m 0 28) (receipt_domain 50)) in
    v2 h a b c d w x y

parse_session_lem :
    (m : Bytes) {s : Option ReceiptSession}
    → length m ≡ 136
    → parse_session m ≡ ok s
    → (tail : ReceiptSession) × (s ≡ some tail)
      × (tail.final_digest ≡ sub m 103 32)
      × (tail.assurance_tier ≡ nth m 135)
      × (tail.assurance_tier ≤ 2)
unfolding parse_session
parse_session_lem m h e = (
  record { final_digest = sub m 103 32; assurance_tier = nth m 135 },
  ground arith,
  refl,
  refl,
  ground arith,
)

parse_v3_lem :
    (m : Bytes) (purpose : ReceiptPurpose) (version : ℕ) {f : Fields}
    → length m ≡ 136
    → parse_v2_v3 true m purpose version ≡ ok f
    → IsReceipt m purpose version f
unfolding parse_v2_v3
parse_v3_lem m purpose version {f} h e = elim (Result-cases (parse_session m)) [
  | inr (x, q) ↦ ground (arith, read_u16_lem m 29)
  | inl (s, q) ↦
      let (tail, t0, t1, t2, t3) = parse_session_lem m h q in
      let (a, b, c, d, w, x, y) : (sub m 0 28 ≡ receipt_domain 51)
          × (nth m 28 ≡ purpose_byte purpose)
          × (from_le_bytes (sub m 29 2) ≡ version)
          × (f.wallet ≡ sub m 31 32)
          × (f.commitment ≡ sub m 63 32)
          × (f.validated_at ≡ i64_from_le_bytes (sub m 95 8))
          × (f.session ≡ some tail) =
        ground (arith, read_u16_lem m 29, bytes_eq_iff (sub m 0 28) (receipt_domain 51)) in
      v3 tail h a b c d w x y t1 t2 t3
]

pub parse_message_lem :
    (m : Bytes) (purpose : ReceiptPurpose) (version : ℕ) {f : Fields}
    → parse_message m purpose version ≡ ok f
    → IsReceipt m purpose version f
unfolding parse_message
parse_message_lem m purpose version e = elim (Bool-cases (length m == 72)) [
  | inl a ↦ parse_v1_lem m purpose version (ground arith) (ground arith)
  | inr a ↦ elim (Bool-cases (length m == 103)) [
    | inl b ↦ parse_v2_lem m purpose version (ground arith) (ground arith)
    | inr b ↦ elim (Bool-cases (length m == 136)) [
      | inl c ↦ parse_v3_lem m purpose version (ground arith) (ground arith)
      | inr c ↦ ground arith
    ]
  ]
]

-- An accepted payload has one of the three layouts, names the wallet and the commitment of the
-- instruction, and its time lies at most 300 seconds back and not in the future.
pub verify_receipt_payload_lem :
    (m : Bytes) (wallet : Pubkey) (commitment : Bytes) (purpose : ReceiptPurpose) (version : ℕ)
    (now : ℤ) {session : Option ReceiptSession}
    → verify_receipt_payload m wallet commitment purpose version now ≡ ok session
    → (f : Fields) × IsReceipt m purpose version f
      × (f.wallet ≡ wallet)
      × (f.commitment ≡ commitment)
      × (f.validated_at ≤ℤ now)
      × (now ≤ℤ f.validated_at +ℤ pos 300)
      × (f.session ≡ session)
unfolding verify_receipt_payload
verify_receipt_payload_lem m wallet commitment purpose version now e =
    elim (Result-cases (parse_message m purpose version)) [
      | inr (x, q) ↦ ground arith
      | inl (f, q) ↦ (
        f,
        parse_message_lem m purpose version q,
        ground (arith, bytes_eq_iff f.wallet wallet),
        ground (arith, bytes_eq_iff f.commitment commitment),
        ground arith,
        saturating_sub_le now f.validated_at 300 (omega arith) (ground arith),
        ground arith,
      )
    ]

parse_v1_safe :
    (m : Bytes) (purpose : ReceiptPurpose) (version : ℕ)
    → length m ≡ 72
    → parse_v1 m purpose version ≢ err panic
unfolding parse_v1
parse_v1_safe m purpose version h e = ground arith

parse_session_safe : (m : Bytes) → length m ≡ 136 → parse_session m ≢ err panic
unfolding parse_session
parse_session_safe m h e = ground arith

parse_v2_v3_safe :
    (is_v3 : Bool) (m : Bytes) (purpose : ReceiptPurpose) (version : ℕ)
    → length m ≡ (if is_v3 then 136 else 103)
    → parse_v2_v3 is_v3 m purpose version ≢ err panic
unfolding parse_v2_v3
parse_v2_v3_safe false m purpose version h e = ground (arith, read_u16_lem m 29)
parse_v2_v3_safe true m purpose version h e = elim (Result-cases (parse_session m)) [
  | inr (x, q) ↦ ground (arith, read_u16_lem m 29, parse_session_safe m h)
  | inl (s, q) ↦ ground (arith, read_u16_lem m 29)
]

parse_message_safe :
    (m : Bytes) (purpose : ReceiptPurpose) (version : ℕ)
    → parse_message m purpose version ≢ err panic
unfolding parse_message
parse_message_safe m purpose version e = ground (
  arith,
  parse_v1_safe m purpose version,
  parse_v2_v3_safe false m purpose version,
  parse_v2_v3_safe true m purpose version,
)

verify_receipt_payload_safe :
    (m : Bytes) (wallet : Pubkey) (commitment : Bytes) (purpose : ReceiptPurpose) (version : ℕ)
    (now : ℤ)
    → verify_receipt_payload m wallet commitment purpose version now ≢ err panic
unfolding verify_receipt_payload
verify_receipt_payload_safe m wallet commitment purpose version now e =
    elim (Result-cases (parse_message m purpose version)) [
      | inr (x, q) ↦ ground (arith, parse_message_safe m purpose version)
      | inl (f, q) ↦ ground arith
    ]

-- No transaction, key policy or expectation makes the receipt check panic: every offset that the
-- instruction's header or the message declares is checked before it is read.
pub verify_validator_receipt_safe :
    (v : Sysvar) (keys : ValidatorKeyPolicy) (wallet : Pubkey) (commitment : Bytes)
    (purpose : ReceiptPurpose) (version : ℕ) (now : ℤ)
    → verify_validator_receipt v keys wallet commitment purpose version now ≢ err panic
unfolding verify_validator_receipt
verify_validator_receipt_safe v keys wallet commitment purpose version now e =
    elim (Result-cases (load_preceding_ed25519_receipt v keys (72 ∷ 103 ∷ 136 ∷ []) now)) [
      | inr (x, q) ↦
          ground (arith, load_preceding_ed25519_receipt_safe v keys (72 ∷ 103 ∷ 136 ∷ []) now)
      | inl (m, q) ↦
          ground (arith, verify_receipt_payload_safe m wallet commitment purpose version now)
    ]
