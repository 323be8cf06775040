-- ===== src/Receipt/Instruction/Laws.antt =====
-- The parser of the Ed25519 instruction reads only what is there, and nothing from elsewhere.
use protocol_core.Base.{
  ℕ, ◌+◌, ◌-◌, ◌≤◌, ◌≡◌, ◌≢◌, inl, inr, true, some, List, length, arith, ok, err, panic, get_elem?,
  Result-cases, Option-cases,
}
use protocol_core.Base.Int.{ℤ}
use protocol_core.Base.Words.{Bytes, from_le_bytes}
use protocol_core.Base.Bytes.{bytes_eq_iff, sub, nth, length-sub}
use protocol_core.Receipt.Policy.{ValidatorKeyPolicy, accepts, is_configured}
use protocol_core.Receipt.Policy.Laws.{read_u16_lem}
use protocol_core.Receipt.Instruction.{
  Instruction, Sysvar, ed25519_program_id, contains, check_header, parse, preceding,
  load_preceding_ed25519_receipt,
}

abbrev pub u16_at : Bytes → ℕ → ℕ
u16_at d i = from_le_bytes (sub d i 2)

-- One signature, and all its parts in this very instruction.
abbrev pub IsInline : Bytes → Type 0
IsInline d =
    (16 ≤ length d)
    × (nth d 0 ≡ 1)
    × (u16_at d 4 ≡ 65535)
    × (u16_at d 8 ≡ 65535)
    × (u16_at d 14 ≡ 65535)

check_header_lem : (d : Bytes) → check_header d ≡ ok tt → IsInline d
unfolding check_header
check_header_lem d e = ground (arith, read_u16_lem d 4, read_u16_lem d 8, read_u16_lem d 14)

check_header_safe : (d : Bytes) → check_header d ≢ err panic
unfolding check_header
check_header_safe d e = ground (arith, read_u16_lem d 4, read_u16_lem d 8, read_u16_lem d 14)

parse_lem :
    (d : Bytes) (sizes : List ℕ) (keys : ValidatorKeyPolicy) (now : ℤ) {m : Bytes}
    → 16 ≤ length d
    → parse d sizes keys now ≡ ok m
    → (m ≡ sub d (u16_at d 10) (u16_at d 12))
      × (u16_at d 10 + u16_at d 12 ≤ length d)
      × (u16_at d 6 + 32 ≤ length d)
      × (contains sizes (u16_at d 12) ≡ true)
      × (accepts keys (sub d (u16_at d 6) 32) now ≡ true)
unfolding parse
parse_lem d sizes keys now h e =
    ground (arith, read_u16_lem d 6, read_u16_lem d 10, read_u16_lem d 12)

parse_safe :
    (d : Bytes) (sizes : List ℕ) (keys : ValidatorKeyPolicy) (now : ℤ)
    → 16 ≤ length d
    → parse d sizes keys now ≢ err panic
unfolding parse
parse_safe d sizes keys now h e =
    ground (arith, read_u16_lem d 6, read_u16_lem d 10, read_u16_lem d 12)

preceding_lem :
    (v : Sysvar) {i : Instruction}
    → preceding v ≡ ok i
    → (v.current_index ≢ 0) × (get_elem? v.instructions (v.current_index - 1) ≡ some i)
unfolding preceding
preceding_lem v e = elim (Option-cases (get_elem? v.instructions (v.current_index - 1))) [
  | inl n ↦ ground arith
  | inr (i, n) ↦ ground arith
]

preceding_safe : (v : Sysvar) → preceding v ≢ err panic
unfolding preceding
preceding_safe v e = elim (Option-cases (get_elem? v.instructions (v.current_index - 1))) [
  | inl n ↦ ground arith
  | inr (i, n) ↦ ground arith
]

-- The instruction data come from outside, but no data whatever makes the parser read out of bounds.
pub load_preceding_ed25519_receipt_safe :
    (v : Sysvar) (keys : ValidatorKeyPolicy) (sizes : List ℕ) (now : ℤ)
    → load_preceding_ed25519_receipt v keys sizes now ≢ err panic
unfolding load_preceding_ed25519_receipt
load_preceding_ed25519_receipt_safe v keys sizes now e = elim (Result-cases (preceding v)) [
  | inr (x, q) ↦ ground (arith, preceding_safe v)
  | inl (i, q) ↦ elim (Result-cases (check_header i.data_bytes)) [
    | inr (x, c) ↦ ground (arith, check_header_safe i.data_bytes)
    | inl (u, c) ↦ ground (
      arith,
      (check_header_lem i.data_bytes c).0,
      parse_safe i.data_bytes sizes keys now (check_header_lem i.data_bytes c).0,
    )
  ]
]

-- An accepted message is the one that the Ed25519 instruction just before this one carries in its
-- own data, under one signature, by a key that the policy accepts at this time; its size is one of
-- those allowed, and a policy without a primary key accepts none.
pub load_preceding_ed25519_receipt_lem :
    (v : Sysvar) (keys : ValidatorKeyPolicy) (sizes : List ℕ) (now : ℤ) {m : Bytes}
    → load_preceding_ed25519_receipt v keys sizes now ≡ ok m
    → (is_configured keys ≡ true)
      × (i : Instruction) × (v.current_index ≢ 0)
      × (get_elem? v.instructions (v.current_index - 1) ≡ some i)
      × (i.program_id ≡ ed25519_program_id)
      × IsInline i.data_bytes
      × (m ≡ sub i.data_bytes (u16_at i.data_bytes 10) (u16_at i.data_bytes 12))
      × (contains sizes (u16_at i.data_bytes 12) ≡ true)
      × (accepts keys (sub i.data_bytes (u16_at i.data_bytes 6) 32) now ≡ true)
      × (length m ≡ u16_at i.data_bytes 12)
unfolding load_preceding_ed25519_receipt
load_preceding_ed25519_receipt_lem v keys sizes now {m} e = elim (Result-cases (preceding v)) [
  | inr (x, q) ↦ ground arith
  | inl (i, q) ↦ elim (Result-cases (check_header i.data_bytes)) [
    | inr (x, c) ↦ ground arith
    | inl (u, c) ↦
        let inline = check_header_lem i.data_bytes c in
        let parsed : parse i.data_bytes sizes keys now ≡ ok m = ground arith in
        let f = parse_lem i.data_bytes sizes keys now inline.0 parsed in
        (
          ground arith,
          i,
          (preceding_lem v q).0,
          (preceding_lem v q).1,
          ground (arith, bytes_eq_iff i.program_id ed25519_program_id),
          inline,
          f.0,
          f.3,
          f.4,
          ground (
            arith,
            f.0,
            length-sub i.data_bytes (u16_at i.data_bytes 10) (u16_at i.data_bytes 12) f.1,
          ),
        )
  ]
]
