-- ===== src/Receipt/Tests.antt =====
-- A transaction with a version 2 receipt in front of a mint.
use protocol_core.Base.{
  ◌-◌, ◌≤◌, ◌≡◌, ◌≢◌, ◌↔◌, ◌⊎◌, refl, inl, true, none, some, [], ◌∷◌, ◌++◌, arith, replicate, ok,
  err, panic, length, get_elem?,
}
use protocol_core.Base.Int.{pos, saturating_sub, as_i64, ◌+ℤ◌, ◌≤ℤ◌}
use protocol_core.Base.Words.{Bytes, from_le_bytes, i64_from_le_bytes}
use protocol_core.Base.Bytes.{bytes_eq, sub, nth, zeros, resize}
use protocol_core.Base.Concat.{concat}
use protocol_core.Chain.Sample.{key}
use protocol_core.Registry.Config.{view, config_len}
use protocol_core.Receipt.Policy.{
  ValidatorKeyPolicy, accepts, is_configured, read_u16, read_validator_key_policy,
  read_projection_policy,
}
use protocol_core.Receipt.Policy.Laws.{
  accepts_iff, keys_of, policy_of, read_validator_key_policy_lem, read_projection_policy_lem,
}
use protocol_core.Receipt.Instruction.{
  Instruction, Sysvar, ed25519_program_id, contains, check_header, parse, preceding,
  load_preceding_ed25519_receipt,
}
use protocol_core.Receipt.Instruction.Laws.{load_preceding_ed25519_receipt_lem, IsInline, u16_at}
use protocol_core.Receipt.Payload.{
  mint, purpose_byte, receipt_domain, Fields, parse_v2_v3, parse_message, verify_receipt_payload,
  verify_validator_receipt,
}
use protocol_core.Receipt.Payload.Laws.{
  IsReceipt, verify_receipt_payload_lem, verify_validator_receipt_safe,
}
use protocol_core.Receipt.Digest.{build_update_receipt_v4_preimage, is_zero_digest}
use protocol_core.Receipt.Digest.Laws.{Update, IsUpdate, preimage_of, parts_of, preimage_injective}

-- The validator key is key 11; key 12 was its predecessor until the time 5000.
abbrev keys : ValidatorKeyPolicy
keys = record { primary = key 11; secondary = key 12; secondary_valid_until = pos 5000 }

accepts_iff_test : (accepts keys (key 12) (pos 4000) ≡ true) ↔ (
    (key 12 ≡ keys.primary)
    ⊎ ((keys.secondary ≢ zeros 32)
        × (pos 4000 ≤ℤ keys.secondary_valid_until)
        × (key 12 ≡ keys.secondary)))
accepts_iff_test = accepts_iff keys (key 12) (pos 4000)

-- A legacy account of 77 bytes.
abbrev legacy : Bytes
legacy = replicate 77 1

read_validator_key_policy_lem_example :
    read_validator_key_policy legacy ≡ ok (keys_of (view (resize legacy config_len)))
read_validator_key_policy_lem_example =
    read_validator_key_policy_lem legacy
      ((omega arith, inl (omega arith), inl (omega arith)), inl (omega arith))

legacy_window :
    (policy_of (view (resize legacy config_len))).minimum
    ≤ (policy_of (view (resize legacy config_len))).current
unfolding view resize from_le_bytes sub
legacy_window = omega arith

read_projection_policy_lem_example :
    read_projection_policy legacy ≡ ok (policy_of (view (resize legacy config_len)))
read_projection_policy_lem_example =
    read_projection_policy_lem legacy (omega arith, inl (omega arith), inl (omega arith))
      legacy_window

-- The receipt of a mint in projection space 3, for the wallet key 1 and the commitment key 5.
abbrev message : Bytes
message =
    receipt_domain 50
    ++ (1 ∷ 3 ∷ 0 ∷ [])
    ++ key 1
    ++ key 5
    ++ (232 ∷ 3 ∷ 0 ∷ 0 ∷ 0 ∷ 0 ∷ 0 ∷ 0 ∷ [])

-- The header: one signature at 48, the key at 16, the message at 112, all in this instruction.
abbrev signed : Instruction
signed = record {
  program_id = ed25519_program_id;
  data_bytes =
      (1 ∷ 0 ∷ 48 ∷ 0 ∷ 255 ∷ 255 ∷ 16 ∷ 0 ∷ 255 ∷ 255 ∷ 112 ∷ 0 ∷ 103 ∷ 0 ∷ 255 ∷ 255 ∷ [])
      ++ key 11
      ++ zeros 64
      ++ message;
}

abbrev transaction : Sysvar
transaction = record { instructions = signed ∷ []; current_index = 1 }

loads :
    load_preceding_ed25519_receipt transaction keys (72 ∷ 103 ∷ 136 ∷ []) (pos 1100) ≡ ok message
unfolding load_preceding_ed25519_receipt is_configured bytes_eq preceding check_header read_u16 nth
    from_le_bytes parse contains sub accepts
loads = refl

load_preceding_ed25519_receipt_lem_example :
    (is_configured keys ≡ true)
    × (i : Instruction) × (transaction.current_index ≢ 0)
    × (get_elem? transaction.instructions (transaction.current_index - 1) ≡ some i)
    × (i.program_id ≡ ed25519_program_id)
    × IsInline i.data_bytes
    × (message ≡ sub i.data_bytes (u16_at i.data_bytes 10) (u16_at i.data_bytes 12))
    × (contains (72 ∷ 103 ∷ 136 ∷ []) (u16_at i.data_bytes 12) ≡ true)
    × (accepts keys (sub i.data_bytes (u16_at i.data_bytes 6) 32) (pos 1100) ≡ true)
    × (length message ≡ u16_at i.data_bytes 12)
load_preceding_ed25519_receipt_lem_example =
    load_preceding_ed25519_receipt_lem transaction keys (72 ∷ 103 ∷ 136 ∷ []) (pos 1100) loads

accepted : verify_receipt_payload message (key 1) (key 5) mint 3 (pos 1100) ≡ ok none
unfolding verify_receipt_payload parse_message parse_v2_v3 purpose_byte read_u16 sub nth bytes_eq
    from_le_bytes i64_from_le_bytes as_i64 saturating_sub
accepted = refl

verify_receipt_payload_lem_example :
    (f : Fields) × IsReceipt message mint 3 f
    × (f.wallet ≡ key 1)
    × (f.commitment ≡ key 5)
    × (f.validated_at ≤ℤ pos 1100)
    × (pos 1100 ≤ℤ f.validated_at +ℤ pos 300)
    × (f.session ≡ none)
verify_receipt_payload_lem_example =
    verify_receipt_payload_lem message (key 1) (key 5) mint 3 (pos 1100) accepted

verify_validator_receipt_safe_example :
    verify_validator_receipt transaction keys (key 1) (key 5) mint 3 (pos 1100) ≢ err panic
verify_validator_receipt_safe_example =
    verify_validator_receipt_safe transaction keys (key 1) (key 5) mint 3 (pos 1100)

-- An update with a session of tier 2.
abbrev update : Update
update = record {
  wallet = key 1;
  commitment_new = key 5;
  projection_version = 3;
  receipt = record {
    validated_at = pos 1000;
    assurance_tier = 2;
    session_final_digest = some (key 77);
  };
}

update-IsUpdate : IsUpdate update
update-IsUpdate = record {
  wallet_size = refl;
  commitment_size = refl;
  version_u16 = omega arith;
  validated_at_i64 = omega arith;
  digest_size = refl;
}

builds : preimage_of update ≡ ok (concat (parts_of update))
unfolding build_update_receipt_v4_preimage is_zero_digest bytes_eq
builds = refl

preimage_injective_example : update ≡ update
preimage_injective_example =
    preimage_injective update update (concat (parts_of update)) update-IsUpdate update-IsUpdate
      builds builds
