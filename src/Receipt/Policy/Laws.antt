-- ===== src/Receipt/Policy/Laws.antt =====
-- The anchor's readers and the registry's configuration agree.
use native.Mathlib.Nat.{suc-add}
use protocol_core.Base.{
  ℕ, zero, suc, ◌+◌, ◌≤◌, ◌≡◌, ◌≢◌, refl, ◌↔◌, ◌⊎◌, true, [], ◌∷◌, length, arith, ok,
}
use protocol_core.Base.Int.{ℤ, pos, ◌≤ℤ◌, as_i64}
use protocol_core.Base.Words.{Bytes, from_le_bytes, i64_from_le_bytes, from_le_bytes-zeros}
use protocol_core.Base.Bytes.{bytes_eq_iff, sub, nth, zeros, resize, sub-resize, sub-resize-zeros}
use protocol_core.Registry.Config.{ProtocolConfig, view, config_len}
use protocol_core.Registry.State.{IsLayout}
use protocol_core.Receipt.Policy.{
  ValidatorKeyPolicy, accepts, read_validator_key_policy, ProjectionPolicy, read_u16, stored_policy,
  read_projection_policy,
}

-- A key is accepted exactly if it is the primary one, or a secondary one that is set and whose time
-- has not run out.
pub accepts_iff :
    (p : ValidatorKeyPolicy) (key : Bytes) (now : ℤ)
    → (accepts p key now ≡ true) ↔ (
        (key ≡ p.primary)
        ⊎ ((p.secondary ≢ zeros 32) × (now ≤ℤ p.secondary_valid_until) × (key ≡ p.secondary)))
unfolding accepts
accepts_iff p key now = ground (
  arith,
  bytes_eq_iff key p.primary,
  bytes_eq_iff key p.secondary,
  bytes_eq_iff p.secondary (zeros 32),
)

-- The layouts without and with the rollover fields.
abbrev pub IsKnown : Bytes → Type 0
IsKnown d = IsLayout d × ((length d ≤ 113) ⊎ (length d ≡ config_len))

abbrev pub keys_of : ProtocolConfig → ValidatorKeyPolicy
keys_of c = record {
  primary = c.validator_pubkey;
  secondary = c.secondary_validator_pubkey;
  secondary_valid_until = c.secondary_validator_valid_until;
}

zero_i64 : i64_from_le_bytes (zeros 8) ≡ pos 0
unfolding i64_from_le_bytes from_le_bytes as_i64
zero_i64 = refl

-- On every layout that the registry writes, the anchor reads the key fields of the registry's
-- configuration, where a field that the layout lacks is zero.
pub read_validator_key_policy_lem :
    (d : Bytes)
    → IsKnown d
    → read_validator_key_policy d ≡ ok (keys_of (view (resize d config_len)))
unfolding read_validator_key_policy view
read_validator_key_policy_lem d h = ground (
  arith,
  sub-resize d config_len 77 32,
  sub-resize-zeros d config_len 77 32,
  sub-resize d config_len 145 32,
  sub-resize-zeros d config_len 145 32,
  sub-resize d config_len 177 8,
  sub-resize-zeros d config_len 177 8,
  zero_i64,
)

two_bytes : (d : Bytes) (i : ℕ) → i + 2 ≤ length d → sub d i 2 ≡ nth d i ∷ nth d (i + 1) ∷ []
unfolding sub nth
two_bytes [] i h = absurd (omega arith)
two_bytes (x ∷ []) i h = absurd (omega arith)
two_bytes (x ∷ y ∷ d) zero h = refl
two_bytes (x ∷ y ∷ d) (suc i) h = rw suc-add (two_bytes (y ∷ d) i (omega arith))

pub read_u16_lem :
    (d : Bytes) (i : ℕ) → i + 2 ≤ length d → read_u16 d i ≡ ok (from_le_bytes (sub d i 2))
unfolding read_u16
read_u16_lem d i h = ground (arith, two_bytes d i h)

abbrev pub policy_of : ProtocolConfig → ProjectionPolicy
policy_of c = record {
  current = c.current_projection_version;
  minimum = c.minimum_supported_projection_version;
}

stored_policy_lem :
    (d : Bytes) → IsLayout d → stored_policy d ≡ ok (policy_of (view (resize d config_len)))
unfolding stored_policy view
stored_policy_lem d h = ground (
  arith,
  sub-resize d config_len 109 2,
  sub-resize-zeros d config_len 109 2,
  sub-resize d config_len 111 2,
  sub-resize-zeros d config_len 111 2,
  read_u16_lem d 109,
  read_u16_lem d 111,
  from_le_bytes-zeros 2,
)

-- The anchor reads the registry's projection versions, on every layout, and refuses them only if
-- the minimum exceeds the current one.
pub read_projection_policy_lem :
    (d : Bytes)
    → IsLayout d
    → (policy_of (view (resize d config_len))).minimum
      ≤ (policy_of (view (resize d config_len))).current
    → read_projection_policy d ≡ ok (policy_of (view (resize d config_len)))
unfolding read_projection_policy
read_projection_policy_lem d h k = ground (arith, stored_policy_lem d h)
