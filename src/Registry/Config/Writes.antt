-- ===== src/Registry/Config/Writes.antt =====
-- The raw writes of the handlers, as updates of the fields: each offset is its field's own.
use protocol_core.Base.{ℕ, ◌<◌, ◌^◌, ◌≡◌, length, arith}
use protocol_core.Base.Int.{ℤ, IsI64}
use protocol_core.Base.Words.{
  Bytes, to_le_bytes, i64_to_le_bytes, i64_round_trip, from_le_bytes-to_le_bytes,
  length-to_le_bytes, length-i64_to_le_bytes,
}
use protocol_core.Base.Bytes.{put, sub-put_self, sub-put_below, sub-put_above}
use protocol_core.Registry.Config.Fields.{view, config_len}

-- What a write at each offset does to the fields.
module _ (d : Bytes) (size : length d ≡ config_len) where
  pub view-put_admin :
      (k : Bytes) → length k ≡ 32 → view (put d 8 k) ≡ record (view d) { admin = k }
  unfolding view
  view-put_admin k h = grind (arith, sub-put_self, sub-put_below, sub-put_above)

  pub view-put_validator :
      (k : Bytes) → length k ≡ 32 → view (put d 77 k) ≡ record (view d) { validator_pubkey = k }
  unfolding view
  view-put_validator k h = grind (arith, sub-put_self, sub-put_below, sub-put_above)

  pub view-put_pending :
      (k : Bytes) → length k ≡ 32 → view (put d 113 k) ≡ record (view d) { pending_authority = k }
  unfolding view
  view-put_pending k h = grind (arith, sub-put_self, sub-put_below, sub-put_above)

  pub view-put_secondary :
      (k : Bytes)
      → length k ≡ 32
      → view (put d 145 k) ≡ record (view d) { secondary_validator_pubkey = k }
  unfolding view
  view-put_secondary k h = grind (arith, sub-put_self, sub-put_below, sub-put_above)

  pub view-put_current :
      (v : ℕ)
      → v < 256 ^ 2
      → view (put d 109 (to_le_bytes 2 v)) ≡ record (view d) { current_projection_version = v }
  unfolding view
  view-put_current v h =
      let n = length-to_le_bytes 2 v in
      let back = from_le_bytes-to_le_bytes 2 v h in
      grind (arith, sub-put_self, sub-put_below, sub-put_above)

  pub view-put_minimum :
      (v : ℕ)
      → v < 256 ^ 2
      → view (put d 111 (to_le_bytes 2 v))
        ≡ record (view d) { minimum_supported_projection_version = v }
  unfolding view
  view-put_minimum v h =
      let n = length-to_le_bytes 2 v in
      let back = from_le_bytes-to_le_bytes 2 v h in
      grind (arith, sub-put_self, sub-put_below, sub-put_above)

  pub view-put_valid_until :
      (z : ℤ)
      → IsI64 z
      → view (put d 177 (i64_to_le_bytes z))
        ≡ record (view d) { secondary_validator_valid_until = z }
  unfolding view
  view-put_valid_until z h =
      let n = length-i64_to_le_bytes z in
      let back = i64_round_trip z h in grind (arith, sub-put_self, sub-put_below, sub-put_above)
