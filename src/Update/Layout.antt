-- ===== src/Update/Layout.antt =====
-- programs/entros-anchor/src/state.rs: the bytes of `IdentityState`, its fields in order behind the
-- discriminator, as the derived codec writes and reads them.
pub mod Laws
pub mod Codec
use protocol_core.Base.{
  ℕ, zero, suc, Bool, true, false, ◌&&◌, Option, none, some, List, [], ◌∷◌, length, drop, leb,
  if◌then◌else◌, map,
}
use protocol_core.Base.Int.{ℤ}
use protocol_core.Base.Words.{Bytes, to_le_bytes, from_le_bytes, i64_to_le_bytes, i64_from_le_bytes}
use protocol_core.Base.Bytes.{bytes_eq, sub, nth}
use protocol_core.Base.Concat.{concat}
use protocol_core.Update.State.{IdentityState, identity_len}

-- `[i64; 52]`
unfoldable pub ring_bytes : List ℤ → Bytes
ring_bytes ring = concat (map i64_to_le_bytes ring)

unfoldable pub read_ring : ℕ → Bytes → List ℤ
read_ring zero d = []
read_ring (suc n) d = i64_from_le_bytes (sub d 0 8) ∷ read_ring n (drop 8 d)

unfoldable pub identity_parts : Bytes → IdentityState → List Bytes
identity_parts discriminator i =
    discriminator
    ∷ i.owner
    ∷ i64_to_le_bytes i.creation_timestamp
    ∷ i64_to_le_bytes i.last_verification_timestamp
    ∷ to_le_bytes 4 i.verification_count
    ∷ to_le_bytes 2 i.trust_score
    ∷ i.current_commitment
    ∷ i.mint
    ∷ (i.bump ∷ [])
    ∷ ring_bytes i.recent_timestamps
    ∷ i64_to_le_bytes i.last_reset_timestamp
    ∷ i.new_wallet
    ∷ to_le_bytes 2 i.projection_version
    ∷ i64_to_le_bytes i.last_rebaseline_timestamp
    ∷ []

unfoldable pub serialize_identity : Bytes → IdentityState → Bytes
unfolding identity_parts
serialize_identity discriminator i = concat (identity_parts discriminator i)

unfoldable pub view_identity : Bytes → IdentityState
view_identity d = record {
  owner = sub d 8 32;
  creation_timestamp = i64_from_le_bytes (sub d 40 8);
  last_verification_timestamp = i64_from_le_bytes (sub d 48 8);
  verification_count = from_le_bytes (sub d 56 4);
  trust_score = from_le_bytes (sub d 60 2);
  current_commitment = sub d 62 32;
  mint = sub d 94 32;
  bump = nth d 126;
  recent_timestamps = read_ring 52 (sub d 127 416);
  last_reset_timestamp = i64_from_le_bytes (sub d 543 8);
  new_wallet = sub d 551 32;
  projection_version = from_le_bytes (sub d 583 2);
  last_rebaseline_timestamp = i64_from_le_bytes (sub d 585 8);
}

-- Another account type, or an account that is too short, is refused; bytes behind are ignored.
unfoldable pub deserialize_identity : Bytes → Bytes → Option IdentityState
unfolding view_identity
deserialize_identity discriminator d =
    if leb identity_len (length d) && bytes_eq (sub d 0 8) discriminator
    then some (view_identity d)
    else none
