-- ===== src/Update/Layout/Laws.antt =====
-- The identity's bytes can be read back, and each field stands where the readers of raw bytes look.
use protocol_core.Base.{
  ℕ, zero, suc, ◌<◌, ◌^◌, ◌*◌, ◌≡◌, refl, ap, List, [], ◌∷◌, ◌++◌, some, length, drop, arith,
  length-append,
}
use protocol_core.Base.Int.{ℤ, IsI64}
use protocol_core.Base.Words.{
  Bytes, to_le_bytes, i64_to_le_bytes, i64_round_trip, from_le_bytes-to_le_bytes,
  length-to_le_bytes, length-i64_to_le_bytes,
}
use protocol_core.Base.Bytes.{bytes_eq_iff, sub, nth, put, sub-append_head}
use protocol_core.Base.Concat.{concat, elem, offset, sub-concat}
use protocol_core.Update.State.{IdentityState, identity_len}
use protocol_core.Update.Layout.{
  ring_bytes, read_ring, identity_parts, serialize_identity, view_identity, deserialize_identity,
}

abbrev pub AreI64 : List ℤ → Type 0
AreI64 [] = Unit
AreI64 (t ∷ ts) = IsI64 t × AreI64 ts

-- The ranges of the Rust types.
pub record IsIdentity (i : IdentityState) : Type 0 where
  pub owner_size : length i.owner ≡ 32
  pub creation_i64 : IsI64 i.creation_timestamp
  pub last_i64 : IsI64 i.last_verification_timestamp
  pub count_u32 : i.verification_count < 256 ^ 4
  pub score_u16 : i.trust_score < 256 ^ 2
  pub commitment_size : length i.current_commitment ≡ 32
  pub mint_size : length i.mint ≡ 32
  pub ring_size : length i.recent_timestamps ≡ 52
  pub ring_i64 : AreI64 i.recent_timestamps
  pub reset_i64 : IsI64 i.last_reset_timestamp
  pub wallet_size : length i.new_wallet ≡ 32
  pub version_u16 : i.projection_version < 256 ^ 2
  pub rebaseline_i64 : IsI64 i.last_rebaseline_timestamp

drop-append : (a b : Bytes) (n : ℕ) → length a ≡ n → drop n (a ++ b) ≡ b
drop-append [] b zero e = refl
drop-append [] b (suc n) e = absurd (omega arith)
drop-append (x ∷ a) b zero e = absurd (omega arith)
drop-append (x ∷ a) b (suc n) e = drop-append a b n (omega arith)

read_ring-ring_bytes : (ts : List ℤ) → AreI64 ts → read_ring (length ts) (ring_bytes ts) ≡ ts
unfolding read_ring ring_bytes concat
read_ring-ring_bytes [] h = refl
read_ring-ring_bytes (t ∷ ts) h =
    let eight = length-i64_to_le_bytes t in
    rw (sub-append_head (i64_to_le_bytes t) (ring_bytes ts) 8 eight) (
      rw (drop-append (i64_to_le_bytes t) (ring_bytes ts) 8 eight)
        (rw (i64_round_trip t h.0) (ap (◌∷◌ t) (read_ring-ring_bytes ts h.1))))

length-ring_bytes : (ts : List ℤ) → length (ring_bytes ts) ≡ 8 * length ts
unfolding ring_bytes concat
length-ring_bytes [] = refl
length-ring_bytes (t ∷ ts) =
    omega (arith, length-append {0}, length-i64_to_le_bytes, length-ring_bytes ts)

put_whole : (d bs : Bytes) → length bs ≡ length d → put d 0 bs ≡ bs
unfolding put
put_whole [] [] e = refl
put_whole [] (b ∷ bs) e = absurd (omega arith)
put_whole (x ∷ d) [] e = absurd (omega arith)
put_whole (x ∷ d) (b ∷ bs) e = ap (◌∷◌ b) (put_whole d bs (omega arith))

nth-sub : (d : Bytes) (i b : ℕ) → sub d i 1 ≡ b ∷ [] → nth d i ≡ b
unfolding sub nth
nth-sub [] zero b h = ground arith
nth-sub [] (suc i) b h = ground arith
nth-sub (x ∷ d) zero b h = ground arith
nth-sub (x ∷ d) (suc i) b h = nth-sub d i b h

module _ (discriminator : Bytes) (i : IdentityState) (tag : length discriminator ≡ 8)
    (v : IsIdentity i) where
  part :
      (k o n : ℕ)
      → offset (identity_parts discriminator i) k ≡ o
      → length (elem (identity_parts discriminator i) k) ≡ n
      → k < 14
      → sub (serialize_identity discriminator i) o n ≡ elem (identity_parts discriminator i) k
  unfolding serialize_identity identity_parts
  part k o n e h l = sub-concat (identity_parts discriminator i) k o n e h (omega arith)

  pub tag_at : sub (serialize_identity discriminator i) 0 8 ≡ discriminator
  unfolding elem offset identity_parts
  tag_at = part 0 0 8 refl tag (omega arith)

  pub owner_at : sub (serialize_identity discriminator i) 8 32 ≡ i.owner
  unfolding elem offset identity_parts
  owner_at = part 1 8 32 (omega arith) v.owner_size (omega arith)

  creation_at : sub (serialize_identity discriminator i) 40 8 ≡ i64_to_le_bytes i.creation_timestamp
  unfolding elem offset identity_parts
  creation_at =
      part 2 40 8 (omega arith) (length-i64_to_le_bytes i.creation_timestamp) (omega arith)

  last_at :
      sub (serialize_identity discriminator i) 48 8 ≡ i64_to_le_bytes i.last_verification_timestamp
  unfolding elem offset identity_parts
  last_at =
      part 3 48 8 (omega (arith, length-i64_to_le_bytes))
        (length-i64_to_le_bytes i.last_verification_timestamp) (omega arith)

  count_at : sub (serialize_identity discriminator i) 56 4 ≡ to_le_bytes 4 i.verification_count
  unfolding elem offset identity_parts
  count_at =
      part 4 56 4 (omega (arith, length-i64_to_le_bytes))
        (length-to_le_bytes 4 i.verification_count) (omega arith)

  score_at : sub (serialize_identity discriminator i) 60 2 ≡ to_le_bytes 2 i.trust_score
  unfolding elem offset identity_parts
  score_at =
      part 5 60 2 (omega (arith, length-i64_to_le_bytes, length-to_le_bytes))
        (length-to_le_bytes 2 i.trust_score) (omega arith)

  pub commitment_at : sub (serialize_identity discriminator i) 62 32 ≡ i.current_commitment
  unfolding elem offset identity_parts
  commitment_at =
      part 6 62 32 (omega (arith, length-i64_to_le_bytes, length-to_le_bytes)) v.commitment_size
        (omega arith)

  pub mint_at : sub (serialize_identity discriminator i) 94 32 ≡ i.mint
  unfolding elem offset identity_parts
  mint_at =
      part 7 94 32 (omega (arith, v.commitment_size, length-i64_to_le_bytes, length-to_le_bytes))
        v.mint_size (omega arith)

  pub bump_at : nth (serialize_identity discriminator i) 126 ≡ i.bump
  unfolding elem offset identity_parts
  bump_at = nth-sub (serialize_identity discriminator i) 126 i.bump (
      part 8 126 1
        (omega (arith, v.commitment_size, v.mint_size, length-i64_to_le_bytes, length-to_le_bytes))
        refl (omega arith))

  ring_at : sub (serialize_identity discriminator i) 127 416 ≡ ring_bytes i.recent_timestamps
  unfolding elem offset identity_parts
  ring_at =
      part 9 127 416
        (omega (arith, v.commitment_size, v.mint_size, length-i64_to_le_bytes, length-to_le_bytes))
        (omega (arith, length-ring_bytes i.recent_timestamps, v.ring_size)) (omega arith)

  -- The sizes of what stands before the last four fields.
  ruleset sizes = (arith, length-i64_to_le_bytes, length-to_le_bytes, length-ring_bytes)

  reset_at : sub (serialize_identity discriminator i) 543 8 ≡ i64_to_le_bytes i.last_reset_timestamp
  unfolding elem offset identity_parts
  reset_at =
      part 10 543 8 (omega (sizes, v.commitment_size, v.mint_size, v.ring_size))
        (length-i64_to_le_bytes i.last_reset_timestamp) (omega arith)

  wallet_at : sub (serialize_identity discriminator i) 551 32 ≡ i.new_wallet
  unfolding elem offset identity_parts
  wallet_at =
      part 11 551 32 (omega (sizes, v.commitment_size, v.mint_size, v.ring_size)) v.wallet_size
        (omega arith)

  pub version_at :
      sub (serialize_identity discriminator i) 583 2 ≡ to_le_bytes 2 i.projection_version
  unfolding elem offset identity_parts
  version_at =
      part 12 583 2 (omega (sizes, v.commitment_size, v.mint_size, v.ring_size, v.wallet_size))
        (length-to_le_bytes 2 i.projection_version) (omega arith)

  rebaseline_at :
      sub (serialize_identity discriminator i) 585 8 ≡ i64_to_le_bytes i.last_rebaseline_timestamp
  unfolding elem offset identity_parts
  rebaseline_at =
      part 13 585 8 (omega (sizes, v.commitment_size, v.mint_size, v.ring_size, v.wallet_size))
        (length-i64_to_le_bytes i.last_rebaseline_timestamp) (omega arith)

  pub length-serialize_identity : length (serialize_identity discriminator i) ≡ identity_len
  unfolding serialize_identity identity_parts concat
  length-serialize_identity =
      omega (sizes, length-append {0}, v.commitment_size, v.mint_size, v.ring_size, v.wallet_size)

  view_identity_lem : view_identity (serialize_identity discriminator i) ≡ i
  unfolding view_identity
  view_identity_lem = ground (
    arith,
    owner_at,
    creation_at,
    i64_round_trip i.creation_timestamp v.creation_i64,
    last_at,
    i64_round_trip i.last_verification_timestamp v.last_i64,
    count_at,
    from_le_bytes-to_le_bytes 4 i.verification_count v.count_u32,
    score_at,
    from_le_bytes-to_le_bytes 2 i.trust_score v.score_u16,
    commitment_at,
    mint_at,
    bump_at,
    ring_at,
    v.ring_size,
    read_ring-ring_bytes i.recent_timestamps v.ring_i64,
    reset_at,
    i64_round_trip i.last_reset_timestamp v.reset_i64,
    wallet_at,
    version_at,
    from_le_bytes-to_le_bytes 2 i.projection_version v.version_u16,
    rebaseline_at,
    i64_round_trip i.last_rebaseline_timestamp v.rebaseline_i64,
  )

  -- An identity with fields in range that is written over an account of the full length is read
  -- back as it was.
  pub deserialize-serialize_identity :
      (d : Bytes)
      → length d ≡ identity_len
      → deserialize_identity discriminator (put d 0 (serialize_identity discriminator i)) ≡ some i
  unfolding deserialize_identity
  deserialize-serialize_identity d e =
      rw
        (put_whole d (serialize_identity discriminator i)
          (omega (arith, length-serialize_identity)))
        (ground (
          arith,
          tag_at,
          length-serialize_identity,
          bytes_eq_iff (sub (serialize_identity discriminator i) 0 8) discriminator,
          view_identity_lem,
        ))
