-- ===== src/Receipt/Digest/Laws.antt =====
-- One preimage of an update's receipt has one meaning.
use protocol_core.Base.{
  ℕ, ◌<◌, ◌^◌, ◌≡◌, refl, sym, ◌∙◌, false, Option, none, some, List, [], ◌∷◌, length, arith,
  if◌then◌else◌, Result, ok,
}
use protocol_core.Base.Int.{IsI64}
use protocol_core.Base.Words.{
  Bytes, to_le_bytes, from_le_bytes, from_le_bytes-to_le_bytes, length-to_le_bytes, i64_to_le_bytes,
  i64_from_le_bytes, i64_round_trip, length-i64_to_le_bytes,
}
use protocol_core.Base.Bytes.{bytes_eq, sub, zeros}
use protocol_core.Base.Concat.{concat, elem, offset, sub-concat}
use protocol_core.Chain.{Pubkey}
use protocol_core.Receipt.Digest.{
  UpdateReceiptArgs, digest_bytes, is_zero_digest, preimage_parts, build_update_receipt_v4_preimage,
}

-- An update: the wallet, the commitment, the projection version and the receipt's arguments.
pub record Update : Type 0 where
  pub wallet : Pubkey
  pub commitment_new : Bytes
  pub projection_version : ℕ
  pub receipt : UpdateReceiptArgs

-- The Rust types' sizes and ranges.
pub record IsUpdate (u : Update) : Type 0 where
  pub wallet_size : length u.wallet ≡ 32
  pub commitment_size : length u.commitment_new ≡ 32
  pub version_u16 : u.projection_version < 256 ^ 2
  pub validated_at_i64 : IsI64 u.receipt.validated_at
  pub digest_size : length (digest_bytes u.receipt.session_final_digest) ≡ 32

abbrev pub preimage_of : Update → Result Bytes
preimage_of u =
    build_update_receipt_v4_preimage u.wallet u.commitment_new u.projection_version u.receipt

abbrev pub parts_of : Update → List Bytes
parts_of u = preimage_parts u.wallet u.commitment_new u.projection_version u.receipt

-- The reader of a preimage: a digest of zeros means that there is no session.
unfoldable pub digest_of : Bytes → Option Bytes
digest_of bs = if bytes_eq bs (zeros 32) then none else some bs

unfoldable pub read_update : Bytes → Update
unfolding digest_of
read_update d =
    let receipt : UpdateReceiptArgs = record {
      validated_at = i64_from_le_bytes (sub d 95 8);
      assurance_tier = first (sub d 135 1);
      session_final_digest = digest_of (sub d 103 32);
    } in
    record {
      wallet = sub d 31 32;
      commitment_new = sub d 63 32;
      projection_version = from_le_bytes (sub d 29 2);
      receipt = receipt;
    }
  where
    first : Bytes → ℕ
    first [] = 0
    first (b ∷ bs) = b

digest_of_lem : (o : Option Bytes) → is_zero_digest o ≡ false → digest_of (digest_bytes o) ≡ o
unfolding digest_of is_zero_digest bytes_eq
digest_of_lem none h = refl
digest_of_lem (some digest) h = ground arith

module _ (u : Update) (v : IsUpdate u) where
  at :
      (k i n : ℕ)
      → offset (parts_of u) k ≡ i
      → length (elem (parts_of u) k) ≡ n
      → k < 8
      → sub (concat (parts_of u)) i n ≡ elem (parts_of u) k
  at k i n e h l = sub-concat (parts_of u) k i n e h (omega arith)

  version_at : sub (concat (parts_of u)) 29 2 ≡ to_le_bytes 2 u.projection_version
  unfolding elem offset
  version_at =
      at 2 29 2 (omega (arith, length-to_le_bytes)) (omega (arith, length-to_le_bytes))
        (omega arith)

  wallet_at : sub (concat (parts_of u)) 31 32 ≡ u.wallet
  unfolding elem offset
  wallet_at = at 3 31 32 (omega (arith, length-to_le_bytes)) (omega arith) (omega arith)

  commitment_at : sub (concat (parts_of u)) 63 32 ≡ u.commitment_new
  unfolding elem offset
  commitment_at = at 4 63 32 (omega (arith, length-to_le_bytes)) (omega arith) (omega arith)

  validated_at : sub (concat (parts_of u)) 95 8 ≡ i64_to_le_bytes u.receipt.validated_at
  unfolding elem offset
  validated_at =
      at 5 95 8 (omega (arith, length-to_le_bytes)) (omega (arith, length-i64_to_le_bytes))
        (omega arith)

  digest_at : sub (concat (parts_of u)) 103 32 ≡ digest_bytes u.receipt.session_final_digest
  unfolding elem offset
  digest_at =
      at 6 103 32 (omega (arith, length-to_le_bytes, length-i64_to_le_bytes)) v.digest_size
        (omega arith)

  tier_at : sub (concat (parts_of u)) 135 1 ≡ u.receipt.assurance_tier ∷ []
  unfolding elem offset
  tier_at =
      at 7 135 1 (omega (arith, length-to_le_bytes, length-i64_to_le_bytes, v.digest_size)) refl
        (omega arith)

  -- Of a preimage that is built at all, everything that the update says can be read back.
  pub read-preimage : (bs : Bytes) → preimage_of u ≡ ok bs → read_update bs ≡ u
  unfolding build_update_receipt_v4_preimage read_update
  read-preimage bs e = ground (
    arith,
    version_at,
    from_le_bytes-to_le_bytes 2 u.projection_version v.version_u16,
    wallet_at,
    commitment_at,
    validated_at,
    i64_round_trip u.receipt.validated_at v.validated_at_i64,
    digest_at,
    digest_of_lem u.receipt.session_final_digest,
    tier_at,
  )

-- Two updates with the same preimage are the same update: the wallet, the commitment, the projection
-- version, the time, the tier, and the session or its absence.
pub preimage_injective :
    (u u' : Update) (bs : Bytes)
    → IsUpdate u
    → IsUpdate u'
    → preimage_of u ≡ ok bs
    → preimage_of u' ≡ ok bs
    → u ≡ u'
preimage_injective u u' bs v v' e e' = sym (read-preimage u v bs e) ∙ read-preimage u' v' bs e'
