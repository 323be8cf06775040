-- ===== src/Request/Laws.antt =====
-- The encoding of an action is a faithful record of it: its fields can be read back.
use protocol_core.Base.{ℕ, ◌<◌, ◌^◌, ◌≡◌, sym, ◌∙◌, some, length, arith}
use protocol_core.Base.Words.{
  Bytes, to_be_bytes, from_be_bytes, from_be_bytes-to_be_bytes, length-to_be_bytes,
}
use protocol_core.Base.Bytes.{sub}
use protocol_core.Base.Concat.{concat, elem, offset, sub-concat}
use protocol_core.Request.{Action, action_parts, encode}

-- The Rust types' sizes and ranges.
pub record IsAction (a : Action) : Type 0 where
  pub identity_size : length a.identity ≡ 32
  pub mint_size : length a.mint ≡ 32
  pub counter_u64 : a.counter < 256 ^ 8
  pub projection_u16 : a.projection < 256 ^ 2
  pub new_size : length a.commitment_new ≡ 32
  pub prev_size : length a.commitment_prev ≡ 32
  pub threshold_u16 : a.threshold < 256 ^ 2
  pub min_distance_u16 : a.min_distance < 256 ^ 2
  pub valid_until_u64 : a.valid_until < 256 ^ 8

-- The reader that a consumer of the encoding has.
unfoldable pub decode : Bytes → Action
decode d = record {
  identity = sub d 32 32;
  mint = sub d 64 32;
  counter = from_be_bytes (sub d 96 8);
  projection = from_be_bytes (sub d 104 2);
  commitment_new = sub d 106 32;
  commitment_prev = sub d 138 32;
  threshold = from_be_bytes (sub d 170 2);
  min_distance = from_be_bytes (sub d 172 2);
  valid_until = from_be_bytes (sub d 174 8);
}

module _ (a : Action) (v : IsAction a) where
  at :
      (k i n : ℕ)
      → offset (action_parts a) k ≡ i
      → length (elem (action_parts a) k) ≡ n
      → k < 10
      → sub (concat (action_parts a)) i n ≡ elem (action_parts a) k
  at k i n e h l = sub-concat (action_parts a) k i n e h (omega arith)

  identity_at : sub (concat (action_parts a)) 32 32 ≡ a.identity
  unfolding elem offset
  identity_at = at 1 32 32 (omega (arith, length-to_be_bytes)) (omega arith) (omega arith)

  mint_at : sub (concat (action_parts a)) 64 32 ≡ a.mint
  unfolding elem offset
  mint_at = at 2 64 32 (omega (arith, length-to_be_bytes)) (omega arith) (omega arith)

  counter_at : sub (concat (action_parts a)) 96 8 ≡ to_be_bytes 8 a.counter
  unfolding elem offset
  counter_at =
      at 3 96 8 (omega (arith, length-to_be_bytes)) (omega (arith, length-to_be_bytes))
        (omega arith)

  projection_at : sub (concat (action_parts a)) 104 2 ≡ to_be_bytes 2 a.projection
  unfolding elem offset
  projection_at =
      at 4 104 2 (omega (arith, length-to_be_bytes)) (omega (arith, length-to_be_bytes))
        (omega arith)

  new_at : sub (concat (action_parts a)) 106 32 ≡ a.commitment_new
  unfolding elem offset
  new_at = at 5 106 32 (omega (arith, length-to_be_bytes)) (omega arith) (omega arith)

  prev_at : sub (concat (action_parts a)) 138 32 ≡ a.commitment_prev
  unfolding elem offset
  prev_at = at 6 138 32 (omega (arith, length-to_be_bytes)) (omega arith) (omega arith)

  threshold_at : sub (concat (action_parts a)) 170 2 ≡ to_be_bytes 2 a.threshold
  unfolding elem offset
  threshold_at =
      at 7 170 2 (omega (arith, length-to_be_bytes)) (omega (arith, length-to_be_bytes))
        (omega arith)

  min_distance_at : sub (concat (action_parts a)) 172 2 ≡ to_be_bytes 2 a.min_distance
  unfolding elem offset
  min_distance_at =
      at 8 172 2 (omega (arith, length-to_be_bytes)) (omega (arith, length-to_be_bytes))
        (omega arith)

  valid_until_at : sub (concat (action_parts a)) 174 8 ≡ to_be_bytes 8 a.valid_until
  unfolding elem offset
  valid_until_at =
      at 9 174 8 (omega (arith, length-to_be_bytes)) (omega (arith, length-to_be_bytes))
        (omega arith)

  decode-concat : decode (concat (action_parts a)) ≡ a
  unfolding decode
  decode-concat = ground (
    arith,
    identity_at,
    mint_at,
    counter_at,
    from_be_bytes-to_be_bytes 8 a.counter v.counter_u64,
    projection_at,
    from_be_bytes-to_be_bytes 2 a.projection v.projection_u16,
    new_at,
    prev_at,
    threshold_at,
    from_be_bytes-to_be_bytes 2 a.threshold v.threshold_u16,
    min_distance_at,
    from_be_bytes-to_be_bytes 2 a.min_distance v.min_distance_u16,
    valid_until_at,
    from_be_bytes-to_be_bytes 8 a.valid_until v.valid_until_u64,
  )

  -- For an action of the Rust types' sizes that is encoded at all, reading the fields back from
  -- the 182 bytes gives the action.
  pub decode-encode : (bs : Bytes) → encode a ≡ some bs → decode bs ≡ a
  unfolding encode
  decode-encode bs e = ground (arith, decode-concat)

-- Two actions with the same encoding are the same.
pub encode_injective :
    (a b : Action) (bs : Bytes)
    → IsAction a
    → IsAction b
    → encode a ≡ some bs
    → encode b ≡ some bs
    → a ≡ b
encode_injective a b bs v w e f = sym (decode-encode a v bs e) ∙ decode-encode b w bs f
