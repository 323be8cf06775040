-- ===== src/Base/Words.antt =====
-- Little-endian and big-endian codecs of the unsigned words, and of i64 through its bit pattern.
use mathlib.Core.List.{reverse, reverse_aux, reverse-reverse}
use native.Mathlib.Nat.{pow-suc}
use protocol_core.Base.{
  ℕ, zero, suc, ◌+◌, ◌*◌, ◌/◌, ◌%◌, ◌^◌, ◌<◌, ◌≡◌, refl, List, [], ◌∷◌, ap, arith, length,
  replicate,
}
use protocol_core.Base.Int.{ℤ, IsI64, as_u64, as_i64, as_i64-as_u64, as_u64_lt}

abbrev pub Bytes : Type 0
Bytes = List ℕ

-- The n-byte `to_le_bytes`, and `from_le_bytes`.
unfoldable pub to_le_bytes : ℕ → ℕ → Bytes
to_le_bytes zero v = []
to_le_bytes (suc n) v = v % 256 ∷ to_le_bytes n (v / 256)

unfoldable pub from_le_bytes : Bytes → ℕ
from_le_bytes [] = 0
from_le_bytes (b ∷ bs) = b + 256 * from_le_bytes bs

unfoldable pub to_be_bytes : ℕ → ℕ → Bytes
unfolding to_le_bytes
to_be_bytes n v = reverse (to_le_bytes n v)

unfoldable pub from_be_bytes : Bytes → ℕ
unfolding from_le_bytes
from_be_bytes bs = from_le_bytes (reverse bs)

pub length-to_le_bytes : (n v : ℕ) → length (to_le_bytes n v) ≡ n
unfolding to_le_bytes
length-to_le_bytes zero v = refl
length-to_le_bytes (suc n) v = ap suc (length-to_le_bytes n (v / 256))

pub from_le_bytes-to_le_bytes : (n v : ℕ) → v < 256 ^ n → from_le_bytes (to_le_bytes n v) ≡ v
unfolding to_le_bytes from_le_bytes
from_le_bytes-to_le_bytes zero v h = omega arith
from_le_bytes-to_le_bytes (suc n) v h =
    omega (arith, from_le_bytes-to_le_bytes n (v / 256) (omega (arith, pow-suc 256 n)))

pub from_be_bytes-to_be_bytes : (n v : ℕ) → v < 256 ^ n → from_be_bytes (to_be_bytes n v) ≡ v
unfolding to_be_bytes from_be_bytes
from_be_bytes-to_be_bytes n v h = rw reverse-reverse (from_le_bytes-to_le_bytes n v h)

length-reverse_aux : (xs acc : Bytes) → length (reverse_aux xs acc) ≡ length xs + length acc
length-reverse_aux [] acc = omega arith
length-reverse_aux (x ∷ xs) acc = omega (arith, length-reverse_aux xs (x ∷ acc))

pub length-to_be_bytes : (n v : ℕ) → length (to_be_bytes n v) ≡ n
unfolding to_be_bytes
length-to_be_bytes n v =
    omega (arith, length-reverse_aux (to_le_bytes n v) [], length-to_le_bytes n v)

-- i64.
unfoldable pub i64_to_le_bytes : ℤ → Bytes
i64_to_le_bytes z = to_le_bytes 8 (as_u64 z)

unfoldable pub i64_from_le_bytes : Bytes → ℤ
i64_from_le_bytes bs = as_i64 (from_le_bytes bs)

pub i64_round_trip : (z : ℤ) → IsI64 z → i64_from_le_bytes (i64_to_le_bytes z) ≡ z
unfolding i64_to_le_bytes i64_from_le_bytes
i64_round_trip z h = rw (from_le_bytes-to_le_bytes 8 (as_u64 z) (as_u64_lt z h)) (as_i64-as_u64 z h)

pub length-i64_to_le_bytes : (z : ℤ) → length (i64_to_le_bytes z) ≡ 8
unfolding i64_to_le_bytes
length-i64_to_le_bytes z = length-to_le_bytes 8 (as_u64 z)

pub from_le_bytes-zeros : (n : ℕ) → from_le_bytes (replicate n 0) ≡ 0
unfolding from_le_bytes
from_le_bytes-zeros zero = refl
from_le_bytes-zeros (suc n) = omega (arith, from_le_bytes-zeros n)
