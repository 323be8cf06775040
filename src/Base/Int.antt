-- ===== src/Base/Int.antt =====
-- Signed integers over the native numbers, under the library's names, and Rust's i64 on top.
-- Sums and orders go through the two parts of an integer, which are numbers that `omega` reads.
use protocol_core.Base.{
  ℕ, suc, ◌+◌, ◌-◌, ◌/◌, ◌%◌, ◌^◌, ◌≤◌, ◌<◌, ◌≡◌, Bool, true, false, Option, none, some, arith, ltb,
  leb, if◌then◌else◌,
}

-- `negsuc n` is -(n + 1).
pub data ℤ : Type 0 where
  pos : ℕ → ℤ
  negsuc : ℕ → ℤ

abbrev pub pos_part : ℤ → ℕ
pos_part (pos n) = n
pos_part (negsuc n) = 0

abbrev pub neg_part : ℤ → ℕ
neg_part (pos n) = 0
neg_part (negsuc n) = suc n

-- a - b, as an integer.
abbrev pub sub_ℕ : ℕ → ℕ → ℤ
sub_ℕ a b = if leb b a then pos (a - b) else negsuc (b - a - 1)

infixl 65 ◌+ℤ◌ ◌-ℤ◌
infix 50 ◌≤ℤ◌
unfoldable pub ◌+ℤ◌ : ℤ → ℤ → ℤ
a +ℤ b = sub_ℕ (pos_part a + pos_part b) (neg_part a + neg_part b)

unfoldable pub ◌-ℤ◌ : ℤ → ℤ → ℤ
a -ℤ b = sub_ℕ (pos_part a + neg_part b) (neg_part a + pos_part b)

abbrev pub ◌≤ℤ◌ : ℤ → ℤ → Type 0
a ≤ℤ b = pos_part a + neg_part b ≤ pos_part b + neg_part a

abbrev pub ltb_ℤ : ℤ → ℤ → Bool
ltb_ℤ a b = ltb (pos_part a + neg_part b) (pos_part b + neg_part a)

abbrev pub leb_ℤ : ℤ → ℤ → Bool
leb_ℤ a b = leb (pos_part a + neg_part b) (pos_part b + neg_part a)

-- `==` of i64, on the two parts.
abbrev pub eqb_ℤ : ℤ → ℤ → Bool
eqb_ℤ a b = if leb_ℤ a b then leb_ℤ b a else false

pub -ℤ_parts :
    (a b : ℤ)
    → pos_part (a -ℤ b) + neg_part a + pos_part b ≡ neg_part (a -ℤ b) + pos_part a + neg_part b
unfolding ◌-ℤ◌
-ℤ_parts a b = ground arith

pub +ℤ_parts :
    (a b : ℤ)
    → pos_part (a +ℤ b) + neg_part a + neg_part b ≡ neg_part (a +ℤ b) + pos_part a + pos_part b
unfolding ◌+ℤ◌
+ℤ_parts a b = ground arith

pub eq_of_parts : (a b : ℤ) → pos_part a + neg_part b ≡ pos_part b + neg_part a → a ≡ b
eq_of_parts a b h = ground arith

pub ruleset int_laws = (arith, +ℤ_parts, -ℤ_parts, eq_of_parts)

-- The bounds of i64.
abbrev pub i64_max : ℤ
i64_max = pos (2 ^ 63 - 1)

abbrev pub i64_min : ℤ
i64_min = negsuc (2 ^ 63 - 1)

abbrev pub IsI64 : ℤ → Type 0
IsI64 z = (pos_part z < 2 ^ 63) × (neg_part z ≤ 2 ^ 63)

-- `i64::saturating_sub`.
unfoldable pub saturating_sub : ℤ → ℤ → ℤ
unfolding ◌-ℤ◌
saturating_sub a b =
    let d = a -ℤ b in if ltb_ℤ i64_max d then i64_max else if ltb_ℤ d i64_min then i64_min else d

abbrev checked : ℤ → Option ℤ
checked z = if ltb_ℤ i64_max z then none else if ltb_ℤ z i64_min then none else some z

-- `i64::checked_add` and `i64::checked_sub`.
unfoldable pub checked_add : ℤ → ℤ → Option ℤ
unfolding ◌+ℤ◌
checked_add a b = checked (a +ℤ b)

unfoldable pub checked_sub : ℤ → ℤ → Option ℤ
unfolding ◌-ℤ◌
checked_sub a b = checked (a -ℤ b)

abbrev neg : ℕ → ℤ
neg n = sub_ℕ 0 n

-- `/` of i64 by a positive number: it rounds towards zero.
unfoldable pub div_trunc : ℤ → ℕ → ℤ
div_trunc (pos n) k = pos (n / k)
div_trunc (negsuc n) k = neg (suc n / k)

-- `as u64` and `as usize` of an i64: the bit pattern.
unfoldable pub as_u64 : ℤ → ℕ
as_u64 (pos n) = n
as_u64 (negsuc n) = 2 ^ 64 - suc n

-- `as i64` of a u64 bit pattern.
unfoldable pub as_i64 : ℕ → ℤ
as_i64 w = if ltb w (2 ^ 63) then pos w else negsuc (2 ^ 64 - w - 1)

pub as_i64-as_u64 : (z : ℤ) → IsI64 z → as_i64 (as_u64 z) ≡ z
unfolding as_i64 as_u64
as_i64-as_u64 (pos n) h = ground arith
as_i64-as_u64 (negsuc n) h = ground arith

pub as_u64_lt : (z : ℤ) → IsI64 z → as_u64 z < 2 ^ 64
unfolding as_u64
as_u64_lt (pos n) h = omega arith
as_u64_lt (negsuc n) h = omega arith

-- Below the saturation a difference against a bound is the difference of the integers.
pub saturating_sub_le :
    (a b : ℤ) (n : ℕ) → n < 2 ^ 63 - 1 → leb_ℤ (saturating_sub a b) (pos n) ≡ true → a ≤ℤ b +ℤ pos n
unfolding saturating_sub ◌+ℤ◌
saturating_sub_le a b n h e = ground arith

-- A saturating difference of at least n is one.
pub le-saturating_sub :
    (a b : ℤ) (n : ℕ) → leb_ℤ (pos n) (saturating_sub a b) ≡ true → b +ℤ pos n ≤ℤ a
unfolding saturating_sub ◌+ℤ◌ ◌-ℤ◌
le-saturating_sub a b n e = ground arith

-- A checked sum that is there is the sum, and in range.
pub checked_add_exact : (a b : ℤ) {c : ℤ} → checked_add a b ≡ some c → (c ≡ a +ℤ b) × IsI64 c
unfolding checked_add ◌+ℤ◌
checked_add_exact a b e = ground arith
