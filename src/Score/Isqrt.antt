-- ===== src/Score/Isqrt.antt =====
-- isqrt of programs/entros-registry/src/lib.rs, of which programs/entros-anchor/src/lib.rs has a
-- copy that agrees line by line. The loop's fuel is n, and the loop variable falls from n.
use native.Mathlib.Nat.{mul-le-mul, div-add-mod, mod-lt, le_refl, div_self}
use native.Mathlib.Decide.{dec_le}
use protocol_core.Base.{
  ℕ, zero, suc, ◌+◌, ◌-◌, ◌*◌, ◌/◌, ◌%◌, ◌≤◌, ◌<◌, ◌≡◌, true, false, arith, ltb, ◌==◌,
  if◌then◌else◌,
}

-- `while y < x { x = y; y = (x + n / x) / 2; }`
unfoldable pub newton : ℕ → ℕ → ℕ → ℕ → ℕ
newton zero n x y = x
newton (suc f) n x y = elim (ltb y x) [ true ↦ newton f n y ((y + n / y) / 2) | false ↦ x ]

unfoldable pub isqrt : ℕ → ℕ
unfolding newton
isqrt n = if n == 0 then 0 else newton n n n ((n + 1) / 2)

sq_mono : (a b : ℕ) → a ≤ b → a * a ≤ b * b
sq_mono a b h = mul-le-mul h h

-- 4ab ≤ (a + b)².
am_gm_ordered : (a d : ℕ) → 4 * (a * (a + d)) ≤ (a + (a + d)) * (a + (a + d))
am_gm_ordered a d = omega arith

am_gm : (a b : ℕ) → 4 * (a * b) ≤ (a + b) * (a + b)
am_gm a b = elim (dec_le a b) [
  | yes h ↦ let e : b ≡ a + (b - a) = omega arith in rw e (am_gm_ordered a (b - a))
  | no h ↦ let e : a ≡ b + (a - b) = omega arith in rw e (omega (arith, am_gm_ordered b (a - b)))
]

next_above_core :
    (n x q y r : ℕ) → x * q + r ≡ n → r < x → x + q + 1 ≤ 2 * (y + 1) → n < (y + 1) * (y + 1)
next_above_core n x q y r e h k =
    omega (arith, am_gm x (q + 1), sq_mono (x + (q + 1)) (2 * (y + 1)) (omega arith))

-- Newton's next value never falls below the root.
next_above : (n x : ℕ) → 0 < x → n < ((x + n / x) / 2 + 1) * ((x + n / x) / 2 + 1)
next_above n x h =
    next_above_core n x (n / x) ((x + n / x) / 2) (n % x) (div-add-mod n x) (mod-lt n h)
      (omega arith)

-- The loop stops at the root.
stop_below : (n x : ℕ) → 0 < x → x ≤ (x + n / x) / 2 → x * x ≤ n
stop_below n x h k =
    let wide : x ≤ n / x = omega arith in
    omega (arith, mul-le-mul (le_refl x) wide, div-add-mod n x)

next_pos : (n x : ℕ) → 0 < n → 0 < x → 0 < (x + n / x) / 2
next_pos n zero p h = absurd (omega arith)
next_pos n (suc zero) p h = omega arith
next_pos n (suc (suc x)) p h = omega arith

newton_floor :
    (f n x : ℕ)
    → 0 < n
    → 0 < x
    → x ≤ f
    → n < (x + 1) * (x + 1)
    → let r = newton f n x ((x + n / x) / 2) in (r * r ≤ n) × (n < (r + 1) * (r + 1))
unfolding newton
newton_floor zero n x p h k b = absurd (omega arith)
newton_floor (suc f) n x p h k b = ground (
  arith,
  stop_below n x h,
  next_pos n x p h,
  newton_floor f n ((x + n / x) / 2) p (next_pos n x p h),
  next_above n x h,
)

-- The result is the floor of the square root, at every input: the loop with n rounds of fuel
-- reaches its end.
pub isqrt_floor : (n : ℕ) → (isqrt n * isqrt n ≤ n) × (n < (isqrt n + 1) * (isqrt n + 1))
unfolding isqrt
isqrt_floor zero = omega arith
isqrt_floor (suc n) =
    let one : suc n / suc n ≡ 1 = div_self (omega arith) in
    let first : (suc n + 1) / 2 ≡ (suc n + suc n / suc n) / 2 = omega (arith, one) in
    let nonzero : (suc n == 0) ≡ false = ground arith in
    rw (nonzero, first)
      (newton_floor (suc n) (suc n) (suc n) (omega arith) (omega arith) (omega arith) (omega arith))
