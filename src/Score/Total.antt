-- ===== src/Score/Total.antt =====
-- The score of a history: the weights of the active bins, the age bonus, the cap.
use native.Mathlib.Nat.{mul-le-mul}
use native.Mathlib.Decide.{dec_le}
use protocol_core.Base.{
  ℕ, ◌+◌, ◌*◌, ◌%◌, ◌^◌, ◌≤◌, ◌≡◌, List, Option, none, some, arith, if◌then◌else◌, min,
  Option-cases, inl, inr,
}
use protocol_core.Base.Int.{ℤ, pos, ltb_ℤ, checked_sub, div_trunc, as_u64}
use protocol_core.Score.Isqrt.{isqrt, isqrt_floor}
use protocol_core.Score.Bins.{sat_u64, active_bins, base_score}

-- `(age_seconds / 86400).max(0) as u64`
unfoldable pub age_days : ℤ → ℕ
unfolding div_trunc as_u64
age_days seconds =
    let days = div_trunc seconds 86400 in as_u64 (if ltb_ℤ days (pos 0) then pos 0 else days)

unfoldable pub age_bonus : ℤ → ℕ
age_bonus seconds = isqrt (min (age_days seconds) 365) * 4

-- The result is cast to u16. `none` is the overflow of `now.checked_sub(creation_timestamp)`.
unfoldable pub total_score : ℕ → ℕ → ℤ → ℤ → List ℤ → Option ℕ
total_score increment max_score now creation stamps = elim (checked_sub now creation) [
  | none ↦ none
  | some age ↦ some (
      min (sat_u64 (sat_u64 (base_score increment (active_bins now stamps)) + age_bonus age))
        max_score
      % 2 ^ 16)
]

small : (r : ℕ) {n : ℕ} → r * r ≤ n → n ≤ 365 → r * 4 ≤ 76
small r h k = elim (dec_le r 19) [
  | yes q ↦ omega arith
  | no q ↦
      let wide : 20 * 20 ≤ r * r =
        mul-le-mul {n₁ = 20} {m₁ = 20} {n₂ = r} {m₂ = r} (omega arith) (omega arith) in
      absurd (omega arith)
]

pub age_bonus-le : (seconds : ℤ) → age_bonus seconds ≤ 76
unfolding age_bonus
age_bonus-le seconds =
    let n = min (age_days seconds) 365 in small (isqrt n) (isqrt_floor n).0 (omega arith)

cast : (n : ℕ) → n % 2 ^ 16 ≤ n
cast n = omega arith

-- The stored score never passes the configured ceiling.
pub total_score-le :
    (increment max_score : ℕ) (now creation : ℤ) (stamps : List ℤ) {s : ℕ}
    → total_score increment max_score now creation stamps ≡ some s
    → s ≤ max_score
unfolding total_score
total_score-le increment max_score now creation stamps e =
    elim (Option-cases (checked_sub now creation)) [
      | inl n ↦ ground arith
      | inr (age, n) ↦
          let raw =
            sat_u64 (sat_u64 (base_score increment (active_bins now stamps)) + age_bonus age) in
          ground (arith, cast (min raw max_score))
    ]
