-- ===== src/Score/Tests.antt =====
-- A history of three verifications and the score that it earns.
use protocol_core.Base.{◌+◌, ◌*◌, ◌≤◌, ◌<◌, ◌≡◌, refl, true, false, List, [], ◌∷◌, arith, get_or}
use protocol_core.Base.Int.{ℤ, pos}
use protocol_core.Score.Isqrt.{isqrt, isqrt_floor}
use protocol_core.Score.Bins.{bin_index, active_bins, base_score, hits, hit_by_some}
use protocol_core.Score.Laws.{active_bins_iff, active_bins_repeat}
use protocol_core.Score.Weights.{base_score_mono, base_score_recent, base_score-le}

abbrev now : ℤ
now = pos 2000000

-- Today, a week ago, and an empty slot.
abbrev stamps : List ℤ
stamps = pos 1999000 ∷ pos 1390000 ∷ pos 0 ∷ []

two_bins :
    active_bins now stamps
    ≡ true ∷ true ∷ false ∷ false ∷ false ∷ false ∷ false ∷ false ∷ false ∷ false ∷ false ∷ false
      ∷ []
unfolding active_bins bin_index
two_bins = refl

score_of_two : base_score 100 (active_bins now stamps) ≡ 191
unfolding active_bins base_score bin_index
score_of_two = refl

isqrt_floor_example : (isqrt 365 * isqrt 365 ≤ 365) × (365 < (isqrt 365 + 1) * (isqrt 365 + 1))
isqrt_floor_example = isqrt_floor 365

active_bins_iff_example : get_or (active_bins now stamps) 1 false ≡ hit_by_some now 1 stamps
active_bins_iff_example = active_bins_iff now stamps 1 (omega arith)

second_week : hit_by_some now (bin_index now (pos 1380000)) stamps ≡ true
unfolding bin_index hits hit_by_some
second_week = refl

active_bins_repeat_test : active_bins now (pos 1380000 ∷ stamps) ≡ active_bins now stamps
active_bins_repeat_test = active_bins_repeat now (pos 1380000) stamps second_week

base_score_mono_test : base_score 100 (active_bins now []) ≤ base_score 100 (active_bins now stamps)
unfolding hit_by_some
base_score_mono_test = base_score_mono 100 now [] stamps (λ k h. cc)

newest_week : hit_by_some now 0 stamps ≡ true
unfolding bin_index hits hit_by_some
newest_week = refl

base_score_recent_example : 100 ≤ base_score 100 (active_bins now stamps)
base_score_recent_example = base_score_recent 100 now stamps (omega arith) newest_week

base_score-le_test : base_score 100 (active_bins now stamps) ≤ 12 * 100
base_score-le_test = base_score-le 100 now stamps (omega arith)
