-- ===== src/Ring/Tests.antt =====
-- A ring of four slots, and the verifications that it records.
use protocol_core.Base.{◌<◌, ◌*◌, ◌≡◌, refl, ◌⊎◌, List, [], ◌∷◌, length, arith, get_or, replicate}
use protocol_core.Base.Int.{ℤ, pos, ◌+ℤ◌, ◌≤ℤ◌, saturating_sub}
use protocol_core.Score.{bin_index}
use protocol_core.Ring.{record_verification, record_all, opens_new_bin, shift}
use protocol_core.Ring.Laws.{
  IsSpaced, IsTimes, record_all-IsSpaced, record_all_reach, record_verification_repeat,
}
use protocol_core.Ring.Bins.{IsSpaced-distinct}

abbrev empty_ring : List ℤ
empty_ring = pos 0 ∷ pos 0 ∷ pos 0 ∷ pos 0 ∷ []

-- Three verifications, the second of which falls into the first one's week.
abbrev times : List ℤ
times = pos 1000000 ∷ pos 1000500 ∷ pos 1604800 ∷ []

abbrev filled : List ℤ
filled = pos 1604800 ∷ pos 1000000 ∷ pos 0 ∷ pos 0 ∷ []

records_two : record_all empty_ring times ≡ filled
unfolding record_all record_verification opens_new_bin shift saturating_sub
records_two = refl

empty-IsSpaced : IsSpaced empty_ring
unfolding IsSpaced
empty-IsSpaced = ground arith

times-IsTimes : IsTimes times
unfolding IsTimes
times-IsTimes = omega arith

filled-IsSpaced : IsSpaced filled
unfolding IsSpaced ◌+ℤ◌
filled-IsSpaced = ground arith

record_all-IsSpaced_example :
    IsSpaced (record_all empty_ring times)
    × (length (record_all empty_ring times) ≡ length empty_ring)
record_all-IsSpaced_example = record_all-IsSpaced times empty_ring times-IsTimes empty-IsSpaced

record_all_reach_example :
    (before after : List ℤ) × (before ≡ record_all (replicate 52 (pos 0)) times)
    × (after ≡ record_verification before (pos 9000000))
    × (length after ≡ 52)
    × ((get_or after 0 (pos 0) ≡ pos 9000000)
        ⊎ ((get_or after 0 (pos 0) ≡ get_or before 0 (pos 0))
            × (pos 9000000 ≤ℤ get_or before 0 (pos 0) +ℤ pos 604799)))
    × ((get_or after 1 (pos 0) ≡ pos 0)
        ⊎ (get_or after 1 (pos 0) +ℤ pos (604800 * 1) ≤ℤ get_or after 0 (pos 0)))
record_all_reach_example = record_all_reach times (pos 9000000) 1 times-IsTimes (omega arith)

record_verification_repeat_test : record_verification filled (pos 1700000) ≡ filled
unfolding ◌+ℤ◌
record_verification_repeat_test =
    record_verification_repeat (pos 1604800) (pos 1700000) (pos 1000000 ∷ pos 0 ∷ pos 0 ∷ [])
      (ground arith) (omega arith) (omega arith) (omega arith)

IsSpaced-distinct_test :
    bin_index (pos 1700000) (get_or filled 0 (pos 0))
    < bin_index (pos 1700000) (get_or filled 1 (pos 0))
IsSpaced-distinct_test =
    IsSpaced-distinct (pos 1700000) filled 0 1 (omega arith) filled-IsSpaced (omega arith)
      (omega arith) (ground arith)
