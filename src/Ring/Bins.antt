-- ===== src/Ring/Bins.antt =====
-- The ring against the weekly bins of the score.
use protocol_core.Base.{ℕ, zero, suc, ◌*◌, ◌<◌, ◌≢◌, refl, inl, inr, List, [], ◌∷◌, arith, get_or}
use protocol_core.Base.Int.{ℤ, pos, saturating_sub, div_trunc, as_u64, ◌≤ℤ◌, ◌+ℤ◌, ◌-ℤ◌, IsI64}
use protocol_core.Score.{bin_index}
use protocol_core.Ring.{bin_size_secs}
use protocol_core.Ring.Laws.{IsSpaced, IsSpaced-reach, nonnegative}

older_bin :
    (now x y : ℤ)
    → IsI64 now
    → pos 0 ≤ℤ y
    → y +ℤ pos bin_size_secs ≤ℤ x
    → x ≤ℤ now
    → bin_index now x < bin_index now y
unfolding bin_index saturating_sub div_trunc as_u64 ◌+ℤ◌ ◌-ℤ◌
older_bin now x y b p h k = ground arith

spaced_bin :
    (now x y : ℤ) (i : ℕ)
    → IsI64 now
    → pos 0 ≤ℤ y
    → y +ℤ pos (bin_size_secs * suc i) ≤ℤ x
    → x ≤ℤ now
    → bin_index now x < bin_index now y
unfolding ◌+ℤ◌
spaced_bin now x y i b p h k = older_bin now x y b p (ground arith) k

second : (now x y : ℤ) (older : List ℤ) → IsSpaced (x ∷ y ∷ older) → x ≤ℤ now → y ≤ℤ now
unfolding IsSpaced ◌+ℤ◌
second now x y older s p = ground arith

-- At most one entry of the ring falls into each weekly bin: of two entries, none in the future, the
-- one further back falls into an older bin.
pub IsSpaced-distinct :
    (now : ℤ) (ring : List ℤ) (i j : ℕ)
    → IsI64 now
    → IsSpaced ring
    → get_or ring 0 (pos 0) ≤ℤ now
    → i < j
    → get_or ring j (pos 0) ≢ pos 0
    → bin_index now (get_or ring i (pos 0)) < bin_index now (get_or ring j (pos 0))
unfolding IsSpaced ◌+ℤ◌
IsSpaced-distinct now [] i j b s p l n = absurd (n refl)
IsSpaced-distinct now (x ∷ older) zero zero b s p l n = absurd (omega arith)
IsSpaced-distinct now (x ∷ older) zero (suc j) b s p l n = elim (IsSpaced-reach x older (suc j) s) [
  | inl e ↦ absurd (n e)
  | inr h ↦ spaced_bin now x (get_or older j (pos 0)) j b (nonnegative x older (suc j) s) h p
]
IsSpaced-distinct now (x ∷ older) (suc i) zero b s p l n = absurd (omega arith)
IsSpaced-distinct now (x ∷ []) (suc i) (suc j) b s p l n = absurd (n refl)
IsSpaced-distinct now (x ∷ y ∷ older) (suc i) (suc j) b s p l n =
    IsSpaced-distinct now (y ∷ older) i j b s.2 (second now x y older s p) (omega arith) n
