-- ===== src/Base/Concat.antt =====
-- A buffer filled front to back with fields, and each field at its offset.
use protocol_core.Base.{ℕ, zero, suc, ◌+◌, ◌<◌, ◌≡◌, refl, ◌∙◌, List, [], ◌∷◌, ◌++◌, length, arith}
use protocol_core.Base.Words.{Bytes}
use protocol_core.Base.Bytes.{sub, sub-append_head, sub-append_tail}

unfoldable pub concat : List Bytes → Bytes
concat [] = []
concat (f ∷ fs) = f ++ concat fs

unfoldable pub elem : List Bytes → ℕ → Bytes
elem [] k = []
elem (f ∷ fs) zero = f
elem (f ∷ fs) (suc k) = elem fs k

unfoldable pub offset : List Bytes → ℕ → ℕ
offset fs zero = 0
offset [] (suc k) = 0
offset (f ∷ fs) (suc k) = length f + offset fs k

-- The k-th part of a concatenation stands behind the parts above it.
pub sub-concat :
    (fs : List Bytes) (k i n : ℕ)
    → offset fs k ≡ i
    → length (elem fs k) ≡ n
    → k < length fs
    → sub (concat fs) i n ≡ elem fs k
unfolding elem offset concat
sub-concat [] k i n e h l = absurd (omega arith)
sub-concat (f ∷ fs) zero i n e h l = rw (← e) (sub-append_head f (concat fs) n h)
sub-concat (f ∷ fs) (suc k) i n e h l = rw (← e) (
    sub-append_tail f (concat fs) (offset fs k) n
    ∙ sub-concat fs k (offset fs k) n refl h (omega arith))
