-- ===== src/Ring/Laws.antt =====
-- The entries of the ring lie a week apart, so that 52 of them cover a year.
use protocol_core.Base.{
  ℕ, zero, suc, ◌*◌, ◌≡◌, ◌≢◌, refl, ap, ◌∙◌, ◌⊎◌, inl, inr, true, List, [], ◌∷◌, length, arith,
  Bool-cases, get_or, replicate,
}
use protocol_core.Base.Int.{ℤ, pos, saturating_sub, ◌≤ℤ◌, ◌+ℤ◌, IsI64}
use protocol_core.Ring.{bin_size_secs, opens_new_bin, shift, record_verification, record_all}

length-shift : (x : ℤ) (xs : List ℤ) → length (shift x xs) ≡ length xs
unfolding shift
length-shift x [] = refl
length-shift x (y ∷ ys) = ap suc (length-shift y ys)

-- The ring keeps its length.
pub length-record_verification :
    (ring : List ℤ) (now : ℤ) → length (record_verification ring now) ≡ length ring
unfolding record_verification
length-record_verification [] now = refl
length-record_verification (x ∷ xs) now = ground (arith, length-shift now (x ∷ xs))

-- Each entry is a positive time at least a week behind the one above it, and behind the first empty
-- slot all are empty.
unfoldable pub IsSpaced : List ℤ → Type 0
IsSpaced [] = Unit {0}
IsSpaced (x ∷ []) = pos 0 ≤ℤ x
IsSpaced (x ∷ y ∷ rest) =
    (pos 0 ≤ℤ x) × ((y ≡ pos 0) ⊎ (y +ℤ pos bin_size_secs ≤ℤ x)) × IsSpaced (y ∷ rest)

shift-IsSpaced :
    (now x : ℤ) (xs : List ℤ)
    → pos 0 ≤ℤ now
    → ((x ≡ pos 0) ⊎ (x +ℤ pos bin_size_secs ≤ℤ now))
    → IsSpaced (x ∷ xs)
    → IsSpaced (shift now (x ∷ xs))
unfolding shift IsSpaced
shift-IsSpaced now x [] p h s = p
shift-IsSpaced now x (y ∷ ys) p h s =
    (p, h, shift-IsSpaced x y ys (ground arith) (ground arith) (ground arith))

opens_lem :
    (newest now : ℤ)
    → opens_new_bin newest now ≡ true
    → (newest ≡ pos 0) ⊎ (newest +ℤ pos bin_size_secs ≤ℤ now)
unfolding opens_new_bin saturating_sub ◌+ℤ◌
opens_lem newest now h = ground arith

-- A verification at a time that is not negative keeps the entries a week apart.
pub record_verification-IsSpaced :
    (ring : List ℤ) (now : ℤ)
    → pos 0 ≤ℤ now
    → IsSpaced ring
    → IsSpaced (record_verification ring now)
unfolding record_verification
record_verification-IsSpaced [] now p h = h
record_verification-IsSpaced (x ∷ xs) now p h = elim (Bool-cases (opens_new_bin x now)) [
  | inl o ↦ rw o (shift-IsSpaced now x xs p (opens_lem x now o) h)
  | inr o ↦ rw o h
]

-- None of the times is negative.
unfoldable pub IsTimes : List ℤ → Type 0
IsTimes [] = Unit {0}
IsTimes (now ∷ rest) = (pos 0 ≤ℤ now) × IsTimes rest

-- However often a wallet verifies, and at whatever times that are not negative, the entries of its
-- ring stay at least a week apart, newest first, and the ring keeps its length.
pub record_all-IsSpaced :
    (times ring : List ℤ)
    → IsTimes times
    → IsSpaced ring
    → IsSpaced (record_all ring times) × (length (record_all ring times) ≡ length ring)
unfolding record_all IsTimes
record_all-IsSpaced [] ring p h = (h, refl)
record_all-IsSpaced (now ∷ rest) ring p h =
    let f =
      record_all-IsSpaced rest (record_verification ring now) p.1
        (record_verification-IsSpaced ring now p.0 h) in
    (f.0, omega (arith, f.1, length-record_verification ring now))

spaced_step :
    (x y z : ℤ) (k : ℕ)
    → pos 0 ≤ℤ z
    → (y ≡ pos 0) ⊎ (y +ℤ pos bin_size_secs ≤ℤ x)
    → (z ≡ pos 0) ⊎ (z +ℤ pos (bin_size_secs * k) ≤ℤ y)
    → (z ≡ pos 0) ⊎ (z +ℤ pos (bin_size_secs * suc k) ≤ℤ x)
unfolding ◌+ℤ◌
spaced_step x y z k p h t = ground arith

pub nonnegative :
    (x : ℤ) (xs : List ℤ) (i : ℕ) → IsSpaced (x ∷ xs) → pos 0 ≤ℤ get_or (x ∷ xs) i (pos 0)
unfolding IsSpaced
nonnegative x [] zero h = h
nonnegative x [] (suc i) h = omega arith
nonnegative x (y ∷ ys) zero h = h.0
nonnegative x (y ∷ ys) (suc i) h = nonnegative y ys i h.2

-- In a spaced ring the entry at place i is empty or lies at least i weeks behind the newest.
pub IsSpaced-reach :
    (newest : ℤ) (older : List ℤ) (i : ℕ)
    → IsSpaced (newest ∷ older)
    → (get_or (newest ∷ older) i (pos 0) ≡ pos 0)
      ⊎ (get_or (newest ∷ older) i (pos 0) +ℤ pos (bin_size_secs * i) ≤ℤ newest)
unfolding IsSpaced ◌+ℤ◌
IsSpaced-reach x older zero h = inr (ground arith)
IsSpaced-reach x [] (suc i) h = inl refl
IsSpaced-reach x (y ∷ ys) (suc i) h =
    spaced_step x y (get_or (y ∷ ys) i (pos 0)) i (nonnegative y ys i h.2) h.1
      (IsSpaced-reach y ys i h.2)

reaches :
    (ring : List ℤ) (i : ℕ)
    → IsSpaced ring
    → (get_or ring i (pos 0) ≡ pos 0)
      ⊎ (get_or ring i (pos 0) +ℤ pos (bin_size_secs * i) ≤ℤ get_or ring 0 (pos 0))
reaches [] i h = inl refl
reaches (x ∷ xs) i h = IsSpaced-reach x xs i h

empty-IsSpaced : (n : ℕ) → IsSpaced (replicate n (pos 0))
unfolding IsSpaced
empty-IsSpaced zero = tt
empty-IsSpaced (suc zero) = omega arith
empty-IsSpaced (suc (suc n)) = (omega arith, inl refl, empty-IsSpaced (suc n))

-- What becomes of the newest entry.
newest_lem :
    (x now : ℤ) (xs : List ℤ)
    → pos 0 ≤ℤ x
    → pos 0 ≤ℤ now
    → (get_or (record_verification (x ∷ xs) now) 0 (pos 0) ≡ now)
      ⊎ ((get_or (record_verification (x ∷ xs) now) 0 (pos 0) ≡ x) × (now ≤ℤ x +ℤ pos 604799))
unfolding record_verification opens_new_bin shift saturating_sub ◌+ℤ◌
newest_lem x now xs h p = elim (Bool-cases (opens_new_bin x now)) [
  | inl o ↦ inl (ground arith)
  | inr o ↦ inr (ground arith)
]

newest_of :
    (ring : List ℤ) (now : ℤ)
    → length ring ≡ 52
    → pos 0 ≤ℤ now
    → IsSpaced ring
    → (get_or (record_verification ring now) 0 (pos 0) ≡ now)
      ⊎ ((get_or (record_verification ring now) 0 (pos 0) ≡ get_or ring 0 (pos 0))
          × (now ≤ℤ get_or ring 0 (pos 0) +ℤ pos 604799))
newest_of [] now n p h = ground (arith, n)
newest_of (x ∷ xs) now n p h = newest_lem x now xs (nonnegative x xs 0 h) p

-- The ring of an identity after any verifications from its mint on and one more, at times that are
-- not negative: it has 52 entries; the newest is the last time, or it is the newest before, with
-- the last time within a week of it; and the entry at place i is empty or lies at least i weeks
-- behind the newest. So a full ring reaches back at least 51 weeks.
pub record_all_reach :
    (times : List ℤ) (now : ℤ) (i : ℕ)
    → IsTimes times
    → pos 0 ≤ℤ now
    → (before after : List ℤ) × (before ≡ record_all (replicate 52 (pos 0)) times)
      × (after ≡ record_verification before now)
      × (length after ≡ 52)
      × ((get_or after 0 (pos 0) ≡ now)
          ⊎ ((get_or after 0 (pos 0) ≡ get_or before 0 (pos 0))
              × (now ≤ℤ get_or before 0 (pos 0) +ℤ pos 604799)))
      × ((get_or after i (pos 0) ≡ pos 0)
          ⊎ (get_or after i (pos 0) +ℤ pos (604800 * i) ≤ℤ get_or after 0 (pos 0)))
record_all_reach times now i h p =
    let before = record_all (replicate 52 (pos 0)) times in
    let after = record_verification before now in
    let r = record_all-IsSpaced times (replicate 52 (pos 0)) h (empty-IsSpaced 52) in
    (
      before,
      after,
      refl,
      refl,
      length-record_verification before now ∙ r.1,
      newest_of before now r.1 p r.0,
      reaches after i (record_verification-IsSpaced before now p r.0),
    )

-- A repeat within a week of the newest entry leaves the ring as it is.
pub record_verification_repeat :
    (newest now : ℤ) (older : List ℤ)
    → newest ≢ pos 0
    → now ≤ℤ newest +ℤ pos 604799
    → IsI64 newest
    → IsI64 now
    → record_verification (newest ∷ older) now ≡ newest ∷ older
unfolding record_verification opens_new_bin saturating_sub ◌+ℤ◌
record_verification_repeat newest now older n h a b = ground arith
