-- ===== src/Score/Laws.antt =====
-- What the marking loop computes.
use protocol_core.Base.{
  ℕ, zero, suc, ◌<◌, ◌≡◌, refl, Bool, true, false, ◌||◌, List, [], ◌∷◌, arith, ◌==◌, length, set,
  length-set, replicate, get_or,
}
use protocol_core.Base.Int.{ℤ}
use protocol_core.Score.Bins.{num_bins, bin_index, mark, mark_all, active_bins, hits, hit_by_some}

get_or-set :
    (bins : List Bool) (i k : ℕ)
    → i < length bins
    → get_or (set bins i true) k false ≡ (get_or bins k false || (i == k))
get_or-set [] i k h = absurd (omega arith)
get_or-set (b ∷ bins) zero zero h = ground arith
get_or-set (b ∷ bins) zero (suc k) h = ground arith
get_or-set (b ∷ bins) (suc i) zero h = ground arith
get_or-set (b ∷ bins) (suc i) (suc k) h = ground (arith, get_or-set bins i k)

length-mark : (now : ℤ) (bins : List Bool) (ts : ℤ) → length (mark now bins ts) ≡ length bins
unfolding mark
length-mark now bins ts = ground (arith, length-set bins (bin_index now ts) true)

get_or-mark :
    (now : ℤ) (bins : List Bool) (ts : ℤ) (k : ℕ)
    → length bins ≡ num_bins
    → k < num_bins
    → get_or (mark now bins ts) k false ≡ (get_or bins k false || hits now k ts)
unfolding mark hits
get_or-mark now bins ts k e h = ground (arith, get_or-set bins (bin_index now ts) k)

get_or-mark_all :
    (now : ℤ) (bins : List Bool) (stamps : List ℤ) (k : ℕ)
    → length bins ≡ num_bins
    → k < num_bins
    → get_or (mark_all now bins stamps) k false ≡ (get_or bins k false || hit_by_some now k stamps)
unfolding mark_all hit_by_some
get_or-mark_all now bins [] k e h = ground arith
get_or-mark_all now bins (ts ∷ rest) k e h = ground (
  arith,
  get_or-mark now bins ts k e h,
  length-mark now bins ts,
  get_or-mark_all now (mark now bins ts) rest k,
)

get_or-replicate : (n k : ℕ) → get_or (replicate n false) k false ≡ false
get_or-replicate zero k = refl
get_or-replicate (suc n) zero = refl
get_or-replicate (suc n) (suc k) = get_or-replicate n k

-- After the loop a bin is marked exactly if some time stamp that is not zero falls into it.
pub active_bins_iff :
    (now : ℤ) (stamps : List ℤ) (k : ℕ)
    → k < num_bins
    → get_or (active_bins now stamps) k false ≡ hit_by_some now k stamps
unfolding active_bins
active_bins_iff now stamps k h = ground (
  arith,
  get_or-replicate num_bins k,
  get_or-mark_all now (replicate num_bins false) stamps k refl h,
)

length-mark_all :
    (now : ℤ) (bins : List Bool) (stamps : List ℤ) → length (mark_all now bins stamps) ≡ length bins
unfolding mark_all
length-mark_all now bins [] = refl
length-mark_all now bins (ts ∷ rest) =
    omega (arith, length-mark_all now (mark now bins ts) rest, length-mark now bins ts)

bins_ext :
    (a b : List Bool)
    → length a ≡ length b
    → ((k : ℕ) → k < length a → get_or a k false ≡ get_or b k false)
    → a ≡ b
bins_ext [] [] e h = refl
bins_ext [] (y ∷ b) e h = absurd (omega arith)
bins_ext (x ∷ a) [] e h = absurd (omega arith)
bins_ext (x ∷ a) (y ∷ b) e h =
    cc (h 0 (omega arith), bins_ext a b (omega arith) (λ k l. h (suc k) (omega arith)))

pub length-active_bins : (now : ℤ) (stamps : List ℤ) → length (active_bins now stamps) ≡ num_bins
unfolding active_bins
length-active_bins now stamps = length-mark_all now (replicate num_bins false) stamps

pub get_or_bound : (a : List Bool) (k : ℕ) → get_or a k false ≡ true → k < length a
get_or_bound [] k e = cc
get_or_bound (x ∷ a) zero e = omega arith
get_or_bound (x ∷ a) (suc k) e = omega (arith, get_or_bound a k e)

hits_index : (now ts : ℤ) (k : ℕ) → hits now k ts ≡ true → bin_index now ts ≡ k
unfolding hits
hits_index now ts k h = ground arith

-- A time stamp in a bin that is active already changes no bin, so it changes no score.
pub active_bins_repeat :
    (now ts : ℤ) (stamps : List ℤ)
    → hit_by_some now (bin_index now ts) stamps ≡ true
    → active_bins now (ts ∷ stamps) ≡ active_bins now stamps
unfolding active_bins mark_all
active_bins_repeat now ts stamps h =
    let start = replicate num_bins false in
    let first = mark now start ts in
    let same_length : length first ≡ num_bins = length-mark now start ts in
    bins_ext (mark_all now first stamps) (mark_all now start stamps)
      (omega (arith, length-mark_all now first stamps, length-mark_all now start stamps))
      λ k l.
        let in_range : k < num_bins = omega (arith, length-mark_all now first stamps) in
        ground (
          arith,
          get_or-mark_all now first stamps k same_length in_range,
          get_or-mark_all now start stamps k refl in_range,
          get_or-mark now start ts k refl in_range,
          hits_index now ts k,
        )
