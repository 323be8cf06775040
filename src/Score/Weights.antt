-- ===== src/Score/Weights.antt =====
-- The weights of the active bins: more of them never lower the score, and it lies in a fixed range.
use native.Mathlib.Nat.{mul-le-mul, le_refl}
use protocol_core.Base.{
  ℕ, suc, ◌+◌, ◌-◌, ◌*◌, ◌/◌, ◌^◌, ◌≤◌, ◌<◌, ◌≡◌, refl, sym, ◌∙◌, Bool, true, false, List, [], ◌∷◌,
  arith, if◌then◌else◌, length, get_or,
}
use protocol_core.Base.Int.{ℤ}
use protocol_core.Score.Bins.{
  num_bins, active_bins, weight, add_weights, base_score, hit_by_some, sat_u64,
}
use protocol_core.Score.Laws.{active_bins_iff, length-active_bins, get_or_bound}

abbrev pub Below : List Bool → List Bool → Type 0
Below a b = (k : ℕ) → get_or a k false ≡ true → get_or b k false ≡ true

small_factor : (k : ℕ) → num_bins - k ≤ 12
small_factor k = omega arith

weight_exact :
    (increment k : ℕ)
    → increment < 2 ^ 16
    → weight increment k ≡ increment * (num_bins - k) / num_bins
unfolding weight
weight_exact increment k h = ground (arith, mul-le-mul (le_refl increment) (small_factor k))

-- Each weight is at most the increment, so one bin adds at most that.
weight-le : (increment k : ℕ) → increment < 2 ^ 16 → weight increment k ≤ increment
weight-le increment k h =
    omega (arith, weight_exact increment k h, mul-le-mul (le_refl increment) (small_factor k))

step_mono :
    (p q : Bool) (w x y : ℕ)
    → (p ≡ true → q ≡ true)
    → x ≤ y
    → y < 2 ^ 64
    → ((if p then sat_u64 (x + w) else x) ≤ (if q then sat_u64 (y + w) else y))
      × ((if q then sat_u64 (y + w) else y) < 2 ^ 64)
step_mono true true w x y h l m = ground arith
step_mono true false w x y h l m = cc (h refl)
step_mono false q w x y h l m = ground arith

add_weights_mono :
    (increment k x y : ℕ) (a b : List Bool)
    → length a ≡ length b
    → Below a b
    → x ≤ y
    → y < 2 ^ 64
    → add_weights increment k x a ≤ add_weights increment k y b
unfolding add_weights
add_weights_mono increment k x y [] [] e h l m = l
add_weights_mono increment k x y [] (q ∷ b) e h l m = absurd (omega arith)
add_weights_mono increment k x y (p ∷ a) [] e h l m = absurd (omega arith)
add_weights_mono increment k x y (p ∷ a) (q ∷ b) e h l m =
    let (le, lt) = step_mono p q (weight increment k) x y (h 0) l m in
    add_weights_mono increment (k + 1) _ _ a b (omega arith) (λ i. h (suc i)) le lt

-- A history that falls into every bin that another one falls into has at least its score.
pub base_score_mono :
    (increment : ℕ) (now : ℤ) (stamps more : List ℤ)
    → ((k : ℕ) → hit_by_some now k stamps ≡ true → hit_by_some now k more ≡ true)
    → base_score increment (active_bins now stamps) ≤ base_score increment (active_bins now more)
unfolding base_score
base_score_mono increment now stamps more h =
    add_weights_mono increment 0 0 0 (active_bins now stamps) (active_bins now more)
      (omega (arith, length-active_bins now stamps, length-active_bins now more))
      (λ k e. carry k (get_or_bound (active_bins now stamps) k e) e) (omega arith) (omega arith)
  where
    carry :
        (k : ℕ)
        → k < length (active_bins now stamps)
        → get_or (active_bins now stamps) k false ≡ true
        → get_or (active_bins now more) k false ≡ true
    carry k l e =
        let in_range : k < num_bins = omega (arith, length-active_bins now stamps) in
        active_bins_iff now more k in_range ∙ h k (sym (active_bins_iff now stamps k in_range) ∙ e)

add_weights_bounds :
    (increment k x : ℕ) (a : List Bool)
    → increment < 2 ^ 16
    → x + increment * length a < 2 ^ 64
    → (x ≤ add_weights increment k x a) × (add_weights increment k x a ≤ x + increment * length a)
unfolding add_weights
add_weights_bounds increment k x [] h l = omega arith
add_weights_bounds increment k x (true ∷ a) h l =
    let room : x + weight increment k + increment * length a < 2 ^ 64 =
      omega (arith, weight-le increment k h) in
    let exact : sat_u64 (x + weight increment k) ≡ x + weight increment k = ground arith in
    rw exact (
      omega (
        arith,
        weight-le increment k h,
        add_weights_bounds increment (k + 1) (x + weight increment k) a h room,
      ))
add_weights_bounds increment k x (false ∷ a) h l =
    omega (arith, add_weights_bounds increment (k + 1) x a h (omega arith))

weight-zero : (increment : ℕ) → increment < 2 ^ 16 → weight increment 0 ≡ increment
weight-zero increment h = omega (arith, weight_exact increment 0 h)

ten :
    (increment : ℕ) (a : List Bool)
    → length (true ∷ a) ≡ num_bins
    → increment < 2 ^ 16
    → increment + increment * length a < 2 ^ 64
ten increment a e h = let eleven : length a ≡ 11 = omega arith in rw eleven (omega arith)

first_bin :
    (increment : ℕ) (a : List Bool)
    → increment < 2 ^ 16
    → length a ≡ num_bins
    → get_or a 0 false ≡ true
    → increment ≤ add_weights increment 0 0 a
unfolding add_weights
first_bin increment [] h e t = absurd (omega arith)
first_bin increment (false ∷ a) h e t = cc
first_bin increment (true ∷ a) h e t =
    let exact : sat_u64 (0 + weight increment 0) ≡ increment =
      ground (arith, weight-zero increment h) in
    rw exact (add_weights_bounds increment (0 + 1) increment a h (ten increment a e h)).0

-- For an increment of 16 bits, a verification in the newest week is worth the whole increment.
pub base_score_recent :
    (increment : ℕ) (now : ℤ) (stamps : List ℤ)
    → increment < 2 ^ 16
    → hit_by_some now 0 stamps ≡ true
    → increment ≤ base_score increment (active_bins now stamps)
unfolding base_score
base_score_recent increment now stamps h e =
    first_bin increment (active_bins now stamps) h (length-active_bins now stamps)
      (active_bins_iff now stamps 0 (omega arith) ∙ e)

-- For an increment of 16 bits, no history is worth more than twelve increments.
pub base_score-le :
    (increment : ℕ) (now : ℤ) (stamps : List ℤ)
    → increment < 2 ^ 16
    → base_score increment (active_bins now stamps) ≤ 12 * increment
unfolding base_score
base_score-le increment now stamps h =
    let room : 0 + increment * length (active_bins now stamps) < 2 ^ 64 =
      rw (length-active_bins now stamps) (omega arith) in
    let top : increment * length (active_bins now stamps) ≤ 12 * increment =
      rw (length-active_bins now stamps) (omega arith) in
    omega (arith, (add_weights_bounds increment 0 0 (active_bins now stamps) h room).1)
