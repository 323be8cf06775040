-- ===== src/Score/Bins.antt =====
-- The weekly activity bins and the score that they carry.
use protocol_core.Base.{
  ℕ, ◌+◌, ◌-◌, ◌*◌, ◌/◌, ◌^◌, ◌≡◌, Bool, true, false, ◌&&◌, ◌||◌, not, List, [], ◌∷◌, ltb, ◌==◌,
  if◌then◌else◌, set, replicate, get_or,
}
use protocol_core.Base.Int.{ℤ, pos, eqb_ℤ, saturating_sub, div_trunc, as_u64}

abbrev pub bin_size_secs : ℕ
bin_size_secs = 604800

abbrev pub num_bins : ℕ
num_bins = 12

-- `now.saturating_sub(ts) / bin_size_secs`, as usize.
unfoldable pub bin_index : ℤ → ℤ → ℕ
unfolding saturating_sub div_trunc as_u64
bin_index now ts = as_u64 (div_trunc (saturating_sub now ts) bin_size_secs)

-- One round of the marking loop.
unfoldable pub mark : ℤ → List Bool → ℤ → List Bool
mark now bins ts =
    if eqb_ℤ ts (pos 0)
    then bins
    else (if ltb (bin_index now ts) num_bins then set bins (bin_index now ts) true else bins)

unfoldable pub mark_all : ℤ → List Bool → List ℤ → List Bool
mark_all now bins [] = bins
mark_all now bins (ts ∷ rest) = mark_all now (mark now bins ts) rest

unfoldable pub active_bins : ℤ → List ℤ → List Bool
unfolding mark_all mark
active_bins now stamps = mark_all now (replicate num_bins false) stamps

-- `saturating_mul` and `saturating_add` of u64.
abbrev pub sat_u64 : ℕ → ℕ
sat_u64 n = if ltb (2 ^ 64 - 1) n then 2 ^ 64 - 1 else n

unfoldable pub weight : ℕ → ℕ → ℕ
weight increment k = sat_u64 (increment * (num_bins - k)) / num_bins

-- The loop over the bins from bin k on, with the score so far.
unfoldable pub add_weights : ℕ → ℕ → ℕ → List Bool → ℕ
add_weights increment k acc [] = acc
add_weights increment k acc (active ∷ bins) =
    add_weights increment (k + 1) (if active then sat_u64 (acc + weight increment k) else acc) bins

unfoldable pub base_score : ℕ → List Bool → ℕ
unfolding add_weights weight
base_score increment bins = add_weights increment 0 0 bins

-- The reference: does a time stamp fall into bin k, and is there one that does?
unfoldable pub hits : ℤ → ℕ → ℤ → Bool
hits now k ts = not (eqb_ℤ ts (pos 0)) && (bin_index now ts == k)

unfoldable pub hit_by_some : ℤ → ℕ → List ℤ → Bool
hit_by_some now k [] = false
hit_by_some now k (ts ∷ rest) = hits now k ts || hit_by_some now k rest

abbrev pub IsActive : List Bool → ℕ → Type 0
IsActive bins k = get_or bins k false ≡ true
