-- ===== src/Score.antt =====
-- The Trust Score: `compute_trust_score` of programs/entros-registry/src/lib.rs previews it, and
-- `process_anchor_update` of programs/entros-anchor/src/lib.rs stores it. Both loops agree; the
-- callers say what a failed subtraction means to them.
mod Isqrt
mod Bins
mod Total
mod Laws
mod Weights
mod Tests
pub use Isqrt.{isqrt_floor}
unfoldable pub use Isqrt.{isqrt}
unfoldable pub use Bins.{active_bins, base_score, bin_index, hits, hit_by_some}
unfoldable pub use Total.{age_days, age_bonus, total_score}
pub use Total.{total_score-le, age_bonus-le}
pub use Laws.{active_bins_iff, active_bins_repeat}
pub use Weights.{base_score_mono, base_score_recent, base_score-le}
pub use Bins.{num_bins, bin_size_secs}
