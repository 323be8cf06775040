-- ===== src/Ring.antt =====
-- programs/entros-anchor/src/lib.rs, `record_verification`: the ring of 52 time stamps, newest
-- first, zero where nothing is recorded.
pub mod Laws
pub mod Bins
pub mod Tests
use protocol_core.Base.{
  ℕ, suc, ◌≡◌, Bool, true, false, ◌||◌, List, [], ◌∷◌, length, take, if◌then◌else◌, not,
}
use protocol_core.Base.Int.{ℤ, pos, leb_ℤ, eqb_ℤ, saturating_sub}

abbrev pub ring_len : ℕ
ring_len = 52

-- `BIN_SIZE_SECS`
abbrev pub bin_size_secs : ℕ
bin_size_secs = 604800

unfoldable pub opens_new_bin : ℤ → ℤ → Bool
opens_new_bin newest now =
    eqb_ℤ newest (pos 0) || leb_ℤ (pos bin_size_secs) (saturating_sub now newest)

-- Every entry takes its predecessor's place, from the far end on: the last one is lost.
unfoldable pub shift : ℤ → List ℤ → List ℤ
shift newest [] = []
shift newest (x ∷ xs) = newest ∷ shift x xs

unfoldable pub record_verification : List ℤ → ℤ → List ℤ
unfolding opens_new_bin
record_verification [] now = []
record_verification (newest ∷ older) now =
    if opens_new_bin newest now then shift now (newest ∷ older) else newest ∷ older

-- The verifications of a wallet, oldest first.
unfoldable pub record_all : List ℤ → List ℤ → List ℤ
record_all ring [] = ring
record_all ring (now ∷ rest) = record_all (record_verification ring now) rest
