-- ===== src/Verifier/State.antt =====
-- programs/entros-verifier/src/state.rs and the account contexts of lib.rs. An account is named by
-- its seeds: a challenge and a result by the wallet and the nonce, which is what lookup goes by.
use protocol_core.Base.{ℕ, Bool, ◌&&◌, Option, none, some, List, [], ◌∷◌, if◌then◌else◌}
use protocol_core.Base.Int.{ℤ}
use protocol_core.Base.Words.{Bytes}
use protocol_core.Base.Bytes.{bytes_eq}
use protocol_core.Chain.{Pubkey}
use protocol_core.Request.{BoundVerificationResult}

pub record Challenge : Type 0 where
  pub challenger : Pubkey
  pub nonce : Bytes
  pub created_at : ℤ
  pub expires_at : ℤ
  pub used : Bool
  pub bump : ℕ

pub record VerificationResult : Type 0 where
  pub verifier : Pubkey
  pub proof_hash : Bytes
  pub verified_at : ℤ
  pub is_valid : Bool
  pub challenge_nonce : Bytes
  pub bump : ℕ
  pub commitment_new : Bytes
  pub commitment_prev : Bytes
  pub threshold : ℕ
  pub min_distance : ℕ

pub data Event : Type 0 where
  challenge_created : Pubkey → Bytes → ℤ → Event
  verification_complete : Pubkey → Bool → Bytes → Event

-- An account's seeds behind the fixed tag: the wallet and the nonce.
abbrev pub Seeds : Type 0
Seeds = Pubkey × Bytes

unfoldable pub seeds_eq : Seeds → Seeds → Bool
seeds_eq a b = bytes_eq a.0 b.0 && bytes_eq a.1 b.1

abbrev pub Accounts : Type 0 → Type 0
Accounts A = List (Seeds × A)

unfoldable pub lookup : {A : Type 0} → Accounts A → Seeds → Option A
lookup [] s = none
lookup ((t, a) ∷ rest) s = if seeds_eq t s then some a else lookup rest s

unfoldable pub remove : {A : Type 0} → Accounts A → Seeds → Accounts A
remove [] s = []
remove ((t, a) ∷ rest) s = if seeds_eq t s then remove rest s else (t, a) ∷ remove rest s

pub record Verifier : Type 0 where
  pub challenges : Accounts Challenge
  pub results : Accounts VerificationResult
  pub bound_results : Accounts BoundVerificationResult
  pub events : List Event

-- The build's feature, the addresses' bumps, and the check that another library makes: does the
-- proof, in its three parts, verify for the public inputs?
pub record Build : Type 0 where
  pub request_bound_v1 : Bool
  pub challenge_bump : Seeds → ℕ
  pub result_bump : Seeds → ℕ
  pub bound_result_bump : Seeds → ℕ
  pub groth16_verify : Bytes → Bytes → Bytes → List Bytes → Bool
  pub groth16_verify_bound : Bytes → Bytes → Bytes → List Bytes → Bool
