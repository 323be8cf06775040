-- ===== src/Request.antt =====
-- crates/proof-request/src/lib.rs: the request that a proof is bound to, its digest, and the two
-- accounts that carry it between the programs. The hash is a parameter.
pub mod Laws
pub mod Tests
use protocol_core.Base.{
  ℕ, suc, ◌≡◌, Bool, true, false, not, ◌&&◌, ◌||◌, Option, none, some, List, [], ◌∷◌, ◌++◌, length,
  take, drop, ltb, leb, ◌==◌, if◌then◌else◌,
}
use protocol_core.Base.Int.{ℤ}
use protocol_core.Base.Words.{Bytes, to_le_bytes, to_be_bytes, from_le_bytes}
use protocol_core.Base.Bytes.{bytes_eq, sub, nth, zeros}
use protocol_core.Base.Concat.{concat}
use protocol_core.Chain.{Pubkey}

abbrev pub generation : ℕ
generation = 1

abbrev pub state_len : ℕ
state_len = 50

abbrev pub max_request_lifetime : ℕ
max_request_lifetime = 300

-- "ENTROS_PROOF_REQUEST_V1" and "ENTROS_ANCHOR_UPDATE_V1", each with nine zero bytes.
abbrev pub request_domain : Bytes
request_domain =
    69
    ∷ 78
    ∷ 84
    ∷ 82
    ∷ 79
    ∷ 83
    ∷ 95
    ∷ 80
    ∷ 82
    ∷ 79
    ∷ 79
    ∷ 70
    ∷ 95
    ∷ 82
    ∷ 69
    ∷ 81
    ∷ 85
    ∷ 69
    ∷ 83
    ∷ 84
    ∷ 95
    ∷ 86
    ∷ 49
    ∷ zeros 9

abbrev pub action_domain : Bytes
action_domain =
    69
    ∷ 78
    ∷ 84
    ∷ 82
    ∷ 79
    ∷ 83
    ∷ 95
    ∷ 65
    ∷ 78
    ∷ 67
    ∷ 72
    ∷ 79
    ∷ 82
    ∷ 95
    ∷ 85
    ∷ 80
    ∷ 68
    ∷ 65
    ∷ 84
    ∷ 69
    ∷ 95
    ∷ 86
    ∷ 49
    ∷ zeros 9

abbrev pub scalar_modulus : Bytes
scalar_modulus =
    48 ∷ 100 ∷ 78 ∷ 114 ∷ 225 ∷ 49 ∷ 160 ∷ 41 ∷ 184 ∷ 80 ∷ 69 ∷ 182 ∷ 129 ∷ 129 ∷ 88 ∷ 93 ∷ 40 ∷ 51
    ∷ 232 ∷ 72 ∷ 121 ∷ 185 ∷ 112 ∷ 145 ∷ 67 ∷ 225 ∷ 245 ∷ 147 ∷ 240 ∷ 0 ∷ 0 ∷ 1 ∷ []

-- `<` of byte arrays: lexicographic.
unfoldable pub bytes_lt : Bytes → Bytes → Bool
bytes_lt a [] = false
bytes_lt [] (y ∷ b) = true
bytes_lt (x ∷ a) (y ∷ b) = ltb x y || ((x == y) && bytes_lt a b)

unfoldable pub canonical_scalar : Bytes → Bool
canonical_scalar value = bytes_lt value scalar_modulus

pub record Action : Type 0 where
  pub identity : Pubkey
  pub mint : Pubkey
  pub counter : ℕ
  pub projection : ℕ
  pub commitment_new : Bytes
  pub commitment_prev : Bytes
  pub threshold : ℕ
  pub min_distance : ℕ
  pub valid_until : ℕ

-- The fields of the 182-byte buffer, which fill it front to back.
abbrev pub action_parts : Action → List Bytes
action_parts a =
    action_domain
    ∷ a.identity
    ∷ a.mint
    ∷ to_be_bytes 8 a.counter
    ∷ to_be_bytes 2 a.projection
    ∷ a.commitment_new
    ∷ a.commitment_prev
    ∷ to_be_bytes 2 a.threshold
    ∷ to_be_bytes 2 a.min_distance
    ∷ to_be_bytes 8 a.valid_until
    ∷ []

unfoldable pub is_refused : Action → Bool
is_refused a =
    not (canonical_scalar a.commitment_new)
    || not (canonical_scalar a.commitment_prev)
    || bytes_eq a.commitment_new (zeros 32)
    || bytes_eq a.commitment_prev (zeros 32)
    || (a.valid_until == 0)
    || ltb 256 a.threshold
    || ltb a.threshold a.min_distance

unfoldable pub encode : Action → Option Bytes
encode a = if is_refused a then none else some (concat (action_parts a))

pub record BoundVerificationResult : Type 0 where
  pub version : ℕ
  pub wallet : Pubkey
  pub nonce : Bytes
  pub commitment_new : Bytes
  pub commitment_prev : Bytes
  pub threshold : ℕ
  pub min_distance : ℕ
  pub counter : ℕ
  pub valid_until : ℕ
  pub verified_at : ℤ
  pub request_digest : Bytes
  pub bump : ℕ

-- The fields of the 225-byte buffer.
abbrev pub request_parts : Bytes → Pubkey → Pubkey → Pubkey → Bytes → Bytes → List Bytes
request_parts deployment verifier consumer wallet nonce action_hash =
    request_domain ∷ deployment ∷ verifier ∷ consumer ∷ wallet ∷ nonce ∷ (1 ∷ []) ∷ action_hash ∷ []

-- "account:ProofRequestState"
abbrev pub proof_request_state_name : Bytes
proof_request_state_name =
    97 ∷ 99 ∷ 99 ∷ 111 ∷ 117 ∷ 110 ∷ 116 ∷ 58 ∷ 80 ∷ 114 ∷ 111 ∷ 111 ∷ 102 ∷ 82 ∷ 101 ∷ 113 ∷ 117
    ∷ 101 ∷ 115 ∷ 116 ∷ 83 ∷ 116 ∷ 97 ∷ 116 ∷ 101 ∷ []

-- The two limbs of a digest, its halves behind sixteen zero bytes.
unfoldable pub digest_limbs : Bytes → Bytes × Bytes
digest_limbs digest = (zeros 16 ++ take 16 digest, zeros 16 ++ drop 16 digest)

module _ (hash : Bytes → Bytes) where
  unfoldable pub request_digest : Bytes → Pubkey → Pubkey → Pubkey → Bytes → Action → Option Bytes
  request_digest deployment verifier consumer wallet nonce action = elim (encode action) [
    | none ↦ none
    | some action_bytes ↦ some (
        hash (concat (request_parts deployment verifier consumer wallet nonce (hash action_bytes))))
  ]

  -- The tests of the buffer's length and fields, each read in bounds when the length is right.
  unfoldable pub is_request_state : Bytes → Pubkey → ℕ → Bool
  is_request_state d wallet bump =
      (length d == state_len)
      && bytes_eq (take 8 d) (take 8 (hash proof_request_state_name))
      && (nth d 8 == generation)
      && bytes_eq (sub d 9 32) wallet
      && (nth d 49 == bump)

  unfoldable pub read_counter : Bytes → Pubkey → ℕ → Option ℕ
  read_counter d wallet bump =
      if is_request_state d wallet bump then some (from_le_bytes (sub d 41 8)) else none
