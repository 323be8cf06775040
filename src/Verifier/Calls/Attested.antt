-- ===== src/Verifier/Calls/Attested.antt =====
-- What the accounts of the program attest, through every run of calls.
use protocol_core.Base.{
  ◌<◌, ◌≤◌, ◌≡◌, ◌≢◌, refl, inl, inr, true, false, none, List, [], ◌∷◌, length, arith, ok,
  Result-cases, Option-cases, Bool-cases,
}
use protocol_core.Base.Int.{ℤ}
use protocol_core.Base.Words.{Bytes}
use protocol_core.Base.Bytes.{bytes_eq_iff, sub, zeros}
use protocol_core.Chain.{Pubkey}
use protocol_core.Verifier.State.{
  Verifier, VerificationResult, Build, Seeds, Accounts, lookup, remove, seeds_eq,
}
use protocol_core.Verifier.Proof.{
  verify_and_store, check_proof, validate_hamming_bounds, decode_u16_from_field_element, proof_hash,
}
use protocol_core.Verifier.Proof.Bounds.{validate_hamming_bounds_iff}

unfoldable pub Each : {A : Type 0} → (Seeds → A → Type 0) → Accounts A → Type 0
Each P [] = Unit {0}
Each P ((s, a) ∷ rest) = P s a × Each P rest

pub Each-remove :
    {A : Type 0} (P : Seeds → A → Type 0) (xs : Accounts A) (s : Seeds)
    → Each P xs
    → Each P (remove xs s)
unfolding Each remove
Each-remove P [] s h = h
Each-remove P ((t, a) ∷ rest) s h = elim (Bool-cases (seeds_eq t s)) [
  | inl e ↦ rw e (Each-remove P rest s h.1)
  | inr e ↦ rw e (h.0, Each-remove P rest s h.1)
]

-- A result account: it stands at its own wallet and nonce, its numbers are in bounds, and a proof
-- of 256 bytes verified for its inputs.
pub data IsAttested (build : Build) (s : Seeds) (r : VerificationResult) : Type 0 where
  attested :
      (proof_bytes i2 i3 : Bytes)
      → r.verifier ≡ s.0
      → r.challenge_nonce ≡ s.1
      → s.1 ≢ zeros 32
      → r.is_valid ≡ true
      → r.commitment_new ≢ zeros 32
      → r.commitment_prev ≢ zeros 32
      → decode_u16_from_field_element i2 ≡ ok r.threshold
      → decode_u16_from_field_element i3 ≡ ok r.min_distance
      → r.threshold ≤ 96
      → 3 ≤ r.min_distance
      → r.min_distance < r.threshold
      → length proof_bytes ≡ 256
      → build.groth16_verify
          (sub proof_bytes 0 64)
          (sub proof_bytes 64 128)
          (sub proof_bytes 192 64)
          (r.commitment_new ∷ r.commitment_prev ∷ i2 ∷ i3 ∷ [])
        ≡ true
      → r.proof_hash ≡ proof_hash proof_bytes
      → IsAttested build s r

module _ (build : Build) where
  check_proof_lem :
      (p : Bytes) (is : List Bytes)
      → check_proof build p is ≡ ok tt
      → (length p ≡ 256)
        × (build.groth16_verify (sub p 0 64) (sub p 64 128) (sub p 192 64) is ≡ true)
  unfolding check_proof
  check_proof_lem p is e = ground arith

  -- A stored result is new at its address, attests a proof that verified for its own inputs,
  -- carries the time of the call, and is the only change to the accounts; only a build without
  -- the feature request-bound-v1 stores one.
  pub verify_and_store_lem :
      (w : Pubkey) (now : ℤ) (p i0 i1 i2 i3 nonce : Bytes) (s : Verifier) {t : Verifier}
      → verify_and_store build w now p i0 i1 i2 i3 nonce s ≡ ok t
      → (r : VerificationResult) × (t.results ≡ ((w, nonce), r) ∷ s.results)
        × IsAttested build (w, nonce) r
        × (lookup s.results (w, nonce) ≡ none)
        × (t.challenges ≡ s.challenges)
        × (t.bound_results ≡ s.bound_results)
        × (r.verified_at ≡ now)
        × (build.request_bound_v1 ≡ false)
  unfolding verify_and_store
  verify_and_store_lem w now p i0 i1 i2 i3 nonce s {t} e =
      elim (Result-cases (decode_u16_from_field_element i2)) [
        | inr (x, q2) ↦ ground arith
        | inl (threshold, q2) ↦ elim (Result-cases (decode_u16_from_field_element i3)) [
          | inr (x, q3) ↦ ground arith
          | inl (min_distance, q3) ↦
              elim (Result-cases (validate_hamming_bounds threshold min_distance)) [
                | inr (x, v) ↦ ground arith
                | inl (u, v) ↦ elim (Result-cases (check_proof build p (i0 ∷ i1 ∷ i2 ∷ i3 ∷ []))) [
                  | inr (x, c) ↦ ground arith
                  | inl (u', c) ↦
                      let checked = check_proof_lem p (i0 ∷ i1 ∷ i2 ∷ i3 ∷ []) c in
                      let bounds = (validate_hamming_bounds_iff threshold min_distance).0 v in
                      let r : VerificationResult = record {
                        verifier = w;
                        proof_hash = proof_hash p;
                        verified_at = now;
                        is_valid = true;
                        challenge_nonce = nonce;
                        bump = build.result_bump (w, nonce);
                        commitment_new = i0;
                        commitment_prev = i1;
                        threshold = threshold;
                        min_distance = min_distance;
                      } in
                      let nonzero : (nonce ≢ zeros 32) × (i0 ≢ zeros 32) × (i1 ≢ zeros 32) =
                        ground (
                          arith,
                          bytes_eq_iff nonce (zeros 32),
                          bytes_eq_iff i0 (zeros 32),
                          bytes_eq_iff i1 (zeros 32),
                        ) in
                      (
                        r,
                        ground arith,
                        attested p i2 i3 refl refl nonzero.0 refl nonzero.1 nonzero.2 q2 q3 bounds.0
                            bounds.1 bounds.2 checked.0 checked.1 refl,
                        elim (Option-cases (lookup s.results (w, nonce))) [
                          | inl n ↦ n
                          | inr (a, n) ↦ ground arith
                        ],
                        ground arith,
                        ground arith,
                        refl,
                        ground arith,
                      )
                ]
              ]
        ]
      ]
