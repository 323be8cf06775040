-- ===== src/Verifier/Bound/Laws.antt =====
-- What an account that the bound proof leaves behind attests.
use protocol_core.Base.{
  ℕ, ◌+◌, ◌<◌, ◌≤◌, ◌≡◌, ◌≢◌, refl, inl, inr, true, none, some, [], ◌∷◌, arith, ok, Result-cases,
  Option-cases,
}
use protocol_core.Base.Int.{ℤ, pos, negsuc}
use protocol_core.Base.Words.{Bytes, from_le_bytes}
use protocol_core.Base.Bytes.{bytes_eq_iff, sub, zeros}
use protocol_core.Chain.{Pubkey}
use protocol_core.Request.{
  BoundVerificationResult, Action, request_digest, digest_limbs, read_counter,
}
use protocol_core.Verifier.State.{Verifier, Build, Seeds, lookup}
use protocol_core.Verifier.Proof.{validate_hamming_bounds, encode_u16_field_element}
use protocol_core.Verifier.Proof.Bounds.{validate_hamming_bounds_iff}
use protocol_core.Verifier.Bound.{
  Context, Arguments, Foreign, verify_proof_bound, require_deadline, is_identity, is_at, action_of,
  check_bound_proof, now_u64,
}

-- The request that a result answers, in a projection space.
abbrev pub request_of : Context → Seeds → BoundVerificationResult → ℕ → Action
request_of ctx s r projection = record {
  identity = ctx.identity_key s.0;
  mint = ctx.mint_key s.0;
  counter = r.counter;
  projection = projection;
  commitment_new = r.commitment_new;
  commitment_prev = r.commitment_prev;
  threshold = r.threshold;
  min_distance = r.min_distance;
  valid_until = r.valid_until;
}

-- The account stands at its wallet and nonce, its digest is that of the request, a proof verified
-- for the digest's limbs, and the deadline was at most 300 seconds away.
pub data IsBound (build : Build) (ctx : Context) (s : Seeds) (r : BoundVerificationResult)
    : Type 0 where
  bound :
      (projection now : ℕ) (a b c : Bytes)
      → r.wallet ≡ s.0
      → r.nonce ≡ s.1
      → s.1 ≢ zeros 32
      → r.commitment_new ≢ zeros 32
      → r.commitment_prev ≢ zeros 32
      → r.threshold ≤ 96
      → 3 ≤ r.min_distance
      → r.min_distance < r.threshold
      → r.verified_at ≡ pos now
      → now ≤ r.valid_until
      → r.valid_until ≤ now + 300
      → request_digest ctx.hash ctx.deployment_domain ctx.verifier_id ctx.anchor_id s.0 s.1
          (request_of ctx s r projection)
        ≡ some r.request_digest
      → build.groth16_verify_bound a b c (
          r.commitment_new
          ∷ r.commitment_prev
          ∷ encode_u16_field_element r.threshold
          ∷ encode_u16_field_element r.min_distance
          ∷ (digest_limbs r.request_digest).0
          ∷ (digest_limbs r.request_digest).1
          ∷ [])
        ≡ true
      → IsBound build ctx s r

require_deadline_lem :
    (now : ℤ) (valid_until : ℕ)
    → require_deadline now valid_until ≡ ok tt
    → (n : ℕ) × (now ≡ pos n) × (n ≤ valid_until) × (valid_until ≤ n + 300)
unfolding require_deadline now_u64
require_deadline_lem (pos n) v e = (n, refl, ground arith, ground arith)
require_deadline_lem (negsuc n) v e = ground arith

module _ (build : Build) (ctx : Context) where
  check_bound_proof_lem :
      (args : Arguments) (d : Bytes)
      → check_bound_proof build args d ≡ ok tt
      → build.groth16_verify_bound
          (sub args.proof_bytes 0 64)
          (sub args.proof_bytes 64 128)
          (sub args.proof_bytes 192 64)
          (args.commitment_new
            ∷ args.commitment_prev
            ∷ encode_u16_field_element args.threshold
            ∷ encode_u16_field_element args.min_distance
            ∷ (digest_limbs d).0
            ∷ (digest_limbs d).1
            ∷ [])
        ≡ true
  unfolding check_bound_proof
  check_bound_proof_lem args d e = ground arith

  is_at_lem : (account : Foreign) (k : Pubkey) → is_at ctx account k ≡ true → account.key ≡ k
  unfolding is_at
  is_at_lem account k h = ground (arith, bytes_eq_iff account.key k)

  action_of_lem :
      (identity : Foreign) (args : Arguments) (counter : ℕ) {key mint mint' : Pubkey}
      → identity.key ≡ key
      → mint ≡ mint'
      → action_of identity args mint counter ≡ record {
        identity = key;
        mint = mint';
        counter = counter;
        projection = from_le_bytes (sub identity.data_bytes 583 2);
        commitment_new = args.commitment_new;
        commitment_prev = args.commitment_prev;
        threshold = args.threshold;
        min_distance = args.min_distance;
        valid_until = args.valid_until;
      }
  unfolding action_of
  action_of_lem identity args counter h k = cc

  -- A bound result is new at its address, its digest is that of its own request, a proof verified
  -- for the digest's limbs, its counter is the wallet's in the anchor program and its previous
  -- commitment that of the wallet's identity; it is the only change to the accounts, and only a
  -- build with the feature stores one.
  pub verify_proof_bound_lem :
      (w : Pubkey) (now : ℤ) (args : Arguments) (identity request_state : Foreign) (s : Verifier)
      {t : Verifier}
      → verify_proof_bound build ctx w now args identity request_state s ≡ ok t
      → (r : BoundVerificationResult) × (t.bound_results ≡ ((w, args.nonce), r) ∷ s.bound_results)
        × IsBound build ctx (w, args.nonce) r
        × (lookup s.bound_results (w, args.nonce) ≡ none)
        × (t.challenges ≡ s.challenges)
        × (t.results ≡ s.results)
        × (read_counter ctx.hash request_state.data_bytes w (ctx.request_state_bump w)
            ≡ some r.counter)
        × (is_identity ctx w r.commitment_prev identity.data_bytes ≡ true)
        × (build.request_bound_v1 ≡ true)
  unfolding verify_proof_bound action_of
  verify_proof_bound_lem w now args identity request_state s {t} e =
      elim (Result-cases (require_deadline now args.valid_until)) [
        | inr (x, q) ↦ ground arith
        | inl (u, q) ↦
            elim (Result-cases (validate_hamming_bounds args.threshold args.min_distance)) [
              | inr (x, v) ↦ ground arith
              | inl (u', v) ↦
                  elim (Option-cases
                    (read_counter ctx.hash request_state.data_bytes w (ctx.request_state_bump w))) [
                      | inl c ↦ ground arith
                      | inr (counter, c) ↦
                          elim (Option-cases (
                            request_digest ctx.hash ctx.deployment_domain ctx.verifier_id
                              ctx.anchor_id w args.nonce
                              (action_of identity args (sub identity.data_bytes 94 32) counter))) [
                                | inl d ↦ ground arith
                                | inr (digest, d) ↦
                                    elim (Result-cases (check_bound_proof build args digest)) [
                                      | inr (x, p) ↦ ground arith
                                      | inl (u'', p) ↦
                                          let deadline =
                                            require_deadline_lem now args.valid_until q in
                                          let bounds =
                                            (validate_hamming_bounds_iff args.threshold
                                                args.min_distance).0
                                              v in
                                          let r : BoundVerificationResult = record {
                                            version = 1;
                                            wallet = w;
                                            nonce = args.nonce;
                                            commitment_new = args.commitment_new;
                                            commitment_prev = args.commitment_prev;
                                            threshold = args.threshold;
                                            min_distance = args.min_distance;
                                            counter = counter;
                                            valid_until = args.valid_until;
                                            verified_at = now;
                                            request_digest = digest;
                                            bump = build.bound_result_bump (w, args.nonce);
                                          } in
                                          let nonzero : (args.nonce ≢ zeros 32)
                                              × (args.commitment_new ≢ zeros 32)
                                              × (args.commitment_prev ≢ zeros 32) =
                                            ground (
                                              arith,
                                              bytes_eq_iff args.nonce (zeros 32),
                                              bytes_eq_iff args.commitment_new (zeros 32),
                                              bytes_eq_iff args.commitment_prev (zeros 32),
                                            ) in
                                          let keys : (identity.key ≡ ctx.identity_key w)
                                              × (sub identity.data_bytes 94 32 ≡ ctx.mint_key w) =
                                            ground (
                                              arith,
                                              is_at_lem identity (ctx.identity_key w),
                                              bytes_eq_iff (sub identity.data_bytes 94 32)
                                                  (ctx.mint_key w),
                                            ) in
                                          (
                                            r,
                                            ground arith,
                                            bound (from_le_bytes (sub identity.data_bytes 583 2))
                                                deadline.0 (sub args.proof_bytes 0 64)
                                                (sub args.proof_bytes 64 128)
                                                (sub args.proof_bytes 192 64) refl refl nonzero.0
                                                nonzero.1 nonzero.2 bounds.0 bounds.1 bounds.2
                                                deadline.1 deadline.2 deadline.3
                                                (rw
                                                  (← action_of_lem identity args counter keys.0
                                                    keys.1)
                                                  d)
                                                (check_bound_proof_lem args digest p),
                                            elim (Option-cases
                                                (lookup s.bound_results (w, args.nonce))) [
                                                  | inl n ↦ n
                                                  | inr (a, n) ↦ ground arith
                                                ],
                                            ground arith,
                                            ground arith,
                                            c,
                                            ground arith,
                                            ground arith,
                                          )
                                    ]
                              ]
                    ]
            ]
      ]
