-- ===== src/Update/Proofs/Answers.antt =====
-- The anchor accepts what the verifier stores for a request: both programs hash the same action.
use protocol_core.Base.{
  ℕ, ◌+◌, ◌≤◌, ◌<◌, ◌^◌, ◌≡◌, ◌≢◌, ap, sym, ◌∙◌, inl, inr, true, some, ◌∷◌, length, arith, ok,
  Result-cases, Option-cases,
}
use protocol_core.Base.Int.{ℤ, pos, negsuc, ◌≤ℤ◌, as_u64}
use protocol_core.Base.Words.{Bytes, to_le_bytes, length-to_le_bytes}
use protocol_core.Base.Bytes.{bytes_eq_iff, sub, put, zeros}
use protocol_core.Chain.{Pubkey}
use protocol_core.Update.Proofs.Accepts.{check_address_accepts}
use protocol_core.Request.{BoundVerificationResult, request_digest, read_counter, is_request_state}
use protocol_core.Verifier.State.{Verifier, Build}
use protocol_core.Verifier.Proof.{validate_hamming_bounds}
use protocol_core.Verifier
use protocol_core.Verifier.Bound.{
  Context, Arguments, Foreign, verify_proof_bound, require_deadline, check_bound_proof,
}
use protocol_core.Update.State.{Environment, Account, IdentityState}
use protocol_core.Update.Layout.{view_identity, deserialize_identity}
use protocol_core.Update.Proofs.{bound_result, advance, action_of, is_in_time}

-- The verifier's view of the same addresses, ids and hash.
abbrev pub context_of : Environment → Context
context_of env = record {
  verifier_id = env.verifier_id;
  anchor_id = env.id;
  deployment_domain = env.deployment_domain;
  identity_key = env.identity_key;
  identity_bump = env.identity_bump;
  mint_key = env.mint_key;
  request_state_key = env.request_state_key;
  request_state_bump = env.request_state_bump;
  hash = env.hash;
}

abbrev pub foreign : Account → Foreign
foreign a = record { key = a.key; owner = a.owner; data_bytes = a.data_bytes }

-- What the verifier leaves behind, with the counter and the digest that it found.
abbrev result_of : Build → Pubkey → ℤ → Arguments → ℕ → Bytes → BoundVerificationResult
result_of build wallet now args counter digest = record {
  version = 1;
  wallet = wallet;
  nonce = args.nonce;
  commitment_new = args.commitment_new;
  commitment_prev = args.commitment_prev;
  threshold = args.threshold;
  min_distance = args.min_distance;
  counter = counter;
  valid_until = args.valid_until;
  verified_at = now;
  request_digest = digest;
  bump = build.bound_result_bump (wallet, args.nonce);
}

deadline_nonzero :
    (now : ℤ) (valid_until : ℕ) → require_deadline now valid_until ≡ ok tt → valid_until ≢ 0
unfolding require_deadline Verifier.Bound.now_u64
deadline_nonzero (pos n) v e h = ground arith
deadline_nonzero (negsuc n) v e h = ground arith

module _ (build : Build) (ctx : Context) (wallet : Pubkey) (now : ℤ) (args : Arguments)
    (identity request_state : Foreign) (s : Verifier) where
  answered :
      {t : Verifier}
      → verify_proof_bound build ctx wallet now args identity request_state s ≡ ok t
      → (counter : ℕ) × (digest : Bytes) × (read_counter ctx.hash request_state.data_bytes wallet
            (ctx.request_state_bump wallet)
          ≡ some counter)
        × (request_digest ctx.hash ctx.deployment_domain ctx.verifier_id ctx.anchor_id wallet
              args.nonce
              (Verifier.Bound.action_of identity args (sub identity.data_bytes 94 32) counter)
            ≡ some digest)
        × (t.bound_results
            ≡ ((wallet, args.nonce), result_of build wallet now args counter digest)
              ∷ s.bound_results)
        × (args.nonce ≢ zeros 32)
        × (args.valid_until ≢ 0)
        × (request_state.key ≡ ctx.request_state_key wallet)
        × (request_state.owner ≡ ctx.anchor_id)
  unfolding verify_proof_bound Verifier.Bound.is_at
  answered {t} e = elim (Result-cases (require_deadline now args.valid_until)) [
    | inr (x, q) ↦ ground arith
    | inl (u, q) ↦ elim (Result-cases (validate_hamming_bounds args.threshold args.min_distance)) [
      | inr (x, v) ↦ ground arith
      | inl (u', v) ↦
          elim (Option-cases (
            read_counter ctx.hash request_state.data_bytes wallet
              (ctx.request_state_bump wallet))) [
                | inl c ↦ ground arith
                | inr (counter, c) ↦
                    elim (Option-cases (
                      request_digest ctx.hash ctx.deployment_domain ctx.verifier_id ctx.anchor_id
                        wallet args.nonce
                        (Verifier.Bound.action_of identity args (sub identity.data_bytes 94 32)
                          counter))) [
                            | inl d ↦ ground arith
                            | inr (digest, d) ↦
                                elim (Result-cases (check_bound_proof build args digest)) [
                                  | inr (x, p) ↦ ground arith
                                  | inl (u'', p) ↦ (
                                    counter,
                                    digest,
                                    c,
                                    d,
                                    ground arith,
                                    ground (arith, bytes_eq_iff args.nonce (zeros 32)),
                                    deadline_nonzero now args.valid_until q,
                                    ground (
                                      arith,
                                      bytes_eq_iff request_state.key (ctx.request_state_key wallet),
                                    ),
                                    ground (arith, bytes_eq_iff request_state.owner ctx.anchor_id),
                                  )
                                ]
                          ]
              ]
    ]
  ]

-- The anchor reads the mint and the projection from the places where the verifier reads them.
same_action :
    (discriminator : Bytes) (identity : Account) (i : IdentityState) (args : Arguments)
    (build : Build) (wallet : Pubkey) (now : ℤ) (counter : ℕ) (digest : Bytes)
    → deserialize_identity discriminator identity.data_bytes ≡ some i
    → action_of identity.key i (result_of build wallet now args counter digest) counter
      ≡ Verifier.Bound.action_of (foreign identity) args (sub identity.data_bytes 94 32) counter
unfolding action_of Verifier.Bound.action_of deserialize_identity view_identity
same_action discriminator identity i args build wallet now counter digest e = ground arith

advance_succeeds :
    (hash : Bytes → Bytes) (d : Bytes) (wallet : Pubkey) (bump counter : ℕ)
    → read_counter hash d wallet bump ≡ some counter
    → counter + 1 < 2 ^ 64
    → advance d counter ≡ ok (put d 41 (to_le_bytes 8 (counter + 1)))
unfolding advance read_counter is_request_state
advance_succeeds hash d wallet bump counter e h = ground (arith, length-to_le_bytes 8 (counter + 1))

in_time :
    (build : Build) (wallet : Pubkey) (now : ℤ) (args : Arguments) (counter : ℕ) (digest : Bytes)
    (n : ℕ)
    → now ≤ℤ pos n
    → n ≤ args.valid_until
    → args.valid_until ≢ 0
    → is_in_time (pos n) (result_of build wallet now args counter digest) ≡ true
unfolding is_in_time as_u64
in_time build wallet now args counter digest n h k nz = ground arith

module _ (build : Build) (env : Environment) (discriminator : Bytes) (wallet : Pubkey) (now : ℤ)
    (n : ℕ) (args : Arguments) (identity request_state account : Account) (s : Verifier)
    (r : BoundVerificationResult) (i : IdentityState) where
  -- When the verifier answers a wallet's request and stores a bound result, then the anchor, in a
  -- build with the feature, accepts it: it takes the two commitments of the proof and moves the
  -- request counter on by one. The conditions: the account holds this result in 198 bytes at its
  -- derived address and is the verifier's, the identity account and the counter's account are as
  -- the verifier saw them, the identity's bytes decode, the clock has not gone back and is not past
  -- the deadline, and the counter is below its maximum.
  pub bound_result-verify_proof_bound :
      {t : Verifier}
      → verify_proof_bound build
          (context_of env)
          wallet
          now
          args
          (foreign identity)
          (foreign request_state)
          s
        ≡ ok t
      → t.bound_results ≡ ((wallet, args.nonce), r) ∷ s.bound_results
      → env.request_bound_v1 ≡ true
      → deserialize_identity discriminator identity.data_bytes ≡ some i
      → account.owner ≡ env.verifier_id
      → length account.data_bytes ≡ 198
      → env.deserialize_bound account.data_bytes ≡ some r
      → env.bound_result_key wallet r.nonce r.bump ≡ some account.key
      → now ≤ℤ pos n
      → n ≤ args.valid_until
      → r.counter + 1 < 2 ^ 64
      → bound_result env wallet (pos n) identity.key i account request_state
        ≡ ok (record {
          commitment_new = args.commitment_new;
          commitment_prev = args.commitment_prev;
          bound_nonce = some args.nonce;
          request_bytes = put request_state.data_bytes 41 (to_le_bytes 8 (r.counter + 1));
        })
  unfolding bound_result
  bound_result-verify_proof_bound {t} e stored on reads owner size held at past alive small =
      let (counter, digest, c, d, made, nonce, deadline, key, program) =
        answered build (context_of env) wallet now args (foreign identity) (foreign request_state) s
          e in
      let same : r ≡ result_of build wallet now args counter digest = cc (stored, made) in
      let counted : r.counter ≡ counter = ap (λ (x : BoundVerificationResult). x.counter) same in
      let q = result_of build wallet now args counter digest in
      let found : env.deserialize_bound account.data_bytes ≡ some q = held ∙ ap some same in
      let derived : env.bound_result_key wallet q.nonce q.bump ≡ some account.key =
        ap (λ (x : BoundVerificationResult). env.bound_result_key wallet x.nonce x.bump) (sym same)
        ∙ at in
      let asked : request_digest env.hash env.deployment_domain env.verifier_id env.id wallet
            args.nonce (action_of identity.key i q counter)
          ≡ some digest =
        ap (request_digest env.hash env.deployment_domain env.verifier_id env.id wallet args.nonce)
          (same_action discriminator identity i args build wallet now counter digest reads)
        ∙ d in
      let below : counter + 1 < 2 ^ 64 = rw (← counted) small in
      rw (counted) (
        ground (
          arith,
          found,
          c,
          asked,
          check_address_accepts env.bound_result_key wallet q.nonce q.bump account derived,
          in_time build wallet now args counter digest n past alive deadline,
          advance_succeeds env.hash request_state.data_bytes wallet (env.request_state_bump wallet)
              counter c below,
          bytes_eq_iff account.owner env.verifier_id,
          bytes_eq_iff request_state.key (env.request_state_key wallet),
          bytes_eq_iff request_state.owner env.id,
          bytes_eq_iff wallet wallet,
          bytes_eq_iff args.nonce (zeros 32),
          bytes_eq_iff digest digest,
        ))
