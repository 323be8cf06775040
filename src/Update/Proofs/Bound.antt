-- ===== src/Update/Proofs/Bound.antt =====
-- What the bound branch accepts.
use protocol_core.Base.{
  ℕ, ◌+◌, ◌≡◌, ap, sym, ◌∙◌, inl, inr, true, some, arith, ok, Result-cases, Option-cases,
}
use protocol_core.Base.Int.{ℤ}
use protocol_core.Base.Bytes.{bytes_eq_iff}
use protocol_core.Chain.{Pubkey}
use protocol_core.Request.{BoundVerificationResult, read_counter, request_digest}
use protocol_core.Update.State.{Environment, Account, IdentityState}
use protocol_core.Update.Proofs.{
  Checked, check_address, bound_result, advance, action_of, is_in_time,
}
use protocol_core.Update.Proofs.Laws.{advance_lem, check_address_lem}

-- A bound result that is accepted is the verifier program's, for this wallet and the wallet's next
-- request: it stands at the address of its own nonce, its digest is that of the request that the
-- identity stands for, and it is in time. The counter then reads one more, so no other result for
-- the same request is accepted.
pub bound_result_lem :
    (env : Environment) (wallet : Pubkey) (now : ℤ) (identity_key : Pubkey) (i : IdentityState)
    (account request_state : Account) {c : Checked}
    → bound_result env wallet now identity_key i account request_state ≡ ok c
    → (r : BoundVerificationResult) × (env.deserialize_bound account.data_bytes ≡ some r)
      × (account.owner ≡ env.verifier_id)
      × (r.wallet ≡ wallet)
      × (env.bound_result_key wallet r.nonce r.bump ≡ some account.key)
      × (request_digest env.hash env.deployment_domain env.verifier_id env.id wallet r.nonce
            (action_of identity_key i r r.counter)
          ≡ some r.request_digest)
      × (is_in_time now r ≡ true)
      × (read_counter env.hash request_state.data_bytes wallet (env.request_state_bump wallet)
          ≡ some r.counter)
      × (read_counter env.hash c.request_bytes wallet (env.request_state_bump wallet)
          ≡ some (r.counter + 1))
      × (c.commitment_new ≡ r.commitment_new)
      × (c.commitment_prev ≡ r.commitment_prev)
unfolding bound_result
bound_result_lem env wallet now identity_key i account request_state {c} e =
    let counted =
      read_counter env.hash request_state.data_bytes wallet (env.request_state_bump wallet) in
    elim (Option-cases (env.deserialize_bound account.data_bytes)) [
      | inl n ↦ ground arith
      | inr (r, n) ↦ elim (Option-cases counted) [
        | inl k ↦ ground arith
        | inr (counter, k) ↦
            elim (Result-cases (check_address env.bound_result_key wallet r.nonce r.bump account)) [
              | inr (x, a) ↦ ground arith
              | inl (u, a) ↦
                  elim (Option-cases (
                    request_digest env.hash env.deployment_domain env.verifier_id env.id wallet
                      r.nonce (action_of identity_key i r counter))) [
                        | inl d ↦ ground arith
                        | inr (digest, d) ↦
                            elim (Result-cases (advance request_state.data_bytes counter)) [
                              | inr (x, b) ↦ ground arith
                              | inl (bytes, b) ↦
                                  let same : r.counter ≡ counter = ground arith in
                                  let asked = λ (n : ℕ).
                                    request_digest env.hash env.deployment_domain env.verifier_id
                                      env.id wallet r.nonce (action_of identity_key i r n) in
                                  let digests : digest ≡ r.request_digest =
                                    ground (arith, bytes_eq_iff r.request_digest digest) in
                                  let after =
                                    advance_lem env.hash request_state.data_bytes wallet
                                      (env.request_state_bump wallet) counter k b in
                                  (
                                    r,
                                    n,
                                    ground (arith, bytes_eq_iff account.owner env.verifier_id),
                                    ground (arith, bytes_eq_iff r.wallet wallet),
                                    check_address_lem env.bound_result_key wallet r.nonce r.bump
                                        account a,
                                    ap asked same ∙ d ∙ ap some digests,
                                    ground arith,
                                    k ∙ ap some (sym same),
                                    ground (arith, after, same),
                                    ground arith,
                                    ground arith,
                                  )
                            ]
                      ]
            ]
      ]
    ]
