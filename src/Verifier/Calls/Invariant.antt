-- ===== src/Verifier/Calls/Invariant.antt =====
-- Through every run of calls the accounts attest what they should.
use protocol_core.Base.{◌≡◌, sym, subst, inl, inr, List, [], ◌∷◌, arith, ok, Result-cases}
use protocol_core.Base.Words.{Bytes}
use protocol_core.Chain.{Pubkey}
use protocol_core.Verifier.State.{Verifier, Build}
use protocol_core.Verifier.Proof.{verify_and_store, verify_proof, verify_proof_compact}
use protocol_core.Verifier.Challenges.Laws.{
  IsChallenge, create_challenge_lem, close_challenge_lem, close_verification_result_lem,
  close_bound_verification_result_lem,
}
use protocol_core.Verifier.Bound.{Context}
use protocol_core.Verifier.Bound.Laws.{IsBound, verify_proof_bound_lem}
use protocol_core.Verifier.Calls.{
  Call, create, verify, verify_compact, verify_bound, close_created, close_result, close_bound,
  exec, run,
}
use protocol_core.Verifier.Calls.Attested.{Each, Each-remove, IsAttested, verify_and_store_lem}

pub record IsSound (build : Build) (ctx : Context) (s : Verifier) : Type 0 where
  pub challenges_sound : Each IsChallenge s.challenges
  pub results_sound : Each (IsAttested build) s.results
  pub bound_results_sound : Each (IsBound build ctx) s.bound_results

module _ (build : Build) (ctx : Context) where
  stored-IsSound :
      (w : Pubkey) (now : _) (p i0 i1 i2 i3 nonce : Bytes) (s : Verifier) {t : Verifier}
      → IsSound build ctx s
      → verify_and_store build w now p i0 i1 i2 i3 nonce s ≡ ok t
      → IsSound build ctx t
  unfolding Each
  stored-IsSound w now p i0 i1 i2 i3 nonce s h e =
      let f = verify_and_store_lem build w now p i0 i1 i2 i3 nonce s e in
      record {
        challenges_sound = subst (Each IsChallenge) (sym f.4) h.challenges_sound;
        results_sound = subst (Each (IsAttested build)) (sym f.1) (f.2, h.results_sound);
        bound_results_sound = subst (Each (IsBound build ctx)) (sym f.5) h.bound_results_sound;
      }

  vector-IsSound :
      (w : Pubkey) (now : _) (p : Bytes) (inputs : List Bytes) (nonce : Bytes) (s : Verifier)
      {t : Verifier}
      → IsSound build ctx s
      → verify_proof build w now p inputs nonce s ≡ ok t
      → IsSound build ctx t
  unfolding verify_proof
  vector-IsSound w now p [] nonce s h e = ground arith
  vector-IsSound w now p (i0 ∷ []) nonce s h e = ground arith
  vector-IsSound w now p (i0 ∷ i1 ∷ []) nonce s h e = ground arith
  vector-IsSound w now p (i0 ∷ i1 ∷ i2 ∷ []) nonce s h e = ground arith
  vector-IsSound w now p (i0 ∷ i1 ∷ i2 ∷ i3 ∷ []) nonce s h e =
      stored-IsSound w now p i0 i1 i2 i3 nonce s h e
  vector-IsSound w now p (i0 ∷ i1 ∷ i2 ∷ i3 ∷ i4 ∷ is) nonce s h e = ground arith

  pub exec-IsSound :
      (c : Call) (s : Verifier) {t : Verifier}
      → IsSound build ctx s
      → exec build ctx c s ≡ ok t
      → IsSound build ctx t
  unfolding exec Each verify_proof_compact
  exec-IsSound (create w nonce now) s h e =
      let f = create_challenge_lem build w nonce now s e in
      record {
        challenges_sound = subst (Each IsChallenge) (sym f.1) (f.2, h.challenges_sound);
        results_sound = subst (Each (IsAttested build)) (sym f.4) h.results_sound;
        bound_results_sound = subst (Each (IsBound build ctx)) (sym f.5) h.bound_results_sound;
      }
  exec-IsSound (verify w now p inputs nonce) s h e = vector-IsSound w now p inputs nonce s h e
  exec-IsSound (verify_compact w now nonce p new prev t m) s h e =
      stored-IsSound w now p new prev _ _ nonce s h e
  exec-IsSound (verify_bound w now args identity request_state) s h e =
      let f = verify_proof_bound_lem build ctx w now args identity request_state s e in
      record {
        challenges_sound = subst (Each IsChallenge) (sym f.4) h.challenges_sound;
        results_sound = subst (Each (IsAttested build)) (sym f.5) h.results_sound;
        bound_results_sound =
            subst (Each (IsBound build ctx)) (sym f.1) (f.2, h.bound_results_sound);
      }
  exec-IsSound (close_created w address) s h e =
      let f = close_challenge_lem w address s e in
      subst (IsSound build ctx) (sym f.3) (record {
        challenges_sound = Each-remove IsChallenge s.challenges address h.challenges_sound;
        results_sound = h.results_sound;
        bound_results_sound = h.bound_results_sound;
      })
  exec-IsSound (close_result w address) s h e =
      let f = close_verification_result_lem w address s e in
      subst (IsSound build ctx) (sym f.3) (record {
        challenges_sound = h.challenges_sound;
        results_sound = Each-remove (IsAttested build) s.results address h.results_sound;
        bound_results_sound = h.bound_results_sound;
      })
  exec-IsSound (close_bound w nonce) s h e =
      subst (IsSound build ctx) (sym (close_bound_verification_result_lem build w nonce s e))
        (record {
          challenges_sound = h.challenges_sound;
          results_sound = h.results_sound;
          bound_results_sound =
              Each-remove (IsBound build ctx) s.bound_results (w, nonce) h.bound_results_sound;
        })

  -- Whatever calls are made in whatever order, on sound accounts: every challenge expires 300
  -- seconds after its creation, every result account belongs to the wallet and the nonce of its
  -- address, holds numbers within the bounds and came from a proof that verified for them, and
  -- every bound result holds the digest of its own request and a proof for that digest.
  pub run-IsSound :
      (cs : List Call) (s : Verifier) → IsSound build ctx s → IsSound build ctx (run build ctx s cs)
  unfolding run
  run-IsSound [] s h = h
  run-IsSound (c ∷ cs) s h = elim (Result-cases (exec build ctx c s)) [
    | inl (t, e) ↦ rw e (run-IsSound cs t (exec-IsSound c s h e))
    | inr (x, e) ↦ rw e (run-IsSound cs s h)
  ]
