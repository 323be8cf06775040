-- ===== src/Verifier/Calls/Isolation.antt =====
-- One wallet's results are out of the other wallets' reach.
use protocol_core.Base.{
  ◌≡◌, ◌≢◌, refl, sym, ap, subst, ◌∙◌, ◌↔◌, inl, inr, true, some, List, [], ◌∷◌, arith, Result, ok,
  Result-cases, Bool-cases,
}
use protocol_core.Base.Words.{Bytes}
use protocol_core.Base.Bytes.{bytes_eq_iff}
use protocol_core.Chain.{Pubkey}
use protocol_core.Verifier.State.{
  Verifier, Build, Seeds, Accounts, VerificationResult, lookup, remove, seeds_eq,
}
use protocol_core.Verifier.Proof.{verify_and_store, verify_proof, verify_proof_compact}
use protocol_core.Verifier.Challenges.Laws.{
  create_challenge_lem, close_challenge_lem, close_verification_result_lem,
  close_bound_verification_result_lem,
}
use protocol_core.Verifier.Bound.{Context}
use protocol_core.Verifier.Bound.Laws.{verify_proof_bound_lem}
use protocol_core.Verifier.Calls.{
  Call, create, verify, verify_compact, verify_bound, close_created, close_result, close_bound,
  after, exec, run, signer,
}
use protocol_core.Verifier.Calls.Attested.{Each, IsAttested, attested, verify_and_store_lem}
use protocol_core.Verifier.Calls.Invariant.{IsSound, exec-IsSound}

seeds_eq_iff : (a b : Seeds) → (seeds_eq a b ≡ true) ↔ (a ≡ b)
unfolding seeds_eq
seeds_eq_iff a b = ground (arith, bytes_eq_iff a.0 b.0, bytes_eq_iff a.1 b.1)

-- What a lookup finds stands at the address.
Each-lookup :
    {A : Type 0} (P : Seeds → A → Type 0) (xs : Accounts A) (s : Seeds) {a : A}
    → Each P xs
    → lookup xs s ≡ some a
    → P s a
unfolding Each lookup
Each-lookup P [] s h e = ground arith
Each-lookup P ((t, b) ∷ rest) s {a} h e = elim (Bool-cases (seeds_eq t s)) [
  | inl q ↦
      let same : b ≡ a = ground arith in
      subst (λ s'. P s' a) ((seeds_eq_iff t s).0 q) (subst (P t) same h.0)
  | inr q ↦ Each-lookup P rest s h.1 (ground arith)
]

lookup-remove :
    {A : Type 0} (xs : Accounts A) (s s' : Seeds) → s ≢ s' → lookup (remove xs s) s' ≡ lookup xs s'
unfolding lookup remove
lookup-remove [] s s' h = refl
lookup-remove ((t, a) ∷ rest) s s' h =
    ground (arith, lookup-remove rest s s' h, seeds_eq_iff t s, seeds_eq_iff t s')

lookup-other :
    {A : Type 0} (xs : Accounts A) (s s' : Seeds) (a : A)
    → s ≢ s'
    → lookup ((s, a) ∷ xs) s' ≡ lookup xs s'
unfolding lookup
lookup-other xs s s' a h = ground (arith, seeds_eq_iff s s')

owner_of :
    (build : Build) (s : Seeds) (r : VerificationResult) → IsAttested build s r → r.verifier ≡ s.0
owner_of build s r (attested p i2 i3 w n z v c0 c1 d2 d3 b0 b1 b2 l g h) = w

module _ (build : Build) (ctx : Context) (w : Pubkey) (nonce : Bytes) where
  stored_apart :
      (w' : Pubkey) (now : _) (p i0 i1 i2 i3 nonce' : Bytes) (s : Verifier) {t : Verifier}
      → w' ≢ w
      → verify_and_store build w' now p i0 i1 i2 i3 nonce' s ≡ ok t
      → lookup t.results (w, nonce) ≡ lookup s.results (w, nonce)
  stored_apart w' now p i0 i1 i2 i3 nonce' s h e =
      let f = verify_and_store_lem build w' now p i0 i1 i2 i3 nonce' s e in
      ap (λ rs. lookup rs (w, nonce)) f.1
      ∙ lookup-other s.results (w', nonce') (w, nonce) f.0 (λ q. h (ap (λ x. x.0) q))

  vector_apart :
      (w' : Pubkey) (now : _) (p : Bytes) (inputs : List Bytes) (nonce' : Bytes) (s : Verifier)
      {t : Verifier}
      → w' ≢ w
      → verify_proof build w' now p inputs nonce' s ≡ ok t
      → lookup t.results (w, nonce) ≡ lookup s.results (w, nonce)
  unfolding verify_proof
  vector_apart w' now p [] nonce' s h e = ground arith
  vector_apart w' now p (i0 ∷ []) nonce' s h e = ground arith
  vector_apart w' now p (i0 ∷ i1 ∷ []) nonce' s h e = ground arith
  vector_apart w' now p (i0 ∷ i1 ∷ i2 ∷ []) nonce' s h e = ground arith
  vector_apart w' now p (i0 ∷ i1 ∷ i2 ∷ i3 ∷ []) nonce' s h e =
      stored_apart w' now p i0 i1 i2 i3 nonce' s h e
  vector_apart w' now p (i0 ∷ i1 ∷ i2 ∷ i3 ∷ i4 ∷ is) nonce' s h e = ground arith

  exec_apart :
      (c : Call) (s : Verifier) {t : Verifier}
      → IsSound build ctx s
      → signer c ≢ w
      → exec build ctx c s ≡ ok t
      → lookup t.results (w, nonce) ≡ lookup s.results (w, nonce)
  unfolding exec verify_proof_compact
  exec_apart (create w' nonce' now) s i h e =
      ap (λ rs. lookup rs (w, nonce)) (create_challenge_lem build w' nonce' now s e).4
  exec_apart (verify w' now p inputs nonce') s i h e = vector_apart w' now p inputs nonce' s h e
  exec_apart (verify_compact w' now nonce' p new prev t m) s i h e =
      stored_apart w' now p new prev _ _ nonce' s h e
  exec_apart (verify_bound w' now args identity request_state) s i h e =
      ap (λ rs. lookup rs (w, nonce))
        (verify_proof_bound_lem build ctx w' now args identity request_state s e).5
  exec_apart (close_created w' address) s i h e =
      ap (λ v. lookup v.results (w, nonce)) (close_challenge_lem w' address s e).3
  exec_apart (close_result w' address) s i h e =
      let f = close_verification_result_lem w' address s e in
      let at_owner =
        owner_of build address f.0
          (Each-lookup (IsAttested build) s.results address i.results_sound f.1) in
      ap (λ v. lookup v.results (w, nonce)) f.3
      ∙ lookup-remove s.results address (w, nonce) (λ q. h (sym f.2 ∙ at_owner ∙ ap (λ x. x.0) q))
  exec_apart (close_bound w' nonce') s i h e =
      ap (λ v. lookup v.results (w, nonce))
        (close_bound_verification_result_lem build w' nonce' s e)

-- None of the calls is signed by the wallet.
unfoldable pub IsOthers : Pubkey → List Call → Type 0
IsOthers w [] = Unit {0}
IsOthers w (c ∷ cs) = (signer c ≢ w) × IsOthers w cs

-- From sound accounts, calls that others sign neither change nor remove a wallet's result account,
-- nor create one in its name.
pub run_apart :
    (build : Build) (ctx : Context) (w : Pubkey) (nonce : Bytes) (cs : List Call) (s : Verifier)
    → IsSound build ctx s
    → IsOthers w cs
    → lookup (run build ctx s cs).results (w, nonce) ≡ lookup s.results (w, nonce)
unfolding run IsOthers
run_apart build ctx w nonce [] s i h = refl
run_apart build ctx w nonce (c ∷ cs) s i h =
    let found = λ (m : Result Verifier). lookup (run build ctx (after s m) cs).results (w, nonce) in
    elim (Result-cases (exec build ctx c s)) [
      | inl (t, e) ↦
          ap found e
          ∙ run_apart build ctx w nonce cs t (exec-IsSound build ctx c s i e) h.1
          ∙ exec_apart build ctx w nonce c s i h.0 e
      | inr (x, e) ↦ ap found e ∙ run_apart build ctx w nonce cs s i h.1
    ]
