-- ===== src/Verifier/Challenges/Laws.antt =====
-- What the challenge instructions do: a new challenge, and who closes an account.
use protocol_core.Base.{
  ◌≡◌, ◌≢◌, refl, inl, inr, false, none, some, ◌∷◌, arith, ok, Option-cases, ◌↔◌, ap, sym, ◌∙◌,
}
use protocol_core.Base.Int.{ℤ, pos, checked_add, checked_add_exact, ◌+ℤ◌}
use protocol_core.Base.Words.{Bytes}
use protocol_core.Base.Bytes.{bytes_eq_iff, zeros}
use protocol_core.Chain.{Pubkey}
use protocol_core.Verifier.State.{
  Verifier, Challenge, VerificationResult, Build, Seeds, lookup, remove,
}
use protocol_core.Verifier.Challenges.{
  create_challenge, close_challenge, close_verification_result, close_bound_verification_result,
}

-- A challenge stands at its wallet and nonce, is unused and expires 300 seconds after its creation.
pub record IsChallenge (s : Seeds) (c : Challenge) : Type 0 where
  pub of_wallet : c.challenger ≡ s.0
  pub of_nonce : c.nonce ≡ s.1
  pub nonzero : s.1 ≢ zeros 32
  pub expires : c.expires_at ≡ c.created_at +ℤ pos 300
  pub unused : c.used ≡ false

pub create_challenge_lem :
    (build : Build) (w : Pubkey) (nonce : Bytes) (now : ℤ) (s : Verifier) {t : Verifier}
    → create_challenge build w nonce now s ≡ ok t
    → (c : Challenge) × (t.challenges ≡ ((w, nonce), c) ∷ s.challenges)
      × IsChallenge (w, nonce) c
      × (lookup s.challenges (w, nonce) ≡ none)
      × (t.results ≡ s.results)
      × (t.bound_results ≡ s.bound_results)
unfolding create_challenge
create_challenge_lem build w nonce now s {t} e = elim (Option-cases (checked_add now (pos 300))) [
  | inl q ↦ ground arith
  | inr (expires_at, q) ↦
      let c : Challenge = record {
        challenger = w;
        nonce = nonce;
        created_at = now;
        expires_at = expires_at;
        used = false;
        bump = build.challenge_bump (w, nonce);
      } in
      (
        c,
        ground arith,
        record {
          of_wallet = refl;
          of_nonce = refl;
          nonzero = ground (arith, bytes_eq_iff nonce (zeros 32));
          expires = (checked_add_exact now (pos 300) q).0;
          unused = refl;
        },
        elim (Option-cases (lookup s.challenges (w, nonce))) [
          | inl n ↦ n
          | inr (a, n) ↦ ground arith
        ],
        ground arith,
        ground arith,
      )
]

pub close_challenge_lem :
    (w : Pubkey) (address : Seeds) (s : Verifier) {t : Verifier}
    → close_challenge w address s ≡ ok t
    → (c : Challenge) × (lookup s.challenges address ≡ some c)
      × (c.challenger ≡ w)
      × (t ≡ record s { challenges = remove s.challenges address })
unfolding close_challenge
close_challenge_lem w address s e = elim (Option-cases (lookup s.challenges address)) [
  | inl n ↦ ground arith
  | inr (c, n) ↦ (c, n, ground (arith, bytes_eq_iff c.challenger w), ground arith)
]

pub close_verification_result_lem :
    (w : Pubkey) (address : Seeds) (s : Verifier) {t : Verifier}
    → close_verification_result w address s ≡ ok t
    → (r : VerificationResult) × (lookup s.results address ≡ some r)
      × (r.verifier ≡ w)
      × (t ≡ record s { results = remove s.results address })
unfolding close_verification_result
close_verification_result_lem w address s e = elim (Option-cases (lookup s.results address)) [
  | inl n ↦ ground arith
  | inr (r, n) ↦ (r, n, ground (arith, bytes_eq_iff r.verifier w), ground arith)
]

pub close_bound_verification_result_lem :
    (build : Build) (w : Pubkey) (nonce : Bytes) (s : Verifier) {t : Verifier}
    → close_bound_verification_result build w nonce s ≡ ok t
    → t ≡ record s { bound_results = remove s.bound_results (w, nonce) }
unfolding close_bound_verification_result
close_bound_verification_result_lem build w nonce s e =
    elim (Option-cases (lookup s.bound_results (w, nonce))) [
      | inl n ↦ ground arith
      | inr (r, n) ↦ ground arith
    ]

close_challenge_succeeds :
    (w : Pubkey) (address : Seeds) (s : Verifier) (c : Challenge)
    → lookup s.challenges address ≡ some c
    → c.challenger ≡ w
    → close_challenge w address s ≡ ok (record s { challenges = remove s.challenges address })
unfolding close_challenge
close_challenge_succeeds w address s c n h = ground (arith, bytes_eq_iff c.challenger w)

-- A challenge can be closed exactly by its creator, at any time: what `used` and `expires_at` hold
-- does not matter, and the clock is not read. Nothing but that account changes.
pub close_challenge_iff :
    (w : Pubkey) (address : Seeds) (s t : Verifier)
    → (close_challenge w address s ≡ ok t) ↔ (
        (c : Challenge) × (lookup s.challenges address ≡ some c)
        × (c.challenger ≡ w)
        × (t ≡ record s { challenges = remove s.challenges address }))
close_challenge_iff w address s t = (
  λ e. close_challenge_lem w address s e,
  λ f. close_challenge_succeeds w address s f.0 f.1 f.2 ∙ ap ok (sym f.3),
)
