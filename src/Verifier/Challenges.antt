-- ===== src/Verifier/Challenges.antt =====
-- programs/entros-verifier/src/lib.rs: `create_challenge` and the instructions that close accounts.
pub mod Laws
use protocol_core.Base.{
  ℕ, suc, ◌≡◌, Bool, true, false, not, Option, none, some, List, [], ◌∷◌, Result, ok, err, verifier,
  framework, VerifierError, FrameworkError, require, ◌>>=◌, ◌>>◌, ok_or, ◌==◌,
}
use protocol_core.Base.Int.{ℤ, pos, checked_add}
use protocol_core.Base.Words.{Bytes}
use protocol_core.Base.Bytes.{bytes_eq, zeros}
use protocol_core.Chain.{Pubkey}
use protocol_core.Request.{BoundVerificationResult}
use protocol_core.Verifier.State.{
  Verifier, Challenge, VerificationResult, Event, challenge_created, Build, Seeds, lookup, remove,
}

-- `DEFAULT_CHALLENGE_EXPIRY`
abbrev pub default_challenge_expiry : ℤ
default_challenge_expiry = pos 300

unfoldable pub create_challenge : Build → Pubkey → Bytes → ℤ → Verifier → Result Verifier
create_challenge build challenger nonce now s = do
  require (elim (lookup s.challenges (challenger, nonce)) [ none ↦ true | some a ↦ false ])
      (framework FrameworkError.account_in_use)
  require (not (bytes_eq nonce (zeros 32))) (verifier VerifierError.invalid_nonce)
  expires_at ←
      ok_or (checked_add now default_challenge_expiry) (verifier VerifierError.arithmetic_overflow)
  let challenge : Challenge = record {
    challenger = challenger;
    nonce = nonce;
    created_at = now;
    expires_at = expires_at;
    used = false;
    bump = build.challenge_bump (challenger, nonce);
  }
  ok (record s {
    challenges = ((challenger, nonce), challenge) ∷ s.challenges;
    events = challenge_created challenger nonce expires_at ∷ s.events;
  })

-- The account is the caller's choice; its stored challenger must be the signer.
unfoldable pub close_challenge : Pubkey → Seeds → Verifier → Result Verifier
close_challenge challenger address s = do
  challenge ← ok_or (lookup s.challenges address) (framework FrameworkError.account_not_initialized)
  require (bytes_eq challenge.challenger challenger) (framework FrameworkError.constraint_violated)
  ok (record s { challenges = remove s.challenges address })

unfoldable pub close_verification_result : Pubkey → Seeds → Verifier → Result Verifier
close_verification_result wallet address s = do
  result ← ok_or (lookup s.results address) (framework FrameworkError.account_not_initialized)
  require (bytes_eq result.verifier wallet) (framework FrameworkError.constraint_violated)
  ok (record s { results = remove s.results address })

-- Here the seeds fix the account: it is that of the signer and the nonce.
unfoldable pub close_bound_verification_result : Build → Pubkey → Bytes → Verifier → Result Verifier
close_bound_verification_result build wallet nonce s = do
  result ←
      ok_or (lookup s.bound_results (wallet, nonce))
        (framework FrameworkError.account_not_initialized)
  require (result.bump == build.bound_result_bump (wallet, nonce))
      (framework FrameworkError.constraint_violated)
  require (bytes_eq result.wallet wallet) (framework FrameworkError.constraint_violated)
  ok (record s { bound_results = remove s.bound_results (wallet, nonce) })
