-- ===== src/Mint/Issue/Amounts.antt =====
-- The tokens of a mint.
use protocol_core.Base.{ℕ, ◌+◌, ◌≡◌, ◌≢◌, ap, ◌∙◌, List, arith, ok}
use protocol_core.Base.Int.{ℤ}
use protocol_core.Base.Words.{Bytes}
use protocol_core.Chain.{Pubkey}
use protocol_core.Update.State.{Environment}
use protocol_core.Mint.State.{Cell, Store, Tokens, World, Meta}
use protocol_core.Mint.State.Laws.{TokenLaws}
use protocol_core.Mint.Token.Laws.{issue_token-adds, issue_token-others_stay}
use protocol_core.Mint.Issue.{new_identity, mint_anchor}
use protocol_core.Mint.Issue.Laws.{AreApart, counted_same, exit_identity_ne}
use protocol_core.Mint.Issue.Steps.{Steps, steps, pay_accounts}

module _ (env : Environment) (tokens : Tokens) (amount : Cell → ℕ) (laws : TokenLaws tokens amount)
    (user token_account : Pubkey) (now : ℤ) (initial_commitment : Bytes) (remaining : List Meta)
    (w : World) {t : World}
    (done : mint_anchor env tokens user token_account now initial_commitment remaining w
      ≡ ok t) where
  -- What follows the calls leaves other accounts alone.
  final_same :
      (m : Steps env tokens user token_account now initial_commitment remaining w t) (x : Pubkey)
      → AreApart env user x
      → t.store.accounts x ≡ m.issued.accounts x
  final_same m x h =
      ap (λ (s : Store). s.accounts x) m.exits
      ∙ exit_identity_ne env (env.identity_key user)
          (new_identity env user now initial_commitment m.fees.projection_policy.current) m.paid x
          h.no_identity
      ∙ ap (λ (f : Pubkey → Cell). f x)
          (pay_accounts env user m.fees.verification_fee m.issued m.pays)

  -- A mint adds one token to the account that it names, and leaves the tokens of every other account
  -- as they were.
  pub mint_anchor_amounts :
      (other : Pubkey)
      → AreApart env user token_account
      → AreApart env user other
      → other ≢ token_account
      → (amount (t.store.accounts token_account) ≡ amount (w.store.accounts token_account) + 1)
        × (amount (t.store.accounts other) ≡ amount (w.store.accounts other))
  mint_anchor_amounts other h k ne =
      let m = steps env tokens user token_account now initial_commitment remaining w done in
      (
        omega (
          arith,
          ap amount (final_same m token_account h),
          issue_token-adds tokens amount laws env user token_account m.counted m.issues,
          ap amount (
              counted_same env tokens user token_account now initial_commitment remaining w m
                token_account h),
        ),
        ap amount (final_same m other k)
            ∙ issue_token-others_stay tokens amount laws env user token_account m.counted m.issues
                other ne
            ∙ ap amount (
                counted_same env tokens user token_account now initial_commitment remaining w m
                  other k),
      )
