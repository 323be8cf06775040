-- ===== src/Mint/Migrate/Amounts.antt =====
-- The tokens of a migration.
use protocol_core.Base.{ℕ, ◌+◌, ◌≡◌, ◌≢◌, ap, sym, ◌∙◌, inl, inr, List, arith, ok, Option-cases}
use protocol_core.Chain.{Pubkey}
use protocol_core.Update.State.{Environment}
use protocol_core.Mint.State.{Cell, Store, Cpi, Tokens, World, Meta, exit_identity, run_cpis}
use protocol_core.Mint.State.Laws.{TokenLaws, init_identity_ne}
use protocol_core.Mint.Token.Laws.{issue_token-adds, issue_token-others_stay, run_cpis-others_stay}
use protocol_core.Mint.Issue.Laws.{exit_identity_ne}
use protocol_core.Mint.Issue.Steps.{pay_accounts}
use protocol_core.Mint.Migrate.{migrated_identity, retire_calls, migrate_identity}
use protocol_core.Mint.Migrate.Laws.{both_ne, Steps, steps}
use protocol_core.Mint.Migrate.Moved.{IsElsewhere, close_cell_ne}

module _ (env : Environment) (tokens : Tokens) (amount : Cell → ℕ) (laws : TokenLaws tokens amount)
    (user wallet_old token_account token_account_old : Pubkey) where
  retire_takes :
      (s : Store) {t : Store}
      → run_cpis tokens (retire_calls env wallet_old user token_account_old) s ≡ ok t
      → amount (s.accounts token_account_old) ≡ amount (t.accounts token_account_old) + 1
  unfolding run_cpis
  retire_takes s {t} e =
      let burning = Cpi.burn (env.mint_key wallet_old) token_account_old user 1 in
      let closing = Cpi.close_account (env.mint_key wallet_old) user env.mint_authority_key in
      elim (Option-cases (tokens.invoke_cpi burning s)) [
        | inl n ↦ ground arith
        | inr (m, n) ↦ elim (Option-cases (tokens.invoke_cpi closing m)) [
          | inl k ↦ ground arith
          | inr (l, k) ↦ ground (
            arith,
            laws.burn_takes (env.mint_key wallet_old) token_account_old user 1 s m n,
            laws.others_stay closing token_account_old m l k (λ h. h),
          )
        ]
      ]

  retire-others_stay :
      (a : Pubkey) (s : Store) {t : Store}
      → run_cpis tokens (retire_calls env wallet_old user token_account_old) s ≡ ok t
      → a ≢ token_account_old
      → amount (t.accounts a) ≡ amount (s.accounts a)
  retire-others_stay a s {t} e h =
      run_cpis-others_stay tokens amount laws (retire_calls env wallet_old user token_account_old) a
        s {t = t} e (λ p. h (sym p), (λ p. p, tt))

  module _ (remaining : List Meta) (w : World) {t : World}
      (done : migrate_identity env tokens user wallet_old token_account token_account_old remaining
          w
        ≡ ok t) where
    final_same :
        (m : Steps env tokens user wallet_old token_account token_account_old remaining w t)
        (x : Pubkey)
        → IsElsewhere env user wallet_old x
        → t.store.accounts x ≡ m.retired.accounts x
    final_same m x h =
        ap (λ (s : Store). s.accounts x) m.exits
        ∙ close_cell_ne env (env.identity_key wallet_old) wallet_old
            (exit_identity env (env.identity_key user) (migrated_identity env user m.old) m.retired)
            x h.not_old
        ∙ exit_identity_ne env (env.identity_key user) (migrated_identity env user m.old) m.retired
            x h.not_new

    counted_same :
        (m : Steps env tokens user wallet_old token_account token_account_old remaining w t)
        (x : Pubkey)
        → IsElsewhere env user wallet_old x
        → m.counted.accounts x ≡ w.store.accounts x
    counted_same m x h =
        both_ne env wallet_old user m.old remaining m.opened m.counted x m.counts h.not_old_counter
          h.not_counter
        ∙ init_identity_ne env user (env.identity_key user) x w.store m.opens h.not_new

    paid_same :
        (m : Steps env tokens user wallet_old token_account token_account_old remaining w t)
        (x : Pubkey)
        → m.paid.accounts x ≡ m.issued.accounts x
    paid_same m x = ap (λ (f : Pubkey → Cell). f x) (pay_accounts env user m.fee m.issued m.pays)

    -- A migration that succeeds takes one token from the old wallet's account and adds one to the
    -- new one's, and leaves the tokens of every other account as they were: no token is made or
    -- lost. The two token accounts differ, none of the three is an identity or a counter of the two
    -- wallets, and the token program keeps its laws.
    pub migrate_identity_amounts :
        (other : Pubkey)
        → token_account ≢ token_account_old
        → other ≢ token_account
        → other ≢ token_account_old
        → IsElsewhere env user wallet_old token_account
        → IsElsewhere env user wallet_old token_account_old
        → IsElsewhere env user wallet_old other
        → (amount (t.store.accounts token_account) ≡ amount (w.store.accounts token_account) + 1)
          × (amount (w.store.accounts token_account_old)
              ≡ amount (t.store.accounts token_account_old) + 1)
          × (amount (t.store.accounts other) ≡ amount (w.store.accounts other))
    migrate_identity_amounts other ne p q new old rest =
        let m = steps env tokens user wallet_old token_account token_account_old remaining w done in
        let stay = λ (a : Pubkey). retire-others_stay a m.paid m.retires in
        let issue =
          issue_token-others_stay tokens amount laws env user token_account m.counted m.issues in
        (
          omega (
            arith,
            ap amount (final_same m token_account new),
            stay token_account ne,
            ap amount (paid_same m token_account),
            issue_token-adds tokens amount laws env user token_account m.counted m.issues,
            ap amount (counted_same m token_account new),
          ),
          omega (
            arith,
            ap amount (final_same m token_account_old old),
            retire_takes m.paid m.retires,
            ap amount (paid_same m token_account_old),
            issue token_account_old (λ e. ne (sym e)),
            ap amount (counted_same m token_account_old old),
          ),
          omega (
            arith,
            ap amount (final_same m other rest),
            stay other q,
            ap amount (paid_same m other),
            issue other p,
            ap amount (counted_same m other rest),
          ),
        )
