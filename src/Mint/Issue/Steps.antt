-- ===== src/Mint/Issue/Steps.antt =====
-- The steps of a mint, and what each leaves alone.
use protocol_core.Base.{
  ℕ, ◌+◌, ◌≡◌, ◌≢◌, refl, ap, ◌⊎◌, inl, inr, true, false, Option, List, [], ◌∷◌, arith, ok,
  Result-cases, Option-cases, Bool-cases,
}
use protocol_core.Base.Int.{ℤ}
use protocol_core.Base.Words.{Bytes}
use protocol_core.Base.Bytes.{zeros}
use protocol_core.Chain.{Pubkey}
use protocol_core.Receipt.Payload.{ReceiptPurpose, ReceiptSession, verify_validator_receipt}
use protocol_core.Update.State.{Environment}
use protocol_core.Recovery.Shared.{Fees, read_fees, require_nonzero}
use protocol_core.Recovery.Shared.Laws.{require_nonzero_lem}
use protocol_core.Mint.State.{
  Store, Tokens, World, Meta, transfer_lamports, init_identity, exit_identity,
}
use protocol_core.Mint.State.Laws.{
  IsOurs, RuntimeLaws, run_cpis-writes_own, transfer_accounts, IsAdvanced, advance_at_lem,
  advanced_ne,
}
use protocol_core.Mint.Token.{token_calls, issue_token}
use protocol_core.Mint.Issue.{take_counter, new_identity, config_of, pay, mint_anchor}

-- Without the feature no counter is read; with it the one remaining account's moves on.
abbrev pub Counts : Environment → Pubkey → List Meta → Store → Store → Type 0
Counts env user remaining s t =
    ((env.request_bound_v1 ≡ false) × (t ≡ s))
    ⊎ ((env.request_bound_v1 ≡ true)
        × (m : Meta) × (remaining ≡ m ∷ [])
        × IsAdvanced env user user m s t)

pub take_counter_lem :
    (env : Environment) (user : Pubkey) (remaining : List Meta) (s : Store) {t : Store}
    → take_counter env user remaining s ≡ ok t
    → Counts env user remaining s t
unfolding take_counter
take_counter_lem env user [] s e = elim (Bool-cases env.request_bound_v1) [
  | inl on ↦ ground arith
  | inr off ↦ inl (off, ground arith)
]
take_counter_lem env user (m ∷ []) s {t} e = elim (Bool-cases env.request_bound_v1) [
  | inl on ↦ inr (on, m, refl, advance_at_lem env user user m s (ground arith))
  | inr off ↦ inl (off, ground arith)
]
take_counter_lem env user (m ∷ n ∷ ms) s e = elim (Bool-cases env.request_bound_v1) [
  | inl on ↦ ground arith
  | inr off ↦ inl (off, ground arith)
]

pub Counts-ne :
    (env : Environment) (user : Pubkey) (remaining : List Meta) (s t : Store) (x : Pubkey)
    → Counts env user remaining s t
    → x ≢ env.request_state_key user
    → t.accounts x ≡ s.accounts x
Counts-ne env user remaining s t x (inl (off, same)) h = ap (λ (y : Store). y.accounts x) same
Counts-ne env user remaining s t x (inr (on, m, single, a)) h =
    advanced_ne env user user m s t x a h

pub pay_accounts :
    (env : Environment) (user : Pubkey) (fee : ℕ) (s : Store) {t : Store}
    → pay env user fee s ≡ ok t
    → t.accounts ≡ s.accounts
unfolding pay
pay_accounts env user fee s {t} e =
    elim (Result-cases (transfer_lamports env user env.treasury_key fee s)) [
      | inr (x, q) ↦ ground arith
      | inl (f, q) ↦ ground (arith, transfer_accounts env user env.treasury_key fee s q)
    ]

pub issue-writes_own :
    (env : Environment) (tokens : Tokens)
    → RuntimeLaws env tokens
    → (user token_account : Pubkey) (s : Store) (x : Pubkey) {t : Store}
    → issue_token env tokens user token_account s ≡ ok t
    → IsOurs env (s.accounts x)
    → t.accounts x ≡ s.accounts x
unfolding issue_token
issue-writes_own env tokens laws user token_account s x {t} e h =
    elim (Option-cases tokens.metadata_space) [
      | inl n ↦ ground arith
      | inr (extra, n) ↦ elim (Option-cases tokens.mint_space) [
        | inl m ↦ ground arith
        | inr (space, m) ↦
            run_cpis-writes_own env tokens laws
              (token_calls env user token_account (env.chain.minimum_balance (space + extra)) space)
              s x {t = t} (ground arith) h
      ]
    ]

-- The steps of a mint, from the store before to the store after.
pub record Steps (env : Environment) (tokens : Tokens) (user token_account : Pubkey) (now : ℤ)
    (initial_commitment : Bytes) (remaining : List Meta) (w t : World) : Type 0 where
  pub opened : Store
  pub counted : Store
  pub issued : Store
  pub paid : Store
  pub fees : Fees
  pub session : Option ReceiptSession
  pub opens : init_identity env user (env.identity_key user) w.store ≡ ok opened
  pub counts : Counts env user remaining opened counted
  pub nonzero : initial_commitment ≢ zeros 32
  pub issues : issue_token env tokens user token_account counted ≡ ok issued
  pub reads : read_fees env (config_of env issued) ≡ ok fees
  pub signs :
      verify_validator_receipt env.sysvar fees.validator_keys user initial_commitment
        ReceiptPurpose.mint fees.projection_policy.current now
      ≡ ok session
  pub pays : pay env user fees.verification_fee issued ≡ ok paid
  pub exits :
      t.store
      ≡ exit_identity env
          (env.identity_key user)
          (new_identity env user now initial_commitment fees.projection_policy.current)
          paid

module _ (env : Environment) (tokens : Tokens) (user token_account : Pubkey) (now : ℤ)
    (initial_commitment : Bytes) (remaining : List Meta) (w : World) where
  pub steps :
      {t : World}
      → mint_anchor env tokens user token_account now initial_commitment remaining w ≡ ok t
      → Steps env tokens user token_account now initial_commitment remaining w t
  unfolding mint_anchor
  steps {t} e = elim (Result-cases (init_identity env user (env.identity_key user) w.store)) [
    | inr (x, o) ↦ ground arith
    | inl (opened, o) ↦ elim (Result-cases (take_counter env user remaining opened)) [
      | inr (x, k) ↦ ground arith
      | inl (counted, k) ↦ elim (Result-cases (require_nonzero initial_commitment)) [
        | inr (x, z) ↦ ground arith
        | inl (u, z) ↦ elim (Result-cases (issue_token env tokens user token_account counted)) [
          | inr (x, i) ↦ ground arith
          | inl (issued, i) ↦ elim (Result-cases (read_fees env (config_of env issued))) [
            | inr (x, r) ↦ ground arith
            | inl (fees, r) ↦
                elim (Result-cases (
                  verify_validator_receipt env.sysvar fees.validator_keys user initial_commitment
                    ReceiptPurpose.mint fees.projection_policy.current now)) [
                      | inr (x, v) ↦ ground arith
                      | inl (session, v) ↦
                          elim (Result-cases (pay env user fees.verification_fee issued)) [
                            | inr (x, p) ↦ ground arith
                            | inl (paid, p) ↦ record {
                              opened = opened;
                              counted = counted;
                              issued = issued;
                              paid = paid;
                              fees = fees;
                              session = session;
                              opens = o;
                              counts = take_counter_lem env user remaining opened k;
                              nonzero = require_nonzero_lem initial_commitment z;
                              issues = i;
                              reads = r;
                              signs = v;
                              pays = p;
                              exits = ground arith;
                            }
                          ]
                    ]
          ]
        ]
      ]
    ]
  ]
