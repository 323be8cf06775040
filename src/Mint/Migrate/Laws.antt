-- ===== src/Mint/Migrate/Laws.antt =====
-- What an authorization and a migration that succeed have checked and written.
use protocol_core.Base.{
  ℕ, ◌≡◌, ◌≢◌, refl, ap, ◌∙◌, ◌⊎◌, inl, inr, true, false, List, [], ◌∷◌, arith, ok, Result-cases,
  Bool-cases,
}
use protocol_core.Base.Bytes.{bytes_eq_iff}
use protocol_core.Chain.{Pubkey}
use protocol_core.Update.State.{Environment, IdentityState}
use protocol_core.Mint.State.{
  Store, Tokens, World, Meta, init_identity, load_identity, exit_identity, close_cell, advance_at,
  run_cpis,
}
use protocol_core.Mint.State.Laws.{IsAdvanced, advance_at_lem, advanced_ne}
use protocol_core.Mint.Token.{issue_token}
use protocol_core.Mint.Issue.{config_of, pay}
use protocol_core.Mint.Migrate.{
  check_token, take_counters, migrated_identity, read_migration_fee, retire_calls, migrate_identity,
}

-- Without the feature no counter is read; with it those of both wallets move on, which are two.
abbrev pub CountBoth :
    Environment → Pubkey → Pubkey → IdentityState → List Meta → Store → Store → Type 0
CountBoth env wallet_old user old remaining s t =
    ((env.request_bound_v1 ≡ false) × (t ≡ s))
    ⊎ ((env.request_bound_v1 ≡ true)
        × (m : Meta) × (n : Meta) × (first : Store) × (remaining ≡ m ∷ n ∷ [])
        × (old.owner ≡ wallet_old)
        × (wallet_old ≢ user)
        × IsAdvanced env old.owner user m s first
        × IsAdvanced env user user n first t)

take_counters_lem :
    (env : Environment) (wallet_old user : Pubkey) (old : IdentityState) (remaining : List Meta)
    (s : Store) {t : Store}
    → take_counters env wallet_old user old remaining s ≡ ok t
    → CountBoth env wallet_old user old remaining s t
unfolding take_counters
take_counters_lem env wallet_old user old [] s e = elim (Bool-cases env.request_bound_v1) [
  | inl on ↦ ground arith
  | inr off ↦ inl (off, ground arith)
]
take_counters_lem env wallet_old user old (m ∷ []) s e = elim (Bool-cases env.request_bound_v1) [
  | inl on ↦ ground arith
  | inr off ↦ inl (off, ground arith)
]
take_counters_lem env wallet_old user old (m ∷ n ∷ []) s {t} e =
    elim (Bool-cases env.request_bound_v1) [
      | inr off ↦ inl (off, ground arith)
      | inl on ↦ elim (Result-cases (advance_at env old.owner user m s)) [
        | inr (x, q) ↦ ground arith
        | inl (first, q) ↦ inr (
          on,
          m,
          n,
          first,
          refl,
          ground (arith, bytes_eq_iff old.owner wallet_old),
          ground (arith, bytes_eq_iff wallet_old user),
          advance_at_lem env old.owner user m s q,
          advance_at_lem env user user n first {t = t} (ground arith),
        )
      ]
    ]
take_counters_lem env wallet_old user old (m ∷ n ∷ o ∷ ms) s e =
    elim (Bool-cases env.request_bound_v1) [
      | inl on ↦ ground arith
      | inr off ↦ inl (off, ground arith)
    ]

-- An address apart from both wallets' counters.
pub both_ne :
    (env : Environment) (wallet_old user : Pubkey) (old : IdentityState) (remaining : List Meta)
    (s t : Store) (x : Pubkey)
    → CountBoth env wallet_old user old remaining s t
    → x ≢ env.request_state_key wallet_old
    → x ≢ env.request_state_key user
    → t.accounts x ≡ s.accounts x
both_ne env wallet_old user old remaining s t x (inl (off, same)) h k =
    ap (λ (y : Store). y.accounts x) same
both_ne env wallet_old user old remaining s t x (inr (on, m, n, first, two, own, apart, a, b)) h k =
    advanced_ne env user user n first t x b k
    ∙ advanced_ne env old.owner user m s first x a (λ e. h (e ∙ ap env.request_state_key own))

-- The steps of a migration.
pub record Steps (env : Environment) (tokens : Tokens)
    (user wallet_old token_account token_account_old : Pubkey) (remaining : List Meta) (w t : World)
    : Type 0 where
  pub opened : Store
  pub counted : Store
  pub issued : Store
  pub paid : Store
  pub retired : Store
  pub old : IdentityState
  pub fee : ℕ
  pub opens : init_identity env user (env.identity_key user) w.store ≡ ok opened
  pub loads : load_identity env (env.identity_key wallet_old) opened ≡ ok old
  pub holds : check_token env tokens wallet_old token_account_old opened ≡ ok tt
  pub counts : CountBoth env wallet_old user old remaining opened counted
  pub issues : issue_token env tokens user token_account counted ≡ ok issued
  pub agreed : old.new_wallet ≡ user
  pub reads : read_migration_fee env (config_of env issued) ≡ ok fee
  pub pays : pay env user fee issued ≡ ok paid
  pub retires :
      run_cpis tokens (retire_calls env wallet_old user token_account_old) paid ≡ ok retired
  pub exits :
      t.store
      ≡ close_cell env
          (env.identity_key wallet_old)
          wallet_old
          (exit_identity env (env.identity_key user) (migrated_identity env user old) retired)

module _ (env : Environment) (tokens : Tokens)
    (user wallet_old token_account token_account_old : Pubkey) (remaining : List Meta)
    (w : World) where
  late :
      {t : World} (opened counted issued : Store) (old : IdentityState)
      → migrate_identity env tokens user wallet_old token_account token_account_old remaining w
        ≡ ok t
      → init_identity env user (env.identity_key user) w.store ≡ ok opened
      → load_identity env (env.identity_key wallet_old) opened ≡ ok old
      → check_token env tokens wallet_old token_account_old opened ≡ ok tt
      → take_counters env wallet_old user old remaining opened ≡ ok counted
      → issue_token env tokens user token_account counted ≡ ok issued
      → Steps env tokens user wallet_old token_account token_account_old remaining w t
  unfolding migrate_identity
  late {t} opened counted issued old e o l h k i =
      elim (Result-cases (read_migration_fee env (config_of env issued))) [
        | inr (x, f) ↦ ground arith
        | inl (fee, f) ↦ elim (Result-cases (pay env user fee issued)) [
          | inr (x, p) ↦ ground arith
          | inl (paid, p) ↦
              elim (Result-cases
                (run_cpis tokens (retire_calls env wallet_old user token_account_old) paid)) [
                  | inr (x, r) ↦ ground arith
                  | inl (retired, r) ↦ record {
                    opened = opened;
                    counted = counted;
                    issued = issued;
                    paid = paid;
                    retired = retired;
                    old = old;
                    fee = fee;
                    opens = o;
                    loads = l;
                    holds = h;
                    counts = take_counters_lem env wallet_old user old remaining opened k;
                    issues = i;
                    agreed = ground (arith, bytes_eq_iff old.new_wallet user);
                    reads = f;
                    pays = p;
                    retires = r;
                    exits = ground arith;
                  }
                ]
        ]
      ]

  pub steps :
      {t : World}
      → migrate_identity env tokens user wallet_old token_account token_account_old remaining w
        ≡ ok t
      → Steps env tokens user wallet_old token_account token_account_old remaining w t
  unfolding migrate_identity
  steps {t} e = elim (Result-cases (init_identity env user (env.identity_key user) w.store)) [
    | inr (x, o) ↦ ground arith
    | inl (opened, o) ↦
        elim (Result-cases (load_identity env (env.identity_key wallet_old) opened)) [
          | inr (x, l) ↦ ground arith
          | inl (old, l) ↦
              elim (Result-cases (check_token env tokens wallet_old token_account_old opened)) [
                | inr (x, h) ↦ ground arith
                | inl (u, h) ↦
                    elim (Result-cases (take_counters env wallet_old user old remaining opened)) [
                      | inr (x, k) ↦ ground arith
                      | inl (counted, k) ↦
                          elim (Result-cases (issue_token env tokens user token_account counted)) [
                            | inr (x, i) ↦ ground arith
                            | inl (issued, i) ↦ late opened counted issued old e o l h k i
                          ]
                    ]
              ]
        ]
  ]
