-- ===== src/Mint/Token/Laws.antt =====
-- The calls that make a wallet's token add one token to its account, and none to any other.
use protocol_core.Base.{
  ℕ, ◌+◌, ◌≡◌, ◌≢◌, refl, sym, ◌∙◌, inl, inr, Bool, true, false, none, some, List, [], ◌∷◌, ◌++◌,
  arith, ok, Option-cases, if◌then◌else◌,
}
use protocol_core.Chain.{Pubkey}
use protocol_core.Update.State.{Environment}
use protocol_core.Mint.State.{Cell, Store, Cpi, Tokens, run_cpis}
use protocol_core.Mint.State.Laws.{Moves, TokenLaws}
use protocol_core.Mint.Token.{token_calls, issue_token, mint_name, mint_symbol, mint_uri}

-- None of the calls moves tokens of this account.
abbrev pub AllStay : List Cpi → Pubkey → Type 0
AllStay [] a = Unit
AllStay (c ∷ cs) a = (¬ Moves c a) × AllStay cs a

module _ (tokens : Tokens) (amount : Cell → ℕ) (laws : TokenLaws tokens amount) where
  pub run_cpis-others_stay :
      (cs : List Cpi) (a : Pubkey) (s : Store) {t : Store}
      → run_cpis tokens cs s ≡ ok t
      → AllStay cs a
      → amount (t.accounts a) ≡ amount (s.accounts a)
  unfolding run_cpis
  run_cpis-others_stay [] a s e h = ground arith
  run_cpis-others_stay (c ∷ cs) a s {t} e h = elim (Option-cases (tokens.invoke_cpi c s)) [
    | inl n ↦ ground arith
    | inr (m, n) ↦
        run_cpis-others_stay cs a m {t = t} (ground arith) h.1 ∙ laws.others_stay c a s m n h.0
  ]

  -- The calls up to a last one.
  run_cpis-append :
      (cs : List Cpi) (c : Cpi) (s : Store) {t : Store}
      → run_cpis tokens (cs ++ (c ∷ [])) s ≡ ok t
      → (m : Store) × (run_cpis tokens cs s ≡ ok m) × (tokens.invoke_cpi c m ≡ some t)
  unfolding run_cpis
  run_cpis-append [] c s {t} e = elim (Option-cases (tokens.invoke_cpi c s)) [
    | inl n ↦ ground arith
    | inr (m, n) ↦ (s, refl, ground arith)
  ]
  run_cpis-append (d ∷ cs) c s {t} e = elim (Option-cases (tokens.invoke_cpi d s)) [
    | inl n ↦ ground arith
    | inr (m, n) ↦
        let (last, first, second) = run_cpis-append cs c m {t = t} (ground arith) in
        (last, ground arith, second)
  ]

  -- All calls but the last.
  abbrev opening_calls : Environment → Pubkey → Pubkey → ℕ → ℕ → List Cpi
  opening_calls env user token_account lamports space =
      Cpi.create_account user (env.mint_key user) lamports space
      ∷ Cpi.initialize_non_transferable_mint (env.mint_key user)
      ∷ Cpi.initialize_mint_close_authority (env.mint_key user) env.mint_authority_key
      ∷ Cpi.initialize_metadata_pointer (env.mint_key user) env.mint_authority_key
          (env.mint_key user)
      ∷ Cpi.initialize_mint2 (env.mint_key user) env.mint_authority_key none 0
      ∷ Cpi.token_metadata_initialize (env.mint_key user) env.mint_authority_key mint_name
          mint_symbol mint_uri
      ∷ (if env.request_bound_v1
          then Cpi.create_associated_idempotent user token_account user (env.mint_key user)
          else Cpi.create_associated user token_account user (env.mint_key user))
      ∷ []

  created :
      (feature : Bool) (user token_account mint a : Pubkey)
      → ¬ Moves
          (if feature
            then Cpi.create_associated_idempotent user token_account user mint
            else Cpi.create_associated user token_account user mint)
          a
  created true user token_account mint a h = h
  created false user token_account mint a h = h

  opening-AllStay :
      (env : Environment) (user token_account : Pubkey) (lamports space : ℕ) (a : Pubkey)
      → AllStay (opening_calls env user token_account lamports space) a
  opening-AllStay env user token_account lamports space a =
      let mine = created env.request_bound_v1 user token_account (env.mint_key user) a in
      (λ h. h, (λ h. h, (λ h. h, (λ h. h, (λ h. h, (λ h. h, (mine, tt)))))))

  module _ (env : Environment) (user token_account : Pubkey) (s : Store) {t : Store}
      (issued : issue_token env tokens user token_account s ≡ ok t) where
    last_call :
        (cs : List Cpi) × (m : Store) × ((a : Pubkey) → AllStay cs a)
        × (run_cpis tokens cs s ≡ ok m)
        × (tokens.invoke_cpi
              (Cpi.mint_to (env.mint_key user) token_account env.mint_authority_key 1)
              m
            ≡ some t)
    unfolding issue_token token_calls
    last_call = elim (Option-cases tokens.metadata_space) [
      | inl n ↦ ground arith
      | inr (extra, n) ↦ elim (Option-cases tokens.mint_space) [
        | inl k ↦ ground arith
        | inr (space, k) ↦
            let lamports = env.chain.minimum_balance (space + extra) in
            let cs = opening_calls env user token_account lamports space in
            let r =
              run_cpis-append cs
                (Cpi.mint_to (env.mint_key user) token_account env.mint_authority_key 1) s {t = t}
                (ground arith) in
            (cs, r.0, opening-AllStay env user token_account lamports space, r.1, r.2)
      ]
    ]

    pub issue_token-adds : amount (t.accounts token_account) ≡ amount (s.accounts token_account) + 1
    issue_token-adds =
        let (cs, m, stay, first, last) = last_call in
        omega (
          arith,
          laws.mint_adds (env.mint_key user) token_account env.mint_authority_key 1 m t last,
          run_cpis-others_stay cs token_account s first (stay token_account),
        )

    pub issue_token-others_stay :
        (a : Pubkey) → a ≢ token_account → amount (t.accounts a) ≡ amount (s.accounts a)
    issue_token-others_stay a h =
        let (cs, m, stay, first, last) = last_call in
        laws.others_stay (Cpi.mint_to (env.mint_key user) token_account env.mint_authority_key 1) a
          m t last (λ e. h (sym e))
        ∙ run_cpis-others_stay cs a s first (stay a)
