-- ===== src/Registry/Funds/Vault.antt =====
-- The vault covers the stakes that the validator accounts record, so a stake can always be paid back.
use protocol_core.Base.{
  ℕ, ◌+◌, ◌-◌, ◌≡◌, ◌≢◌, ◌≤◌, ◌⊎◌, refl, sym, some, arith, Result-cases, Option-cases, inl, inr, ok,
}
use protocol_core.Base.Int.{ℤ}
use protocol_core.Base.Bytes.{bytes_eq_iff, resize}
use protocol_core.Chain.{Pubkey, Ledger, Chain, ChainLaws}
use protocol_core.Registry.Config.{config_len}
use protocol_core.Registry.State.{
  Registry, Program, ValidatorState, validator_unstaked, emit, load_config, transfer, top_up,
  ensure_protocol_config_len,
}
use protocol_core.Registry.Funds.Stakes.{find, remove, total_stake, total_stake-remove, new_state}
use protocol_core.Registry.Funds.{
  validator_state_len, withdraw_treasury, init_validator_state, register_validator,
  unstake_validator,
}

-- The stakes on record are at most the vault's lamports.
abbrev pub IsCovered : Program → Registry → Type 0
IsCovered program r = total_stake r.validators ≤ r.ledger program.vault_key

-- The vault is an account of its own: no other account of the program, and no wallet that signs.
pub record IsSeparate (program : Program) : Type 0 where
  pub config : program.vault_key ≢ program.config_key
  pub treasury : program.vault_key ≢ program.treasury_key
  pub validators : (k : Pubkey) → program.vault_key ≢ program.validator_key k

-- What the runtime documents of the vault: it has no data and the system program owns it, so that it
-- pays out what it has, if that leaves it empty or with the rent, to an account with the rent.
pub record VaultLaws (chain : Chain) (program : Program) : Type 0 where
  pub pays :
      (l : Ledger) (b : Pubkey) (n : ℕ)
      → n ≤ l program.vault_key
      → (l program.vault_key ≡ n) ⊎ (n + chain.minimum_balance 0 ≤ l program.vault_key)
      → chain.minimum_balance 0 ≤ l b
      → (m : Ledger) × (chain.transfer l program.vault_key b n ≡ some m)

module _ (chain : Chain) (laws : ChainLaws chain) (program : Program)
    (apart : IsSeparate program) where
  transfer_elsewhere :
      (a b : Pubkey) (n : ℕ) (r s : Registry)
      → program.vault_key ≢ a
      → program.vault_key ≢ b
      → transfer chain program a b n r ≡ ok s
      → (s.ledger program.vault_key ≡ r.ledger program.vault_key) × (s.validators ≡ r.validators)
  unfolding transfer
  transfer_elsewhere a b n r s ha hb e = elim (Option-cases (chain.transfer r.ledger a b n)) [
    | inl q ↦ ground arith
    | inr (m, q) ↦ ground (arith, laws.transfer_frame r.ledger a b n m program.vault_key q ha hb)
  ]

  pub top_up_elsewhere :
      (payer : Pubkey) (n : ℕ) (r s : Registry)
      → program.vault_key ≢ payer
      → top_up chain program payer n r ≡ ok s
      → (s.ledger program.vault_key ≡ r.ledger program.vault_key) × (s.validators ≡ r.validators)
  unfolding top_up
  top_up_elsewhere payer n r s h e =
      let short = chain.minimum_balance n - r.ledger program.config_key in
      ground (arith, transfer_elsewhere payer program.config_key short r s h apart.config)

  pub ensure_elsewhere :
      (payer : Pubkey) (r s : Registry)
      → program.vault_key ≢ payer
      → ensure_protocol_config_len chain program payer r ≡ ok s
      → (s.ledger program.vault_key ≡ r.ledger program.vault_key) × (s.validators ≡ r.validators)
  unfolding ensure_protocol_config_len
  ensure_elsewhere payer r s h e =
      let grown : Registry = record r { data_bytes = resize r.data_bytes config_len } in
      ground (arith, top_up_elsewhere payer config_len grown s h)

  pub withdraw_treasury-IsCovered :
      (admin : Pubkey) (amount : ℕ) (r s : Registry)
      → program.vault_key ≢ admin
      → withdraw_treasury chain program admin amount r ≡ ok s
      → IsCovered program r
      → IsCovered program s
  unfolding withdraw_treasury
  withdraw_treasury-IsCovered admin amount r s h e v = elim (Result-cases (load_config program r)) [
    | inr (x, p) ↦ ground arith
    | inl (config, p) ↦
        elim (Result-cases (transfer chain program program.treasury_key admin amount r)) [
          | inr (x, q) ↦ ground arith
          | inl (t, q) ↦
              ground
                (arith, transfer_elsewhere program.treasury_key admin amount r t apart.treasury h q)
        ]
  ]

  init_elsewhere :
      (validator : Pubkey) (r s : Registry)
      → program.vault_key ≢ validator
      → init_validator_state chain program validator r ≡ ok s
      → (s.ledger program.vault_key ≡ r.ledger program.vault_key) × (s.validators ≡ r.validators)
  unfolding init_validator_state
  init_elsewhere validator r s h e =
      let account = program.validator_key validator in
      let short = chain.minimum_balance validator_state_len - r.ledger account in
      ground (arith, transfer_elsewhere validator account short r s h (apart.validators validator))

  transfer_to_vault :
      (a : Pubkey) (n : ℕ) (r s : Registry)
      → program.vault_key ≢ a
      → transfer chain program a program.vault_key n r ≡ ok s
      → (s.ledger program.vault_key ≡ r.ledger program.vault_key + n)
        × (s.validators ≡ r.validators)
  unfolding transfer
  transfer_to_vault a n r s h e =
      elim (Option-cases (chain.transfer r.ledger a program.vault_key n)) [
        | inl q ↦ ground arith
        | inr (m, q) ↦
            ground (arith, laws.transfer_moves r.ledger a program.vault_key n m q (λ p. h (sym p)))
      ]

  transfer_from_vault :
      (b : Pubkey) (n : ℕ) (r s : Registry)
      → program.vault_key ≢ b
      → transfer chain program program.vault_key b n r ≡ ok s
      → (s.ledger program.vault_key + n ≡ r.ledger program.vault_key)
        × (s.validators ≡ r.validators)
  unfolding transfer
  transfer_from_vault b n r s h e =
      elim (Option-cases (chain.transfer r.ledger program.vault_key b n)) [
        | inl q ↦ ground arith
        | inr (m, q) ↦ ground (arith, laws.transfer_moves r.ledger program.vault_key b n m q h)
      ]

  pub register_validator-IsCovered :
      (validator : Pubkey) (stake : ℕ) (now : ℤ) (r s : Registry)
      → program.vault_key ≢ validator
      → register_validator chain program validator stake now r ≡ ok s
      → IsCovered program r
      → IsCovered program s
  unfolding register_validator total_stake new_state
  register_validator-IsCovered validator stake now r s h e v =
      elim (Result-cases (load_config program r)) [
        | inr (x, p) ↦ ground arith
        | inl (config, p) ↦ elim (Result-cases (init_validator_state chain program validator r)) [
          | inr (x, q) ↦ ground arith
          | inl (t, q) ↦
              elim (Result-cases (transfer chain program validator program.vault_key stake t)) [
                | inr (x, w) ↦ ground arith
                | inl (u, w) ↦ ground (
                  arith,
                  init_elsewhere validator r t h q,
                  transfer_to_vault validator stake t u h w,
                )
              ]
        ]
      ]

  pub unstake_validator-IsCovered :
      (validator : Pubkey) (r s : Registry)
      → program.vault_key ≢ validator
      → unstake_validator chain program validator r ≡ ok s
      → IsCovered program r
      → IsCovered program s
  unfolding unstake_validator
  unstake_validator-IsCovered validator r s h e v =
      elim (Option-cases (find validator r.validators)) [
        | inl f ↦ ground arith
        | inr (state, f) ↦
            elim (Result-cases (transfer chain program program.vault_key validator state.stake r)) [
              | inr (x, q) ↦ ground arith
              | inl (t, q) ↦ ground (
                arith,
                transfer_from_vault validator state.stake r t h q,
                total_stake-remove validator r.validators f,
                laws.close_frame t.ledger (program.validator_key validator) validator
                    program.vault_key (apart.validators validator) h,
              )
            ]
      ]

  -- When the vault covers the stakes and the runtime lets it pay, a registered validator whose
  -- account names it, with the address's bump, can unstake: the call succeeds, the vault pays
  -- exactly the stake, the validator receives it together with the lamports of its account, and the
  -- account is removed. The vault is left empty or with the rent of an account without data, which
  -- the validator holds too, and the validator is none of the two accounts.
  pub unstake_validator_succeeds :
      VaultLaws chain program
      → (validator : Pubkey) (r : Registry) (state : ValidatorState) → IsCovered program r
      → find validator r.validators ≡ some state
      → state.authority ≡ validator
      → state.bump ≡ program.validator_bump validator
      → program.vault_key ≢ validator
      → program.validator_key validator ≢ validator
      → (r.ledger program.vault_key ≡ state.stake)
        ⊎ (state.stake + chain.minimum_balance 0 ≤ r.ledger program.vault_key)
      → chain.minimum_balance 0 ≤ r.ledger validator
      → (s : Registry) × (unstake_validator chain program validator r ≡ ok s)
        × (s.validators ≡ remove validator r.validators)
        × (s.ledger program.vault_key + state.stake ≡ r.ledger program.vault_key)
        × (s.ledger validator
            ≡ r.ledger validator + state.stake + r.ledger (program.validator_key validator))
  unfolding unstake_validator transfer
  unstake_validator_succeeds vault validator r state v f ha hb hv hk rent wealthy =
      let account = program.validator_key validator in
      let enough : state.stake ≤ r.ledger program.vault_key =
        omega (arith, total_stake-remove validator r.validators f) in
      let (m, q) = vault.pays r.ledger validator state.stake enough rent wealthy in
      let moved = laws.transfer_moves r.ledger program.vault_key validator state.stake m q hv in
      let kept : m account ≡ r.ledger account =
        laws.transfer_frame r.ledger program.vault_key validator state.stake m account q
          (λ p. apart.validators validator (sym p)) hk in
      (
        emit (validator_unstaked state.authority state.stake) (record r {
          ledger = chain.close m account validator;
          validators = remove validator r.validators;
        }),
        ground (arith, bytes_eq_iff state.authority validator),
        refl,
        omega (
          arith,
          moved.0,
          laws.close_frame m account validator program.vault_key (apart.validators validator) hv,
        ),
        omega (arith, moved.1, kept, laws.close_pays m account validator hk),
      )
