-- ===== src/Registry/Calls/Solvency.antt =====
-- The stakes stay covered by the vault through any history.
use protocol_core.Base.{
  ℕ, ◌≡◌, ◌≢◌, refl, sym, inl, inr, arith, List, [], ◌∷◌, Result, Result-cases, ok, err,
}
use protocol_core.Base.Int.{ℤ}
use protocol_core.Base.Bytes.{put, resize}
use protocol_core.Chain.{Pubkey, Chain, ChainLaws}
use protocol_core.Registry.Config.{config_len}
use protocol_core.Registry.State.{Registry, Program, ensure_protocol_config_len, top_up}
use protocol_core.Registry.Setup.{InitArgs, initialize_protocol, update_protocol_config}
use protocol_core.Registry.Keys.{set_validator_pubkey, rotate_validator_pubkey}
use protocol_core.Registry.Authority.{propose_authority, accept_authority, migrate_admin}
use protocol_core.Registry.Projection.{set_projection_versions}
use protocol_core.Registry.Funds.{compute_trust_score}
use protocol_core.Registry.Funds.Vault.{
  IsCovered, IsSeparate, top_up_elsewhere, ensure_elsewhere, withdraw_treasury-IsCovered,
  register_validator-IsCovered, unstake_validator-IsCovered,
}
use protocol_core.Registry.Calls.{
  Call, initialize, update_config, set_key, rotate_key, propose, accept, migrate, set_versions,
  withdraw, register, unstake, compute, exec, run, after,
}

-- The wallet that signs the call; the preview has no signer.
abbrev pub SignerIsNot : Pubkey → Call → Type 0
SignerIsNot v (initialize admin args) = v ≢ admin
SignerIsNot v (update_config admin fee) = v ≢ admin
SignerIsNot v (set_key admin k) = v ≢ admin
SignerIsNot v (rotate_key admin k grace now) = v ≢ admin
SignerIsNot v (propose admin k) = v ≢ admin
SignerIsNot v (accept signer) = v ≢ signer
SignerIsNot v (migrate programdata signer) = v ≢ signer
SignerIsNot v (set_versions admin current minimum) = v ≢ admin
SignerIsNot v (withdraw admin amount) = v ≢ admin
SignerIsNot v (register validator stake now) = v ≢ validator
SignerIsNot v (unstake validator) = v ≢ validator
SignerIsNot v (compute count creation stamps now) = Unit

-- The vault's address has no private key, so it signs nothing.
abbrev pub NoVaultSigner : Pubkey → List Call → Type 0
NoVaultSigner v [] = Unit
NoVaultSigner v (c ∷ cs) = SignerIsNot v c × NoVaultSigner v cs

module _ (chain : Chain) (laws : ChainLaws chain) (program : Program)
    (apart : IsSeparate program) where
  initialize_elsewhere :
      (admin : Pubkey) (args : InitArgs) (r s : Registry)
      → program.vault_key ≢ admin
      → initialize_protocol chain program admin args r ≡ ok s
      → (s.ledger program.vault_key ≡ r.ledger program.vault_key) × (s.validators ≡ r.validators)
  unfolding initialize_protocol
  initialize_elsewhere admin args r s h e =
      elim (Result-cases (top_up chain program admin config_len r)) [
        | inl (t, q) ↦
            ground (arith, top_up_elsewhere chain laws program apart admin config_len r t h q)
        | inr (x, q) ↦ ground arith
      ]

  set_key_elsewhere :
      (admin k : Pubkey) (r s : Registry)
      → program.vault_key ≢ admin
      → set_validator_pubkey chain program admin k r ≡ ok s
      → (s.ledger program.vault_key ≡ r.ledger program.vault_key) × (s.validators ≡ r.validators)
  unfolding set_validator_pubkey
  set_key_elsewhere admin k r s h e =
      elim (Result-cases (ensure_protocol_config_len chain program admin r)) [
        | inl (t, q) ↦ ground (arith, ensure_elsewhere chain laws program apart admin r t h q)
        | inr (x, q) ↦ ground arith
      ]

  rotate_key_elsewhere :
      (admin k : Pubkey) (grace now : ℤ) (r s : Registry)
      → program.vault_key ≢ admin
      → rotate_validator_pubkey chain program admin k grace now r ≡ ok s
      → (s.ledger program.vault_key ≡ r.ledger program.vault_key) × (s.validators ≡ r.validators)
  unfolding rotate_validator_pubkey
  rotate_key_elsewhere admin k grace now r s h e =
      elim (Result-cases (ensure_protocol_config_len chain program admin r)) [
        | inl (t, q) ↦ ground (arith, ensure_elsewhere chain laws program apart admin r t h q)
        | inr (x, q) ↦ ground arith
      ]

  propose_elsewhere :
      (admin k : Pubkey) (r s : Registry)
      → program.vault_key ≢ admin
      → propose_authority chain program admin k r ≡ ok s
      → (s.ledger program.vault_key ≡ r.ledger program.vault_key) × (s.validators ≡ r.validators)
  unfolding propose_authority
  propose_elsewhere admin k r s h e =
      elim (Result-cases (ensure_protocol_config_len chain program admin r)) [
        | inl (t, q) ↦ ground (arith, ensure_elsewhere chain laws program apart admin r t h q)
        | inr (x, q) ↦ ground arith
      ]

  migrate_elsewhere :
      (programdata signer : Pubkey) (r s : Registry)
      → program.vault_key ≢ signer
      → migrate_admin chain program programdata signer r ≡ ok s
      → (s.ledger program.vault_key ≡ r.ledger program.vault_key) × (s.validators ≡ r.validators)
  unfolding migrate_admin
  migrate_elsewhere programdata signer r s h e =
      let grown : Registry = record r {
        data_bytes = put (resize r.data_bytes config_len) 8 signer;
      } in
      elim (Result-cases (top_up chain program signer config_len grown)) [
        | inl (t, q) ↦
            ground (arith, top_up_elsewhere chain laws program apart signer config_len grown t h q)
        | inr (x, q) ↦ ground arith
      ]

  set_versions_elsewhere :
      (admin : Pubkey) (current minimum : ℕ) (r s : Registry)
      → program.vault_key ≢ admin
      → set_projection_versions chain program admin current minimum r ≡ ok s
      → (s.ledger program.vault_key ≡ r.ledger program.vault_key) × (s.validators ≡ r.validators)
  unfolding set_projection_versions
  set_versions_elsewhere admin current minimum r s h e =
      elim (Result-cases (ensure_protocol_config_len chain program admin r)) [
        | inl (t, q) ↦ ground (arith, ensure_elsewhere chain laws program apart admin r t h q)
        | inr (x, q) ↦ ground arith
      ]

  exec-IsCovered :
      (c : Call) (r s : Registry)
      → SignerIsNot program.vault_key c
      → exec chain program c r ≡ ok s
      → IsCovered program r
      → IsCovered program s
  unfolding exec
  exec-IsCovered (initialize admin args) r s h e v =
      ground (arith, initialize_elsewhere admin args r s h e)
  exec-IsCovered (update_config admin fee) r s h e v = unfold update_protocol_config in ground arith
  exec-IsCovered (set_key admin k) r s h e v = ground (arith, set_key_elsewhere admin k r s h e)
  exec-IsCovered (rotate_key admin k grace now) r s h e v =
      ground (arith, rotate_key_elsewhere admin k grace now r s h e)
  exec-IsCovered (propose admin k) r s h e v = ground (arith, propose_elsewhere admin k r s h e)
  exec-IsCovered (accept signer) r s h e v = unfold accept_authority in ground arith
  exec-IsCovered (migrate programdata signer) r s h e v =
      ground (arith, migrate_elsewhere programdata signer r s h e)
  exec-IsCovered (set_versions admin current minimum) r s h e v =
      ground (arith, set_versions_elsewhere admin current minimum r s h e)
  exec-IsCovered (withdraw admin amount) r s h e v =
      withdraw_treasury-IsCovered chain laws program apart admin amount r s h e v
  exec-IsCovered (register validator stake now) r s h e v =
      register_validator-IsCovered chain laws program apart validator stake now r s h e v
  exec-IsCovered (unstake validator) r s h e v =
      unstake_validator-IsCovered chain laws program apart validator r s h e v
  exec-IsCovered (compute count creation stamps now) r s h e v =
      unfold compute_trust_score in ground arith

  after-IsCovered :
      (c : Call) (r : Registry) (o : Result Registry)
      → o ≡ exec chain program c r
      → SignerIsNot program.vault_key c
      → IsCovered program r
      → IsCovered program (after r o)
  after-IsCovered c r (ok s) e h v = exec-IsCovered c r s h (sym e) v
  after-IsCovered c r (err x) e h v = v

  -- Through any calls that the vault's address does not sign, the stakes on record never exceed what
  -- the vault holds, provided that the vault is an account of its own.
  pub run-IsCovered :
      (r : Registry) (cs : List Call)
      → NoVaultSigner program.vault_key cs
      → IsCovered program r
      → IsCovered program (run chain program r cs)
  unfolding run
  run-IsCovered r [] h v = v
  run-IsCovered r (c ∷ cs) h v =
      run-IsCovered (after r (exec chain program c r)) cs h.1
        (after-IsCovered c r (exec chain program c r) refl h.0 v)
