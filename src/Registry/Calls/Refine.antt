-- ===== src/Registry/Calls/Refine.antt =====
-- The byte-level handlers implement the specification.
use protocol_core.Base.{ℕ, ◌≡◌, ap, ◌∙◌, arith, List, ok, length}
use protocol_core.Base.Int.{ℤ}
use protocol_core.Base.Bytes.{bytes_eq_iff, resize}
use protocol_core.Chain.{Pubkey, Chain}
use protocol_core.Registry.Config.{IsConfig, config_len, view}
use protocol_core.Registry.State.{
  Registry, Program, config_of, config_of_full, IsLayout, load_config, transfer,
}
use protocol_core.Registry.Setup.Laws.{initialize_protocol_lem, update_protocol_config_lem}
use protocol_core.Registry.Keys.Laws.{set_validator_pubkey_lem, rotated_fields}
use protocol_core.Registry.Authority.Laws.{
  propose_authority_lem, accept_authority_lem, migrate_admin_lem,
}
use protocol_core.Registry.Projection.Laws.{set_projection_versions_lem}
use protocol_core.Registry.Funds.{
  withdraw_treasury, init_validator_state, register_validator, unstake_validator,
  compute_trust_score,
}
use protocol_core.Registry.Calls.{
  Call, initialize, update_config, set_key, rotate_key, propose, accept, migrate, set_versions,
  withdraw, register, unstake, compute, exec,
}
use protocol_core.Registry.Calls.Spec.{spec, Permitted, IsCall}

-- An account of the full layout with fields in range.
pub record IsReady (r : Registry) : Type 0 where
  pub full : length r.data_bytes ≡ config_len
  pub config : IsConfig (config_of r)

ready-IsLayout : (r : Registry) → IsReady r → IsLayout r.data_bytes
ready-IsLayout r v = omega (arith, v.full)

module _ (chain : Chain) (program : Program) (tag : length program.discriminator ≡ 8) where
  -- The instructions that move lamports leave the configuration's bytes alone.
  withdraw_treasury_bytes :
      (admin : Pubkey) (amount : ℕ) (r s : Registry)
      → length r.data_bytes ≡ config_len
      → withdraw_treasury chain program admin amount r ≡ ok s
      → (s.data_bytes ≡ r.data_bytes) × ((config_of r).admin ≡ admin)
  unfolding withdraw_treasury load_config transfer
  withdraw_treasury_bytes admin amount r s full e =
      ground (arith, config_of_full r full, bytes_eq_iff (config_of r).admin admin)

  register_validator_bytes :
      (validator : Pubkey) (stake : ℕ) (now : ℤ) (r s : Registry)
      → register_validator chain program validator stake now r ≡ ok s
      → s.data_bytes ≡ r.data_bytes
  unfolding register_validator init_validator_state transfer
  register_validator_bytes validator stake now r s e = ground arith

  unstake_validator_bytes :
      (validator : Pubkey) (r s : Registry)
      → unstake_validator chain program validator r ≡ ok s
      → s.data_bytes ≡ r.data_bytes
  unfolding unstake_validator transfer
  unstake_validator_bytes validator r s e = ground arith

  compute_trust_score_bytes :
      (count : ℕ) (creation : ℤ) (stamps : List ℤ) (now : ℤ) (r s : Registry)
      → compute_trust_score chain program count creation stamps now r ≡ ok s
      → s.data_bytes ≡ r.data_bytes
  unfolding compute_trust_score
  compute_trust_score_bytes count creation stamps now r s e = ground arith

  same_config :
      (r s : Registry)
      → IsReady r
      → s.data_bytes ≡ r.data_bytes
      → (config_of s ≡ config_of r) × (length s.data_bytes ≡ config_len)
  unfolding config_of
  same_config r s v e = (ap (λ d. view (resize d config_len)) e, ap length e ∙ v.full)

  -- On an account of the full layout with fields in range, a call with arguments of the Rust
  -- types' sizes that succeeds was permitted by the specification, has exactly the specified
  -- effect on the fields of the configuration, and leaves an account of the full layout.
  pub exec_refines :
      (c : Call) (r s : Registry)
      → IsReady r
      → IsCall program c
      → exec chain program c r ≡ ok s
      → (config_of s ≡ spec program c (config_of r))
        × Permitted c (config_of r)
        × (length s.data_bytes ≡ config_len)
  unfolding exec spec
  exec_refines (initialize admin args) r s v h e =
      let p = initialize_protocol_lem chain program r tag admin args h e in (p.0, p.1, p.3)
  exec_refines (update_config admin fee) r s v h e =
      update_protocol_config_lem chain program r tag admin fee v.config v.full h e
  exec_refines (set_key admin k) r s v h e =
      let p = set_validator_pubkey_lem chain program admin r (ready-IsLayout r v) k h e in
      (p.0, (p.1, p.2), p.3)
  exec_refines (rotate_key admin k grace now) r s v h e =
      let p = rotated_fields chain program admin r (ready-IsLayout r v) k grace now h.0 h.1 e in
      (ground (arith, p.1, p.2), (p.3, p.4), p.5)
  exec_refines (propose admin k) r s v h e =
      let p = propose_authority_lem chain program r (ready-IsLayout r v) admin k h e in
      (p.0, (p.1, p.2), p.3)
  exec_refines (accept signer) r s v h e =
      let p = accept_authority_lem chain program r (ready-IsLayout r v) signer v.full h e in
      (p.0, (p.1, p.2), p.3)
  exec_refines (migrate programdata signer) r s v h e =
      migrate_admin_lem chain program r (ready-IsLayout r v) programdata signer h e
  exec_refines (set_versions admin current minimum) r s v h e =
      let p =
        set_projection_versions_lem chain program r (ready-IsLayout r v) admin current minimum h.0
          h.1 e in
      (p.0, (p.1, p.2, p.3, p.4), p.5)
  exec_refines (withdraw admin amount) r s v h e =
      let p = withdraw_treasury_bytes admin amount r s v.full e in
      let q = same_config r s v p.0 in (q.0, p.1, q.1)
  exec_refines (register validator stake now) r s v h e =
      let q = same_config r s v (register_validator_bytes validator stake now r s e) in
      (q.0, tt, q.1)
  exec_refines (unstake validator) r s v h e =
      let q = same_config r s v (unstake_validator_bytes validator r s e) in (q.0, tt, q.1)
  exec_refines (compute count creation stamps now) r s v h e =
      let q = same_config r s v (compute_trust_score_bytes count creation stamps now r s e) in
      (q.0, tt, q.1)
