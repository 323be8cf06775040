-- ===== src/Registry/Setup/Laws.antt =====
-- The configuration after the two instructions.
use protocol_core.Base.{ℕ, ◌≡◌, ◌≢◌, ◌<◌, ◌^◌, arith, length, Result-cases, inl, inr, ok}
use protocol_core.Base.Bytes.{bytes_eq_iff}
use protocol_core.Chain.{Pubkey, Chain}
use protocol_core.Registry.Config.{
  ProtocolConfig, IsConfig, config_len, view-serialize, length-serialize,
}
use protocol_core.Registry.State.{
  Registry, Program, default_pubkey, config_of, config_of_full, load_config, top_up,
}
use protocol_core.Registry.Setup.{
  InitArgs, initial_config, initialize_protocol, update_protocol_config,
}

module _ (chain : Chain) (program : Program) (r : Registry)
    (tag : length program.discriminator ≡ 8) where
  pub initialize_protocol_lem :
      (admin : Pubkey) (args : InitArgs) {s : Registry}
      → IsConfig (initial_config program admin args)
      → initialize_protocol chain program admin args r ≡ ok s
      → (config_of s ≡ initial_config program admin args)
        × (args.validator_pubkey ≢ default_pubkey)
        × (length r.data_bytes ≡ 0)
        × (length s.data_bytes ≡ config_len)
  unfolding initialize_protocol
  initialize_protocol_lem admin args {s} v e =
      elim (Result-cases (top_up chain program admin config_len r)) [
        | inr (x, q) ↦ ground arith
        | inl (s1, q) ↦
            let c = initial_config program admin args in
            ground (
              arith,
              config_of_full s,
              view-serialize program.discriminator c tag v,
              length-serialize program.discriminator c tag v,
              bytes_eq_iff args.validator_pubkey default_pubkey,
            )
      ]

  pub update_protocol_config_lem :
      (admin : Pubkey) (fee : ℕ) {s : Registry}
      → IsConfig (config_of r)
      → length r.data_bytes ≡ config_len
      → fee < 256 ^ 8
      → update_protocol_config chain program admin fee r ≡ ok s
      → (config_of s ≡ record (config_of r) { verification_fee = fee })
        × ((config_of r).admin ≡ admin)
        × (length s.data_bytes ≡ config_len)
  unfolding update_protocol_config load_config
  update_protocol_config_lem admin fee {s} v full h e =
      let c : ProtocolConfig = record (config_of r) { verification_fee = fee } in
      let w : IsConfig c = record {
        admin_size = v.admin_size;
        min_stake_u64 = v.min_stake_u64;
        challenge_expiry_i64 = v.challenge_expiry_i64;
        max_trust_score_u16 = v.max_trust_score_u16;
        base_trust_increment_u16 = v.base_trust_increment_u16;
        bump_u8 = v.bump_u8;
        verification_fee_u64 = h;
        migration_fee_u64 = v.migration_fee_u64;
        validator_size = v.validator_size;
        current_u16 = v.current_u16;
        minimum_u16 = v.minimum_u16;
        pending_size = v.pending_size;
        secondary_size = v.secondary_size;
        valid_until_i64 = v.valid_until_i64;
      } in
      ground (
        arith,
        config_of_full r full,
        config_of_full s,
        view-serialize program.discriminator c tag w,
        length-serialize program.discriminator c tag w,
        bytes_eq_iff (config_of r).admin admin,
      )
