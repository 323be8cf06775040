-- ===== src/Registry/Authority/Laws.antt =====
-- What the three instructions do to the configuration's fields, and who may call them.
use protocol_core.Base.{◌≡◌, ◌≢◌, ◌≤◌, refl, ap, ◌∙◌, arith, length, Result-cases, inl, inr, ok}
use protocol_core.Base.Words.{Bytes}
use protocol_core.Base.Bytes.{
  bytes_eq_iff, put, length-put, sub, sub-resize, zeros, resize, length-resize,
}
use protocol_core.Chain.{Pubkey, Chain}
use protocol_core.Registry.Config.{view, config_len, view-put_admin, view-put_pending}
use protocol_core.Registry.State.{
  Registry, Program, default_pubkey, config_of, config_of_full, config_of_grown, IsLayout,
  require_admin_lem, ensure_protocol_config_len, ensure_grows, top_up, top_up_keeps,
}
use protocol_core.Registry.Authority.{
  require_upgrade_authority, read_transfer, propose_authority, accept_authority, migrate_admin,
}

module _ (chain : Chain) (program : Program) (r : Registry) (layout : IsLayout r.data_bytes) where
  pub propose_authority_lem :
      (admin k : Pubkey) {s : Registry}
      → length k ≡ 32
      → propose_authority chain program admin k r ≡ ok s
      → (config_of s ≡ record (config_of r) { pending_authority = k })
        × ((config_of r).admin ≡ admin)
        × (k ≢ default_pubkey)
        × (length s.data_bytes ≡ config_len)
  unfolding propose_authority
  propose_authority_lem admin k {s} h e =
      elim (Result-cases (ensure_protocol_config_len chain program admin r)) [
        | inr (x, q) ↦ ground arith
        | inl (s1, q) ↦
            let grown = ensure_grows chain program admin r s1 layout.0 q in
            let full : length s1.data_bytes ≡ config_len =
              ap length grown.0 ∙ length-resize r.data_bytes config_len in
            ground (
              arith,
              config_of_full s,
              view-put_pending s1.data_bytes full k h,
              length-put s1.data_bytes 113 k,
              config_of_grown r grown.0,
              require_admin_lem admin r,
              bytes_eq_iff k default_pubkey,
            )
      ]

  read_transfer_lem :
      (signer : Pubkey) {keys : Pubkey × Pubkey}
      → read_transfer signer r.data_bytes ≡ ok keys
      → (145 ≤ length r.data_bytes)
        × (keys.1 ≡ signer)
        × ((config_of r).pending_authority ≡ signer)
        × (signer ≢ default_pubkey)
  unfolding read_transfer config_of view
  read_transfer_lem signer e = ground (
    arith,
    sub-resize r.data_bytes config_len 113 32,
    bytes_eq_iff (sub r.data_bytes 113 32) signer,
    bytes_eq_iff (sub r.data_bytes 113 32) default_pubkey,
  )

  pub accept_authority_lem :
      (signer : Pubkey) {s : Registry}
      → length r.data_bytes ≡ config_len
      → length signer ≡ 32
      → accept_authority chain program signer r ≡ ok s
      → (config_of s ≡ record (config_of r) { admin = signer; pending_authority = default_pubkey })
        × ((config_of r).pending_authority ≡ signer)
        × (signer ≢ default_pubkey)
        × (length s.data_bytes ≡ config_len)
  unfolding accept_authority
  accept_authority_lem signer {s} full h e =
      elim (Result-cases (read_transfer signer r.data_bytes)) [
        | inr (x, q) ↦ ground arith
        | inl (keys, q) ↦
            let known = read_transfer_lem signer q in
            let d = put r.data_bytes 8 signer in
            ground (
              arith,
              known,
              config_of_full s,
              config_of_full r,
              view-put_admin r.data_bytes full signer h,
              view-put_pending d (length-put r.data_bytes 8 signer ∙ full) (zeros 32) refl,
              length-put r.data_bytes 8 signer,
              length-put d 113 (zeros 32),
            )
      ]

  pub migrate_admin_lem :
      (programdata signer : Bytes) {s : Registry}
      → length signer ≡ 32
      → migrate_admin chain program programdata signer r ≡ ok s
      → (config_of s ≡ record (config_of r) { admin = signer })
        × (sub programdata 13 32 ≡ signer)
        × (length s.data_bytes ≡ config_len)
  unfolding migrate_admin require_upgrade_authority
  migrate_admin_lem programdata signer {s} h e =
      let d = put (resize r.data_bytes config_len) 8 signer in
      elim (Result-cases (top_up chain program signer config_len (record r { data_bytes = d }))) [
        | inr (x, q) ↦ ground arith
        | inl (s1, q) ↦ ground (
          arith,
          top_up_keeps chain program signer config_len (record r { data_bytes = d }) s1 q,
          config_of_full s,
          view-put_admin (resize r.data_bytes config_len) (length-resize r.data_bytes config_len)
              signer h,
          length-put (resize r.data_bytes config_len) 8 signer,
          length-resize r.data_bytes config_len,
          config_of_grown r {d = resize r.data_bytes config_len} refl,
          bytes_eq_iff (sub programdata 13 32) signer,
        )
      ]
