-- ===== src/Registry/Projection/Laws.antt =====
-- The versions that are stored, and that they only advance.
use protocol_core.Base.{ℕ, ◌≡◌, ◌≤◌, ◌<◌, ◌^◌, ap, ◌∙◌, arith, length, Result-cases, inl, inr, ok}
use protocol_core.Base.Words.{to_le_bytes, length-to_le_bytes, from_le_bytes-zeros}
use protocol_core.Base.Bytes.{put, length-put, sub-resize, sub-resize-zeros, length-resize}
use protocol_core.Chain.{Pubkey, Chain}
use protocol_core.Registry.Config.{view, config_len, view-put_current, view-put_minimum}
use protocol_core.Registry.State.{
  Registry, Program, config_of, config_of_full, config_of_grown, IsLayout, require_admin_lem,
  ensure_protocol_config_len, ensure_grows,
}
use protocol_core.Registry.Projection.{
  read_projection_versions, validate_projection_transition, set_projection_versions,
}

-- The raw read gives the versions of the configuration, of a legacy layout too.
read_projection_versions_lem :
    (r : Registry) {v : ℕ × ℕ}
    → IsLayout r.data_bytes
    → read_projection_versions r.data_bytes ≡ ok v
    → (v.0 ≡ (config_of r).current_projection_version)
      × (v.1 ≡ (config_of r).minimum_supported_projection_version)
unfolding read_projection_versions config_of view
read_projection_versions_lem r h e = ground (
  arith,
  sub-resize r.data_bytes config_len 109 2,
  sub-resize r.data_bytes config_len 111 2,
  sub-resize-zeros r.data_bytes config_len 109 2,
  sub-resize-zeros r.data_bytes config_len 111 2,
  from_le_bytes-zeros 2,
)

module _ (chain : Chain) (program : Program) (r : Registry) (layout : IsLayout r.data_bytes) where
  -- On every layout of the account, a change of the projection versions that succeeds was called
  -- by the stored admin, keeps the minimum at most the current version, takes neither back, and
  -- changes no other field.
  pub set_projection_versions_lem :
      (admin : Pubkey) (current minimum : ℕ) {s : Registry}
      → current < 256 ^ 2
      → minimum < 256 ^ 2
      → set_projection_versions chain program admin current minimum r ≡ ok s
      → (config_of s ≡ record (config_of r) {
        current_projection_version = current;
        minimum_supported_projection_version = minimum;
      })
        × ((config_of r).admin ≡ admin)
        × (minimum ≤ current)
        × ((config_of r).current_projection_version ≤ current)
        × ((config_of r).minimum_supported_projection_version ≤ minimum)
        × (length s.data_bytes ≡ config_len)
  unfolding set_projection_versions validate_projection_transition
  set_projection_versions_lem admin current minimum {s} hc hm e =
      elim (Result-cases (read_projection_versions r.data_bytes)) [
        | inr (x, p) ↦ ground arith
        | inl (stored, p) ↦ elim (Result-cases (ensure_protocol_config_len chain program admin r)) [
          | inr (x, q) ↦ ground arith
          | inl (s1, q) ↦
              let grown = ensure_grows chain program admin r s1 layout.0 q in
              let full : length s1.data_bytes ≡ config_len =
                ap length grown.0 ∙ length-resize r.data_bytes config_len in
              let d = put s1.data_bytes 109 (to_le_bytes 2 current) in
              let size = length-put s1.data_bytes 109 (to_le_bytes 2 current) in
              ground (
                arith,
                read_projection_versions_lem r layout p,
                config_of_full s,
                view-put_current s1.data_bytes full current hc,
                view-put_minimum d (size ∙ full) minimum hm,
                size,
                length-to_le_bytes 2 current,
                length-to_le_bytes 2 minimum,
                length-put d 111 (to_le_bytes 2 minimum),
                config_of_grown r grown.0,
                require_admin_lem admin r,
              )
        ]
      ]
