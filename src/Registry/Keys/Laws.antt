-- ===== src/Registry/Keys/Laws.antt =====
-- What the two instructions do to the configuration's fields.
use protocol_core.Base.{
  ◌≡◌, ◌≢◌, ◌⊎◌, refl, ap, ◌∙◌, Bool-cases, not, ◌&&◌, arith, length, Result-cases, Option-cases,
  inl, inr, ok,
}
use protocol_core.Base.Int.{
  ℤ, pos, ◌≤ℤ◌, ◌+ℤ◌, ltb_ℤ, as_u64, IsI64, checked_add, checked_add_exact,
}
use protocol_core.Base.Words.{Bytes, to_le_bytes, i64_to_le_bytes, length-i64_to_le_bytes}
use protocol_core.Base.Bytes.{
  bytes_eq, bytes_eq_iff, put, length-put, sub-resize, sub-resize-zeros, length-sub, zeros,
  length-resize,
}
use protocol_core.Chain.{Pubkey, Chain}
use protocol_core.Registry.Config.{
  view, config_len, view-put_validator, view-put_secondary, view-put_valid_until,
}
use protocol_core.Registry.State.{
  Registry, Program, default_pubkey, config_of, config_of_full, IsLayout, require_admin_lem,
  config_of_grown, ensure_protocol_config_len, ensure_grows,
}
use protocol_core.Registry.Keys.{
  write_keys, old_validator, grace_window, set_validator_pubkey, rotate_validator_pubkey,
}

write_keys-view :
    (d k s : Bytes) (z : ℤ) {d' : Bytes}
    → length d ≡ config_len
    → length k ≡ 32
    → length s ≡ 32
    → IsI64 z
    → write_keys d k s (i64_to_le_bytes z) ≡ ok d'
    → (view d' ≡ record (view d) {
      validator_pubkey = k;
      secondary_validator_pubkey = s;
      secondary_validator_valid_until = z;
    })
      × (length d' ≡ config_len)
unfolding write_keys
write_keys-view d k s z n h1 h2 h3 e =
    let d1 = put d 77 k in
    let d2 = put d1 145 s in
    ground (
      arith,
      length-put d 77 k,
      length-put d1 145 s,
      length-put d2 177 (i64_to_le_bytes z),
      length-i64_to_le_bytes z,
      view-put_validator d n k h1,
      view-put_secondary d1 (length-put d 77 k ∙ n) s h2,
      view-put_valid_until d2 (length-put d1 145 s ∙ length-put d 77 k ∙ n) z h3,
    )

zero_bytes : i64_to_le_bytes (pos 0) ≡ zeros 8
unfolding i64_to_le_bytes to_le_bytes as_u64
zero_bytes = refl

-- The key before: what the fields say, of a legacy account too, where it reads as zero.
old_validator_lem :
    (r : Registry) {k : Pubkey}
    → IsLayout r.data_bytes
    → old_validator r.data_bytes ≡ ok k
    → (k ≡ (config_of r).validator_pubkey) × (length k ≡ 32)
unfolding old_validator config_of view
old_validator_lem r h e = ground (
  arith,
  sub-resize r.data_bytes config_len 77 32,
  sub-resize-zeros r.data_bytes config_len 77 32,
  length-sub r.data_bytes 77 32,
)

pub grace_window_lem :
    (old new : Pubkey) (now grace : ℤ) {w : Pubkey × ℤ}
    → length old ≡ 32
    → grace_window old new now grace ≡ ok w
    → (length w.0 ≡ 32) × IsI64 w.1
unfolding grace_window
grace_window_lem old new now grace h e = elim (Option-cases (checked_add now grace)) [
  | inl none_ ↦ ground arith
  | inr (z, q) ↦ ground (arith, checked_add_exact now grace q)
]

-- Does the previous key stay valid for a while?
abbrev pub IsGraced : Pubkey → Pubkey → ℤ → Type 0
IsGraced old new grace = (pos 1 ≤ℤ grace) × (old ≢ default_pubkey) × (old ≢ new)

-- The secondary key and its deadline after a rotation: the previous key for the grace period, or
-- none.
abbrev pub HasWindow : Pubkey → Pubkey → ℤ → ℤ → Pubkey → ℤ → Type 0
HasWindow old new now grace secondary valid_until =
    (IsGraced old new grace × (secondary ≡ old) × (valid_until ≡ now +ℤ grace))
    ⊎ ((¬ IsGraced old new grace) × (secondary ≡ default_pubkey) × (valid_until ≡ pos 0))

grace_window-HasWindow :
    (old new : Pubkey) (now grace : ℤ) {w : Pubkey × ℤ}
    → grace_window old new now grace ≡ ok w
    → HasWindow old new now grace w.0 w.1
unfolding grace_window
grace_window-HasWindow old new now grace {w} e =
    elim (Bool-cases
      (ltb_ℤ (pos 0) grace && not (bytes_eq old default_pubkey) && not (bytes_eq old new))) [
        | inl on ↦ elim (Option-cases (checked_add now grace)) [
          | inl n ↦ ground arith
          | inr (z, q) ↦ inl (
            (
              ground arith,
              ground (arith, bytes_eq_iff old default_pubkey),
              ground (arith, bytes_eq_iff old new),
            ),
            ground arith,
            ground (arith, checked_add_exact now grace q),
          )
        ]
        | inr off ↦ inr (
          λ h. ground (arith, bytes_eq_iff old default_pubkey, bytes_eq_iff old new),
          ground arith,
          ground arith,
        )
      ]

module _ (chain : Chain) (program : Program) (admin : Pubkey) (r : Registry)
    (layout : IsLayout r.data_bytes) where
  pub set_validator_pubkey_lem :
      (k : Pubkey) {s : Registry}
      → length k ≡ 32
      → set_validator_pubkey chain program admin k r ≡ ok s
      → (config_of s ≡ record (config_of r) {
        validator_pubkey = k;
        secondary_validator_pubkey = default_pubkey;
        secondary_validator_valid_until = pos 0;
      })
        × ((config_of r).admin ≡ admin)
        × (k ≢ default_pubkey)
        × (length s.data_bytes ≡ config_len)
  unfolding set_validator_pubkey
  set_validator_pubkey_lem k {s} h e =
      elim (Result-cases (ensure_protocol_config_len chain program admin r)) [
        | inr (x, q) ↦ ground arith
        | inl (s1, q) ↦
            let grown = ensure_grows chain program admin r s1 layout.0 q in
            let full : length s1.data_bytes ≡ config_len =
              ap length grown.0 ∙ length-resize r.data_bytes config_len in
            elim (Result-cases (write_keys s1.data_bytes k (zeros 32) (zeros 8))) [
              | inr (x, w) ↦ ground arith
              | inl (d, w) ↦
                  let w' : write_keys s1.data_bytes k (zeros 32) (i64_to_le_bytes (pos 0)) ≡ ok d =
                    rw zero_bytes w in
                  let (viewed, size) =
                    write_keys-view s1.data_bytes k (zeros 32) (pos 0) full h refl (omega arith)
                      w' in
                  ground (
                    arith,
                    config_of_full s,
                    viewed,
                    size,
                    grown.0,
                    require_admin_lem admin r,
                    config_of_grown r grown.0,
                    bytes_eq_iff k default_pubkey,
                  )
            ]
      ]

  -- The fields after a rotation, over the window that it computes.
  pub rotated_fields :
      (k : Pubkey) (grace now : ℤ) {s : Registry}
      → length k ≡ 32
      → IsI64 now
      → rotate_validator_pubkey chain program admin k grace now r ≡ ok s
      → (window : Pubkey × ℤ) × (grace_window (config_of r).validator_pubkey k now grace
          ≡ ok window)
        × (config_of s ≡ record (config_of r) {
          validator_pubkey = k;
          secondary_validator_pubkey = window.0;
          secondary_validator_valid_until = window.1;
        })
        × ((config_of r).admin ≡ admin)
        × (k ≢ default_pubkey)
        × (length s.data_bytes ≡ config_len)
  unfolding rotate_validator_pubkey
  rotated_fields k grace now {s} h t e = elim (Result-cases (old_validator r.data_bytes)) [
    | inr (x, p) ↦ ground arith
    | inl (old, p) ↦ elim (Result-cases (ensure_protocol_config_len chain program admin r)) [
      | inr (x, q) ↦ ground arith
      | inl (s1, q) ↦ elim (Result-cases (grace_window old k now grace)) [
        | inr (x, g) ↦ ground arith
        | inl (window, g) ↦
            let grown = ensure_grows chain program admin r s1 layout.0 q in
            let full : length s1.data_bytes ≡ config_len =
              ap length grown.0 ∙ length-resize r.data_bytes config_len in
            let known = old_validator_lem r layout p in
            elim (Result-cases (write_keys s1.data_bytes k window.0 (i64_to_le_bytes window.1))) [
              | inr (x, w) ↦ ground arith
              | inl (d, w) ↦
                  let bounds = grace_window_lem old k now grace known.1 g in
                  let (viewed, size) =
                    write_keys-view s1.data_bytes k window.0 window.1 full h bounds.0 bounds.1 w in
                  (
                    window,
                    ground arith,
                    ground
                        (arith, config_of_full s, viewed, size, grown.0, config_of_grown r grown.0),
                    ground (arith, require_admin_lem admin r),
                    ground (arith, bytes_eq_iff k default_pubkey),
                    ground (arith, size),
                  )
            ]
      ]
    ]
  ]

  grace_bounds :
      (k : Pubkey) (grace now : ℤ) {s : Registry}
      → rotate_validator_pubkey chain program admin k grace now r ≡ ok s
      → (pos 0 ≤ℤ grace) × (grace ≤ℤ pos 86400)
  unfolding rotate_validator_pubkey
  grace_bounds k grace now e = ground arith

  -- On every layout of the account, a rotation that succeeds was called by the stored admin with
  -- a key that is not zero and a grace period of at most a day; it makes that key the primary one.
  -- The previous key becomes the secondary one, valid until the grace period is over, if the period
  -- is not 0, there was a previous key and it is another one; else there is no secondary key and
  -- its deadline is 0. Every other field stays as it was.
  pub rotate_validator_pubkey_lem :
      (k : Pubkey) (grace now : ℤ) {s : Registry}
      → length k ≡ 32
      → IsI64 now
      → rotate_validator_pubkey chain program admin k grace now r ≡ ok s
      → (secondary : Pubkey) × (valid_until : ℤ) × HasWindow
          (config_of r).validator_pubkey
          k
          now
          grace
          secondary
          valid_until
        × (config_of s ≡ record (config_of r) {
          validator_pubkey = k;
          secondary_validator_pubkey = secondary;
          secondary_validator_valid_until = valid_until;
        })
        × ((config_of r).admin ≡ admin)
        × (k ≢ default_pubkey)
        × (pos 0 ≤ℤ grace)
        × (grace ≤ℤ pos 86400)
        × (length s.data_bytes ≡ config_len)
  rotate_validator_pubkey_lem k grace now {s} h t e =
      let (window, opens, fields, owned, named, size) = rotated_fields k grace now h t e in
      let (low, high) = grace_bounds k grace now e in
      (
        window.0,
        window.1,
        grace_window-HasWindow (config_of r).validator_pubkey k now grace opens,
        fields,
        owned,
        named,
        low,
        high,
        size,
      )
