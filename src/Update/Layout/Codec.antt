-- ===== src/Update/Layout/Codec.antt =====
-- The codec of `IdentityState` as the handlers rely on it, and that the derived layout meets it.
use protocol_core.Base.{◌≤◌, ◌≡◌, some, length, arith}
use protocol_core.Base.Words.{Bytes}
use protocol_core.Base.Bytes.{put}
use protocol_core.Update.State.{Environment, IdentityState, identity_len}
use protocol_core.Update.Layout.{serialize_identity, deserialize_identity}
use protocol_core.Update.Layout.Laws.{IsIdentity, deserialize-serialize_identity}

-- What is written over an account of the full length is read back, and a shorter account is refused.
pub record Codec (env : Environment) : Type 0 where
  pub round_trip :
      (d : Bytes) (i : IdentityState)
      → length d ≡ identity_len
      → IsIdentity i
      → env.deserialize (put d 0 (env.serialize i)) ≡ some i
  pub reads_full :
      (d : Bytes) (i : IdentityState) → env.deserialize d ≡ some i → identity_len ≤ length d

-- The environment with the layout of programs/entros-anchor/src/state.rs.
abbrev pub with_layout : Bytes → Environment → Environment
with_layout discriminator env = record env {
  deserialize = deserialize_identity discriminator;
  serialize = serialize_identity discriminator;
}

deserialize_full :
    (discriminator d : Bytes) (i : IdentityState)
    → deserialize_identity discriminator d ≡ some i
    → identity_len ≤ length d
unfolding deserialize_identity
deserialize_full discriminator d i e = ground arith

pub with_layout-Codec :
    (discriminator : Bytes) (env : Environment)
    → length discriminator ≡ 8
    → Codec (with_layout discriminator env)
with_layout-Codec discriminator env tag = record {
  round_trip = λ d i e v. deserialize-serialize_identity discriminator i tag v d e;
  reads_full = λ d i e. deserialize_full discriminator d i e;
}
