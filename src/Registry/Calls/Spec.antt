-- ===== src/Registry/Calls/Spec.antt =====
-- What each instruction promises, on the fields of the configuration: no bytes, no offsets.
use protocol_core.Base.{◌≡◌, ◌≢◌, ◌≤◌, ◌<◌, ◌^◌, Result, ok, err, length}
use protocol_core.Base.Int.{ℤ, pos, IsI64}
use protocol_core.Base.Bytes.{sub}
use protocol_core.Chain.{Pubkey}
use protocol_core.Registry.Config.{ProtocolConfig, IsConfig}
use protocol_core.Registry.State.{Program, default_pubkey}
use protocol_core.Registry.Setup.{initial_config}
use protocol_core.Registry.Keys.{grace_window}
use protocol_core.Registry.Calls.{
  Call, initialize, update_config, set_key, rotate_key, propose, accept, migrate, set_versions,
  withdraw,
}

abbrev with_window : ProtocolConfig → Pubkey → Result (Pubkey × ℤ) → ProtocolConfig
with_window c k (ok w) = record c {
  validator_pubkey = k;
  secondary_validator_pubkey = w.0;
  secondary_validator_valid_until = w.1;
}
with_window c k (err e) = c

-- The fields after a call that succeeds.
unfoldable pub spec : Program → Call → ProtocolConfig → ProtocolConfig
spec program (initialize admin args) c = initial_config program admin args
spec program (update_config admin fee) c = record c { verification_fee = fee }
spec program (set_key admin k) c = record c {
  validator_pubkey = k;
  secondary_validator_pubkey = default_pubkey;
  secondary_validator_valid_until = pos 0;
}
spec program (rotate_key admin k grace now) c =
    with_window c k (grace_window c.validator_pubkey k now grace)
spec program (propose admin k) c = record c { pending_authority = k }
spec program (accept signer) c = record c { admin = signer; pending_authority = default_pubkey }
spec program (migrate programdata signer) c = record c { admin = signer }
spec program (set_versions admin current minimum) c = record c {
  current_projection_version = current;
  minimum_supported_projection_version = minimum;
}
spec program _ c = c

-- Who may make the call, and with which arguments.
abbrev pub Permitted : Call → ProtocolConfig → Type 0
Permitted (initialize admin args) c = args.validator_pubkey ≢ default_pubkey
Permitted (update_config admin fee) c = c.admin ≡ admin
Permitted (set_key admin k) c = (c.admin ≡ admin) × (k ≢ default_pubkey)
Permitted (rotate_key admin k grace now) c = (c.admin ≡ admin) × (k ≢ default_pubkey)
Permitted (propose admin k) c = (c.admin ≡ admin) × (k ≢ default_pubkey)
Permitted (accept signer) c = (c.pending_authority ≡ signer) × (signer ≢ default_pubkey)
Permitted (migrate programdata signer) c = sub programdata 13 32 ≡ signer
Permitted (set_versions admin current minimum) c =
    (c.admin ≡ admin)
    × (minimum ≤ current)
    × (c.current_projection_version ≤ current)
    × (c.minimum_supported_projection_version ≤ minimum)
Permitted (withdraw admin amount) c = c.admin ≡ admin
Permitted _ c = Unit

-- The sizes and ranges of the arguments' Rust types.
abbrev pub IsCall : Program → Call → Type 0
IsCall program (initialize admin args) = IsConfig (initial_config program admin args)
IsCall program (update_config admin fee) = fee < 256 ^ 8
IsCall program (set_key admin k) = length k ≡ 32
IsCall program (rotate_key admin k grace now) = (length k ≡ 32) × IsI64 now
IsCall program (propose admin k) = length k ≡ 32
IsCall program (accept signer) = length signer ≡ 32
IsCall program (migrate programdata signer) = length signer ≡ 32
IsCall program (set_versions admin current minimum) = (current < 256 ^ 2) × (minimum < 256 ^ 2)
IsCall program _ = Unit
