-- ===== src/Registry/Authority.antt =====
-- The admin of the configuration: `propose_authority`, `accept_authority` and `migrate_admin`.
pub mod Laws
use protocol_core.Base.{
  ℕ, ◌+◌, ◌≡◌, Bool, true, false, not, Option, none, some, arith, length, ltb, leb, ◌==◌,
  if◌then◌else◌, Result, ok, err, panic, registry, RegistryError, require, ◌>>=◌, ◌>>◌,
}
use protocol_core.Base.Words.{Bytes}
use protocol_core.Base.Bytes.{bytes_eq, slice, index, write, resize, zeros}
use protocol_core.Chain.{Pubkey, Chain}
use protocol_core.Registry.Config.{config_len}
use protocol_core.Registry.State.{
  Registry, Program, Event, authority_transfer_proposed, authority_transfer_accepted,
  admin_migrated, default_pubkey, emit, ensure_protocol_config_len, require_admin, top_up,
}

-- The signer must be the upgrade authority that the loader's program data names: a state tag of 4
-- bytes, a slot of 8, an option tag and the key.
unfoldable pub require_upgrade_authority : Bytes → Pubkey → Result (Unit {0})
require_upgrade_authority programdata signer = do
  require (leb 45 (length programdata)) (registry RegistryError.program_data_bytes)
  tag ← index programdata 12
  require (tag == 1) (registry RegistryError.program_data_bytes)
  upgrade_authority ← slice programdata 13 32
  require (bytes_eq upgrade_authority signer) (registry RegistryError.wrong_upgrade_authority)

-- The two keys that `accept_authority` reads, the pending one checked against the signer.
unfoldable pub read_transfer : Pubkey → Bytes → Result (Pubkey × Pubkey)
read_transfer signer d = do
  require (leb 145 (length d)) (registry RegistryError.no_pending_authority)
  old_admin ← slice d 8 32
  pending ← slice d 113 32
  require (not (bytes_eq pending default_pubkey)) (registry RegistryError.no_pending_authority)
  require (bytes_eq pending signer) (registry RegistryError.unauthorized)
  ok (old_admin, pending)

module _ (chain : Chain) (program : Program) where
  unfoldable pub propose_authority : Pubkey → Pubkey → Registry → Result Registry
  propose_authority admin new_authority r = do
    require (not (bytes_eq new_authority default_pubkey))
        (registry RegistryError.invalid_pending_authority)
    require (bytes_eq r.owner program.id) (registry RegistryError.invalid_protocol_config)
    require_admin admin r
    s ← ensure_protocol_config_len chain program admin r
    d ← write s.data_bytes 113 new_authority
    ok (emit (authority_transfer_proposed admin new_authority) (record s { data_bytes = d }))

  unfoldable pub accept_authority : Pubkey → Registry → Result Registry
  accept_authority pending_authority r = do
    require (bytes_eq r.owner program.id) (registry RegistryError.invalid_protocol_config)
    keys ← read_transfer pending_authority r.data_bytes
    d ← write r.data_bytes 8 keys.1
    d' ← write d 113 (zeros 32)
    ok (emit (authority_transfer_accepted keys.0 keys.1) (record r { data_bytes = d' }))

  -- Emergency recovery: the layout grows first, then the admin is overwritten, then the rent is paid.
  unfoldable pub migrate_admin : Bytes → Pubkey → Registry → Result Registry
  migrate_admin programdata new_admin r = do
    require_upgrade_authority programdata new_admin
    require (leb 40 (length r.data_bytes)) (registry RegistryError.invalid_protocol_config)
    old_admin ← slice r.data_bytes 8 32
    d ← write (resize r.data_bytes config_len) 8 new_admin
    s ← top_up chain program new_admin config_len (record r { data_bytes = d })
    ok (emit (admin_migrated old_admin new_admin) s)
