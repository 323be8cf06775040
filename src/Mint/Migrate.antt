-- ===== src/Mint/Migrate.antt =====
-- `authorize_new_wallet` and `migrate_identity`: two wallets agree, then the new one takes the
-- identity over, with a token of its own, and the old identity and its token are gone.
pub mod Laws
pub mod Moved
pub mod Amounts
pub mod Authority
use protocol_core.Base.{
  ℕ, suc, ◌+◌, Bool, true, false, not, ◌&&◌, Option, none, some, List, [], ◌∷◌, length, leb,
  if◌then◌else◌, Result, ok, err, framework, FrameworkError, EntrosAnchorError, require, ok_or,
  ◌>>=◌, ◌>>◌,
}
use protocol_core.Base.Words.{Bytes, from_le_bytes}
use protocol_core.Base.Bytes.{bytes_eq, slice, zeros}
use protocol_core.Chain.{Pubkey}
use protocol_core.Update.State.{Environment, Account, IdentityState, migrate_identity_event}
use protocol_core.Update.Proofs.{anchor_error}
use protocol_core.Mint.State.{
  Cpi, Store, Tokens, World, Meta, init_identity, load_identity, exit_identity, close_cell,
  advance_at, run_cpis,
}
use protocol_core.Mint.Token.{issue_token}
use protocol_core.Mint.Issue.{config_of, pay}

-- The mint and the token account of a wallet, as the contexts ask for them.
unfoldable pub check_token : Environment → Tokens → Pubkey → Pubkey → Store → Result (Unit {0})
check_token env tokens wallet token_account s = do
  require (tokens.is_mint s (env.mint_key wallet)) (framework FrameworkError.constraint_violated)
  require (tokens.is_associated s token_account (env.mint_key wallet) wallet)
      (framework FrameworkError.constraint_violated)

-- Both wallets sign.
unfoldable pub authorize_new_wallet :
    Environment → Tokens → Pubkey → Pubkey → Pubkey → World → Result World
authorize_new_wallet env tokens signer signer_new token_account w = do
  let k = env.identity_key signer
  identity ← load_identity env k w.store
  check_token env tokens signer token_account w.store
  let named : IdentityState = record identity { new_wallet = signer_new }
  approved ← run_cpis tokens (Cpi.approve token_account signer_new signer 1 ∷ []) w.store
  ok (record w { store = exit_identity env k named approved })

-- The counters of both wallets are the remaining accounts, in a build with the feature.
unfoldable pub take_counters :
    Environment → Pubkey → Pubkey → IdentityState → List Meta → Store → Result Store
take_counters env wallet_old user identity_old (m ∷ n ∷ []) s =
    if env.request_bound_v1
    then (do
      require (bytes_eq identity_old.owner wallet_old && bytes_eq identity_old.new_wallet user)
          (anchor_error EntrosAnchorError.unauthorized_new_wallet)
      require (not (bytes_eq wallet_old user))
          (anchor_error EntrosAnchorError.invalid_request_context)
      first ← advance_at env identity_old.owner user m s
      advance_at env user user n first)
    else ok s
take_counters env wallet_old user identity_old [] s =
    if env.request_bound_v1
    then err (anchor_error EntrosAnchorError.invalid_request_context)
    else ok s
take_counters env wallet_old user identity_old (m ∷ []) s =
    if env.request_bound_v1
    then err (anchor_error EntrosAnchorError.invalid_request_context)
    else ok s
take_counters env wallet_old user identity_old (m ∷ n ∷ o ∷ ms) s =
    if env.request_bound_v1
    then err (anchor_error EntrosAnchorError.invalid_request_context)
    else ok s

-- The new identity: the new wallet's owner, mint and bump, the old one's history, and no wallet to
-- move on to.
unfoldable pub migrated_identity : Environment → Pubkey → IdentityState → IdentityState
migrated_identity env user old = record old {
  owner = user;
  mint = env.mint_key user;
  bump = env.identity_bump user;
  new_wallet = zeros 32;
}

unfoldable pub read_migration_fee : Environment → Account → Result ℕ
read_migration_fee env config = do
  require (bytes_eq config.owner env.registry_id)
      (anchor_error EntrosAnchorError.invalid_protocol_config)
  if leb 77 (length config.data_bytes)
      then (slice config.data_bytes 69 8 >>= λ bs. ok (from_le_bytes bs))
      else ok 0

-- The old token is burnt by the wallet that was approved, and its mint is closed.
abbrev pub retire_calls : Environment → Pubkey → Pubkey → Pubkey → List Cpi
retire_calls env wallet_old user token_account_old =
    Cpi.burn (env.mint_key wallet_old) token_account_old user 1
    ∷ Cpi.close_account (env.mint_key wallet_old) user env.mint_authority_key
    ∷ []

-- The new wallet signs.
unfoldable pub migrate_identity :
    Environment → Tokens → Pubkey → Pubkey → Pubkey → Pubkey → List Meta → World → Result World
migrate_identity env tokens user wallet_old token_account token_account_old remaining w = do
  let k = env.identity_key user
  let k_old = env.identity_key wallet_old
  opened ← init_identity env user k w.store
  identity_old ← load_identity env k_old opened
  check_token env tokens wallet_old token_account_old opened
  counted ← take_counters env wallet_old user identity_old remaining opened
  issued ← issue_token env tokens user token_account counted
  require (bytes_eq identity_old.new_wallet user)
      (anchor_error EntrosAnchorError.unauthorized_new_wallet)
  fee ← read_migration_fee env (config_of env issued)
  paid ← pay env user fee issued
  retired ← run_cpis tokens (retire_calls env wallet_old user token_account_old) paid
  let moved = exit_identity env k (migrated_identity env user identity_old) retired
  ok (record {
    store = close_cell env k_old wallet_old moved;
    events = migrate_identity_event wallet_old user k_old k ∷ w.events;
  })
