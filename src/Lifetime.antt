-- ===== src/Lifetime.antt =====
-- programs/entros-anchor/src/lib.rs: the instructions on one wallet's identity, in any order and
-- with anything happening to the other accounts in between. `prepare_proof_request` and
-- `set_encrypted_baseline` write to other accounts only; minting and migration, which make and close
-- the account, are steps of Mint.
pub mod Ranges
pub mod Held
pub mod Follows
pub mod Cooldown
pub mod Migration
pub mod Tests
use protocol_core.Base.{ℕ, Bool, Option, List, [], ◌∷◌, Result, ok, err, ◌>>=◌}
use protocol_core.Base.Int.{ℤ}
use protocol_core.Base.Words.{Bytes}
use protocol_core.Chain.{Pubkey, Ledger}
use protocol_core.Receipt.Instruction.{Sysvar}
use protocol_core.Receipt.Digest.{UpdateReceiptArgs}
use protocol_core.Counter.{upgrade_identity_layout}
use protocol_core.Update.State.{Environment, Anchor, Account}
use protocol_core.Update.Handler.{update_anchor, update_anchor_compact, update_anchor_bound}
use protocol_core.Mint.State.{Cell, Store, Tokens, World, set_cell}
use protocol_core.Mint.Migrate.{authorize_new_wallet}
use protocol_core.Recovery.Shared.{Remaining, program_of, holding}
use protocol_core.Recovery.Reset.{reset_identity_state}
use protocol_core.Recovery.Rebaseline.{rebaseline_anchor}

-- What surrounds a call: the clock, the transaction, and the accounts as others have left them.
pub record Transaction : Type 0 where
  pub now : ℤ
  pub sysvar : Sysvar
  pub result : Account
  pub config : Account
  pub request_state : Account
  pub ledger : Ledger

pub data Call : Type 0 where
  update : Bytes → UpdateReceiptArgs → Call
  compact : UpdateReceiptArgs → Call
  bound : UpdateReceiptArgs → Call
  reset : Bytes → ℕ → List Remaining → Call
  rebaseline : Bytes → ℕ → List Remaining → Call
  upgrade : Call
  -- the new wallet, the token account, and the accounts that the call meets
  authorize : Pubkey → Pubkey → Store → Call

-- `upgrade_identity_layout` on the wallet's identity.
unfoldable pub upgrade_layout : Environment → Pubkey → Anchor → Result Anchor
upgrade_layout env wallet w = do
  h ← upgrade_identity_layout (program_of env) env.request_bound_v1 wallet (holding w.identity w)
  let identity : Account = record { key = h.key; owner = h.owner; data_bytes = h.data_bytes }
  ok (record w { identity = identity; ledger = h.ledger })

-- `authorize_new_wallet` on the wallet's identity, which stands among the other accounts.
unfoldable pub name_wallet :
    Environment → Tokens → Pubkey → Pubkey → Pubkey → Store → Anchor → Result Anchor
name_wallet env tokens wallet signer_new token_account others w = do
  let k = env.identity_key wallet
  let cell : Cell = record { owner = w.identity.owner; data_bytes = w.identity.data_bytes }
  let met : Store = record others { ledger = w.ledger }
  let start : World = record { store = set_cell met k cell; events = w.events }
  t ← authorize_new_wallet env tokens wallet signer_new token_account start
  let c = t.store.accounts k
  let identity : Account = record {
    key = w.identity.key;
    owner = c.owner;
    data_bytes = c.data_bytes;
  }
  ok (record w { identity = identity; ledger = t.store.ledger; events = t.events })

unfoldable pub perform : Environment → Tokens → Pubkey → ℤ → Call → Anchor → Result Anchor
perform env tokens wallet now (Call.update c receipt) w = update_anchor env wallet now c receipt w
perform env tokens wallet now (Call.compact receipt) w =
    update_anchor_compact env wallet now receipt w
perform env tokens wallet now (Call.bound receipt) w = update_anchor_bound env wallet now receipt w
perform env tokens wallet now (Call.reset c version remaining) w =
    reset_identity_state env wallet now c version remaining w
perform env tokens wallet now (Call.rebaseline c version remaining) w =
    rebaseline_anchor env wallet now c version remaining w
perform env tokens wallet now Call.upgrade w = upgrade_layout env wallet w
perform env tokens wallet now (Call.authorize signer_new token_account others) w =
    name_wallet env tokens wallet signer_new token_account others w

abbrev pub within : Environment → Transaction → Environment
within env x = record env { sysvar = x.sysvar }

-- Others write to every account but the wallet's identity.
abbrev pub meet : Transaction → Anchor → Anchor
meet x w = record w {
  result = x.result;
  config = x.config;
  request_state = x.request_state;
  ledger = x.ledger;
}

-- A failed transaction changes nothing.
abbrev pub after : Anchor → Result Anchor → Anchor
after w (ok t) = t
after w (err e) = w

module _ (env : Environment) (tokens : Tokens) (wallet : Pubkey) where
  unfoldable pub exec : Transaction → Call → Anchor → Result Anchor
  exec x c w = perform (within env x) tokens wallet x.now c (meet x w)

  unfoldable pub run : List (Transaction × Call) → Anchor → Anchor
  run [] w = w
  run (xc ∷ rest) w = run rest (after w (exec xc.0 xc.1 w))
