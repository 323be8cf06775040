-- ===== src/Mint/Migrate/Moved.antt =====
-- An identity that moves: what the new account holds, that the old one is gone, and what stays.
use protocol_core.Base.{◌≡◌, ◌≢◌, ap, sym, ◌∙◌, inl, some, List, [], length, ok}
use protocol_core.Base.Bytes.{put, zeros}
use protocol_core.Chain.{Pubkey}
use protocol_core.Update.State.{Environment, IdentityState, identity_len}
use protocol_core.Mint.State.{
  Cell, Store, Tokens, World, Meta, init_identity, exit_identity, close_cell,
}
use protocol_core.Mint.State.Laws.{
  IsOurs, RuntimeLaws, set_cell_self, set_cell_ne, run_cpis-writes_own, new_cell, init_identity_lem,
  init_identity_self, init_identity_ne, load_identity_lem,
}
use protocol_core.Mint.Issue.Laws.{exit_identity-put, exit_identity_ne}
use protocol_core.Mint.Issue.Steps.{issue-writes_own, pay_accounts}
use protocol_core.Mint.Migrate.{migrated_identity, retire_calls, migrate_identity}
use protocol_core.Mint.Migrate.Laws.{CountBoth, both_ne, Steps, steps}

-- The address of another account than the identities and the counters of the two wallets.
pub record IsElsewhere (env : Environment) (user wallet_old x : Pubkey) : Type 0 where
  pub not_new : x ≢ env.identity_key user
  pub not_old : x ≢ env.identity_key wallet_old
  pub not_counter : x ≢ env.request_state_key user
  pub not_old_counter : x ≢ env.request_state_key wallet_old

-- Program addresses of different seeds are different.
pub record AreDistinct (env : Environment) (user wallet_old : Pubkey) : Type 0 where
  pub two : env.identity_key wallet_old ≢ env.identity_key user
  pub no_counter : env.identity_key user ≢ env.request_state_key user
  pub no_old_counter : env.identity_key user ≢ env.request_state_key wallet_old

-- What lies between the worlds before and after a migration.
pub record IsMigrated (env : Environment) (user wallet_old : Pubkey) (remaining : List Meta)
    (w t : World) : Type 0 where
  pub old : IdentityState
  pub opened : Store
  pub counted : Store
  pub old_program : (w.store.accounts (env.identity_key wallet_old)).owner ≡ env.id
  pub reads : env.deserialize (w.store.accounts (env.identity_key wallet_old)).data_bytes ≡ some old
  pub agreed : old.new_wallet ≡ user
  pub unowned : (w.store.accounts (env.identity_key user)).owner ≡ env.system_program
  pub unused : length (w.store.accounts (env.identity_key user)).data_bytes ≡ 0
  pub opens : init_identity env user (env.identity_key user) w.store ≡ ok opened
  pub counts : CountBoth env wallet_old user old remaining opened counted
  pub moved : t.store.accounts (env.identity_key user) ≡ record {
    owner = env.id;
    data_bytes = put (zeros identity_len) 0 (
        env.serialize (record old {
          owner = user;
          mint = env.mint_key user;
          bump = env.identity_bump user;
          new_wallet = zeros 32;
        }));
  }
  pub gone :
      t.store.accounts (env.identity_key wallet_old)
      ≡ record { owner = env.system_program; data_bytes = [] }

close_cell_self :
    (env : Environment) (k target : Pubkey) (s : Store)
    → (close_cell env k target s).accounts k
      ≡ record { owner = env.system_program; data_bytes = [] }
unfolding close_cell
close_cell_self env k target s =
    set_cell_self (record s { ledger = env.chain.close s.ledger k target }) k
      (record { owner = env.system_program; data_bytes = [] })

pub close_cell_ne :
    (env : Environment) (k target : Pubkey) (s : Store) (x : Pubkey)
    → x ≢ k
    → (close_cell env k target s).accounts x ≡ s.accounts x
unfolding close_cell
close_cell_ne env k target s x h =
    set_cell_ne (record s { ledger = env.chain.close s.ledger k target }) k
      (record { owner = env.system_program; data_bytes = [] }) x h

module _ (env : Environment) (tokens : Tokens) (laws : RuntimeLaws env tokens)
    (user wallet_old token_account token_account_old : Pubkey) (remaining : List Meta) (w : World)
    {t : World}
    (done : migrate_identity env tokens user wallet_old token_account token_account_old remaining w
      ≡ ok t) where
  -- From the counters to the calls that retire the old token, an account of ours stays.
  calls_same :
      (m : Steps env tokens user wallet_old token_account token_account_old remaining w t)
      (x : Pubkey)
      → IsOurs env (m.counted.accounts x)
      → m.retired.accounts x ≡ m.counted.accounts x
  calls_same m x ours =
      let issued = issue-writes_own env tokens laws user token_account m.counted x m.issues ours in
      let paid =
        ap (λ (f : Pubkey → Cell). f x) (pay_accounts env user m.fee m.issued m.pays) ∙ issued in
      run_cpis-writes_own env tokens laws (retire_calls env wallet_old user token_account_old)
        m.paid x m.retires (rw paid ours)
      ∙ paid

  -- A migration that succeeds touches no account of the anchor or the registry but the two wallets'
  -- identities and counters, if the runtime keeps its law.
  pub migrate_identity_elsewhere :
      (x : Pubkey)
      → IsElsewhere env user wallet_old x
      → IsOurs env (w.store.accounts x)
      → t.store.accounts x ≡ w.store.accounts x
  migrate_identity_elsewhere x h ours =
      let m = steps env tokens user wallet_old token_account token_account_old remaining w done in
      let counted =
        both_ne env wallet_old user m.old remaining m.opened m.counted x m.counts h.not_old_counter
          h.not_counter
        ∙ init_identity_ne env user (env.identity_key user) x w.store m.opens h.not_new in
      ap (λ (s : Store). s.accounts x) m.exits
      ∙ close_cell_ne env (env.identity_key wallet_old) wallet_old
          (exit_identity env (env.identity_key user) (migrated_identity env user m.old) m.retired) x
          h.not_old
      ∙ exit_identity_ne env (env.identity_key user) (migrated_identity env user m.old) m.retired x
          h.not_new
      ∙ calls_same m x (rw counted ours)
      ∙ counted

  pub migrate_identity_lem :
      AreDistinct env user wallet_old → IsMigrated env user wallet_old remaining w t
  unfolding migrated_identity
  migrate_identity_lem h =
      let m = steps env tokens user wallet_old token_account token_account_old remaining w done in
      let k = env.identity_key user in
      let k_old = env.identity_key wallet_old in
      let free = init_identity_lem env user k w.store m.opens in
      let before = init_identity_ne env user k k_old w.store m.opens h.two in
      let loaded = load_identity_lem env k_old m.opened m.loads in
      let counted : m.counted.accounts k ≡ new_cell env =
        both_ne env wallet_old user m.old remaining m.opened m.counted k m.counts h.no_old_counter
          h.no_counter
        ∙ init_identity_self env user k w.store m.opens in
      let kept = calls_same m k (inl (ap (λ c. c.owner) counted)) ∙ counted in
      let i = migrated_identity env user m.old in
      record {
        old = m.old;
        opened = m.opened;
        counted = m.counted;
        old_program = ap (λ c. c.owner) (sym before) ∙ loaded.0;
        reads = ap (λ (c : Cell). env.deserialize c.data_bytes) (sym before) ∙ loaded.1;
        agreed = m.agreed;
        unowned = free.0;
        unused = free.1;
        opens = m.opens;
        counts = m.counts;
        moved =
            ap (λ (s : Store). s.accounts k) m.exits
            ∙ close_cell_ne env k_old wallet_old (exit_identity env k i m.retired) k
                (λ e. h.two (sym e))
            ∙ exit_identity-put env k i m.retired
            ∙ ap
                (λ (c : Cell). record {
                  owner = c.owner;
                  data_bytes = put c.data_bytes 0 (env.serialize i);
                })
                kept;
        gone =
            ap (λ (s : Store). s.accounts k_old) m.exits
            ∙ close_cell_self env k_old wallet_old (exit_identity env k i m.retired);
      }
