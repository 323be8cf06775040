-- ===== src/Mint/Migrate/Authority.antt =====
-- Who may move an identity: the wallet that its holder has named last, and nobody else.
use protocol_core.Base.{
  ℕ, ◌≡◌, ◌≢◌, ap, sym, ◌∙◌, inl, inr, some, List, [], ◌∷◌, length, arith, ok, length-replicate,
  Result-cases,
}
use protocol_core.Base.Words.{Bytes}
use protocol_core.Base.Bytes.{put, zeros}
use protocol_core.Chain.{Pubkey}
use protocol_core.Update.State.{Environment, IdentityState, identity_len}
use protocol_core.Update.Layout.Laws.{IsIdentity}
use protocol_core.Update.Layout.Codec.{Codec}
use protocol_core.Mint.State.{
  Cell, Store, Cpi, Tokens, World, Meta, load_identity, exit_identity, run_cpis,
}
use protocol_core.Mint.State.Laws.{RuntimeLaws, run_cpis-writes_own, load_identity_lem}
use protocol_core.Mint.Issue.Laws.{exit_identity-put}
use protocol_core.Mint.Migrate.{
  migrated_identity, check_token, authorize_new_wallet, migrate_identity,
}
use protocol_core.Mint.Migrate.Moved.{AreDistinct, migrate_identity_lem}

-- What lies between the worlds before and after an authorization.
pub record IsAuthorized (env : Environment) (signer signer_new : Pubkey) (w t : World)
    : Type 0 where
  pub before : IdentityState
  pub of_program : (w.store.accounts (env.identity_key signer)).owner ≡ env.id
  pub reads : env.deserialize (w.store.accounts (env.identity_key signer)).data_bytes ≡ some before
  pub named : t.store.accounts (env.identity_key signer) ≡ record {
    owner = env.id;
    data_bytes =
        put
          (w.store.accounts (env.identity_key signer)).data_bytes
          0
          (env.serialize (record before { new_wallet = signer_new }));
  }

module _ (env : Environment) (tokens : Tokens) (laws : RuntimeLaws env tokens)
    (signer signer_new token_account : Pubkey) (w : World) {t : World}
    (done : authorize_new_wallet env tokens signer signer_new token_account w ≡ ok t) where
  authorized_parts :
      (i : IdentityState) × (s : Store) × (load_identity env (env.identity_key signer) w.store
        ≡ ok i)
      × (run_cpis tokens (Cpi.approve token_account signer_new signer 1 ∷ []) w.store ≡ ok s)
      × (t.store
          ≡ exit_identity env (env.identity_key signer) (record i { new_wallet = signer_new }) s)
  unfolding authorize_new_wallet
  authorized_parts = elim (Result-cases (load_identity env (env.identity_key signer) w.store)) [
    | inr (x, l) ↦ ground arith
    | inl (i, l) ↦ elim (Result-cases (check_token env tokens signer token_account w.store)) [
      | inr (x, c) ↦ ground arith
      | inl (u, c) ↦
          elim (Result-cases
            (run_cpis tokens (Cpi.approve token_account signer_new signer 1 ∷ []) w.store)) [
              | inr (x, r) ↦ ground arith
              | inl (s, r) ↦ (i, s, l, r, ground arith)
            ]
    ]
  ]

  -- An authorization that succeeds found an identity of the program at the signer's address, and
  -- changes nothing in it but the wallet that it names.
  pub authorize_new_wallet_lem : IsAuthorized env signer signer_new w t
  authorize_new_wallet_lem =
      let k = env.identity_key signer in
      let (i, s, l, r, exits) = authorized_parts in
      let loaded = load_identity_lem env k w.store l in
      let kept =
        run_cpis-writes_own env tokens laws (Cpi.approve token_account signer_new signer 1 ∷ [])
          w.store k r (inl loaded.0) in
      record {
        before = i;
        of_program = loaded.0;
        reads = loaded.1;
        named =
            ap (λ (x : Store). x.accounts k) exits
            ∙ exit_identity-put env k (record i { new_wallet = signer_new }) s
            ∙ ap
                (λ (c : Cell). record {
                  owner = c.owner;
                  data_bytes =
                      put c.data_bytes 0 (env.serialize (record i { new_wallet = signer_new }));
                })
                kept
            ∙ ap
                (λ (o : Pubkey). record {
                  owner = o;
                  data_bytes =
                      put (w.store.accounts k).data_bytes 0
                        (env.serialize (record i { new_wallet = signer_new }));
                })
                loaded.0;
      }

pub moved-IsIdentity :
    (env : Environment) (user : Pubkey) (old : IdentityState)
    → IsIdentity old
    → length user ≡ 32
    → length (env.mint_key user) ≡ 32
    → IsIdentity (migrated_identity env user old)
unfolding migrated_identity
moved-IsIdentity env user old v size minted = record {
  owner_size = size;
  creation_i64 = v.creation_i64;
  last_i64 = v.last_i64;
  count_u32 = v.count_u32;
  score_u16 = v.score_u16;
  commitment_size = v.commitment_size;
  mint_size = minted;
  ring_size = v.ring_size;
  ring_i64 = v.ring_i64;
  reset_i64 = v.reset_i64;
  wallet_size = length-replicate {A = ℕ} 32 0;
  version_u16 = v.version_u16;
  rebaseline_i64 = v.rebaseline_i64;
}

module _ (env : Environment) (tokens : Tokens) (laws : RuntimeLaws env tokens)
    (codec : Codec env) where
  -- What the store holds after a write is what a migration reads.
  agreed_with :
      (user wallet_old : Pubkey) (token_account token_account_old : Pubkey) (remaining : List Meta)
      (w : World) (i : IdentityState) (d : Bytes) {t : World}
      → length d ≡ identity_len
      → IsIdentity i
      → (w.store.accounts (env.identity_key wallet_old)).data_bytes ≡ put d 0 (env.serialize i)
      → AreDistinct env user wallet_old
      → migrate_identity env tokens user wallet_old token_account token_account_old remaining w
        ≡ ok t
      → i.new_wallet ≡ user
  agreed_with user wallet_old token_account token_account_old remaining w i d e v h apart done =
      let m =
        migrate_identity_lem env tokens laws user wallet_old token_account token_account_old
          remaining w done apart in
      let held = codec.round_trip d i e v in
      let same : some m.old ≡ some i = sym m.reads ∙ ap env.deserialize h ∙ held in
      cc (same, m.agreed)

  -- What an authorization leaves is read back with the wallet that it names.
  pub authorize_new_wallet-reads :
      (signer signer_new token_account : Pubkey) (w : World) (before : IdentityState) {t : World}
      → authorize_new_wallet env tokens signer signer_new token_account w ≡ ok t
      → length (w.store.accounts (env.identity_key signer)).data_bytes ≡ identity_len
      → env.deserialize (w.store.accounts (env.identity_key signer)).data_bytes ≡ some before
      → IsIdentity before
      → length signer_new ≡ 32
      → env.deserialize (t.store.accounts (env.identity_key signer)).data_bytes
        ≡ some (record before { new_wallet = signer_new })
  authorize_new_wallet-reads signer signer_new token_account w before {t} e size reads v wide =
      let a = authorize_new_wallet_lem env tokens laws signer signer_new token_account w e in
      let d = (w.store.accounts (env.identity_key signer)).data_bytes in
      let same : a.before ≡ before = cc (a.reads, reads) in
      let named : IsIdentity (record before { new_wallet = signer_new }) = ground arith in
      ap (λ (c : Cell). env.deserialize c.data_bytes) a.named
      ∙ ap
          (λ (i : IdentityState).
            env.deserialize (put d 0 (env.serialize (record i { new_wallet = signer_new }))))
          same
      ∙ codec.round_trip d (record before { new_wallet = signer_new }) size named

  -- Right after an authorization, the wallet that it named is the only one that can take the
  -- identity over, whatever its holder had named before. The identity account has its full length
  -- and holds an identity within the ranges of the Rust types, the addresses of the two wallets
  -- differ, the runtime and the codec keep their laws.
  pub migrate_identity-authorize_new_wallet :
      (signer signer_new user token_account token_account' token_account_old : Pubkey)
      (remaining : List Meta) (w : World) (before : IdentityState) {t u : World}
      → authorize_new_wallet env tokens signer signer_new token_account w ≡ ok t
      → length (w.store.accounts (env.identity_key signer)).data_bytes ≡ identity_len
      → env.deserialize (w.store.accounts (env.identity_key signer)).data_bytes ≡ some before
      → IsIdentity before
      → length signer_new ≡ 32
      → AreDistinct env user signer
      → migrate_identity env tokens user signer token_account' token_account_old remaining t ≡ ok u
      → user ≡ signer_new
  migrate_identity-authorize_new_wallet signer signer_new user token_account token_account'
        token_account_old remaining w before {t} e size reads v wide apart done =
      let named =
        authorize_new_wallet-reads signer signer_new token_account w before e size reads v wide in
      let m =
        migrate_identity_lem env tokens laws user signer token_account' token_account_old remaining
          t done apart in
      let old : m.old ≡ record before { new_wallet = signer_new } = cc (m.reads, named) in
      sym m.agreed ∙ ap (λ (i : IdentityState). i.new_wallet) old

  -- An identity that has moved moves on only by a new authorization: right after a migration no
  -- wallet but the address of zeros can take it over. The old identity is within the ranges of the
  -- Rust types, the addresses of the wallets differ, the runtime and the codec keep their laws.
  pub migrate_identity_once :
      (wallet_old user user' : Pubkey) (token_account token_account_old : Pubkey)
      (token_account' token_account_old' : Pubkey) (remaining remaining' : List Meta) (w : World)
      (old : IdentityState) {t u : World}
      → migrate_identity env tokens user wallet_old token_account token_account_old remaining w
        ≡ ok t
      → env.deserialize (w.store.accounts (env.identity_key wallet_old)).data_bytes ≡ some old
      → IsIdentity old
      → length user ≡ 32
      → length (env.mint_key user) ≡ 32
      → user' ≢ zeros 32
      → AreDistinct env user wallet_old
      → AreDistinct env user' user
      → migrate_identity env tokens user' user token_account' token_account_old' remaining' t ≢ ok u
  unfolding migrated_identity
  migrate_identity_once wallet_old user user' token_account token_account_old token_account'
        token_account_old' remaining remaining' w old {t} e reads v size minted h apart apart'
        done =
      let m =
        migrate_identity_lem env tokens laws user wallet_old token_account token_account_old
          remaining w e apart in
      let same : m.old ≡ old = cc (m.reads, reads) in
      h (
        sym (
          agreed_with user' user token_account' token_account_old' remaining' t
            (migrated_identity env user old) (zeros identity_len)
            (length-replicate {A = ℕ} identity_len 0) (moved-IsIdentity env user old v size minted)
            (ap (λ (c : Cell). c.data_bytes) m.moved
              ∙ ap
                  (λ (i : IdentityState).
                    put (zeros identity_len) 0 (env.serialize (migrated_identity env user i)))
                  same)
            apart' done))
