-- ===== src/Lifetime/Migration.antt =====
-- A cooldown goes with the identity: moving it to another wallet does not shorten it.
use protocol_core.Base.{ℕ, ◌≡◌, ap, sym, ◌∙◌, some, List, length, arith, ok, length-replicate}
use protocol_core.Base.Int.{pos, ◌≤ℤ◌, ◌+ℤ◌}
use protocol_core.Base.Words.{Bytes}
use protocol_core.Base.Bytes.{put, zeros, length-put}
use protocol_core.Chain.{Pubkey}
use protocol_core.Update.State.{Environment, Anchor, IdentityState, identity_len}
use protocol_core.Update.Handler.Laws.{full_bytes}
use protocol_core.Update.Layout.Codec.{Codec}
use protocol_core.Recovery.Shared.{Remaining}
use protocol_core.Mint.State.{Cell, Tokens, World, Meta}
use protocol_core.Mint.State.Laws.{RuntimeLaws}
use protocol_core.Mint.Migrate.{migrated_identity, authorize_new_wallet, migrate_identity}
use protocol_core.Mint.Migrate.Moved.{AreDistinct, migrate_identity_lem}
use protocol_core.Mint.Migrate.Authority.{authorize_new_wallet-reads, moved-IsIdentity}
use protocol_core.Lifetime.{Transaction, Call, exec, run}
use protocol_core.Lifetime.Ranges.{BoundSizes}
use protocol_core.Lifetime.Follows.{run-Follows, named_IsIdentity}
use protocol_core.Lifetime.Held.{IsHeld, IsTyped, AllTyped, full_bytes_full}
use protocol_core.Lifetime.Cooldown.{+ℤ_below, reset_starts, reset_cooled}

module _ (env : Environment) (codec : Codec env) (tokens : Tokens) (laws : RuntimeLaws env tokens)
    (wallet user token_account token_account' token_account_old : Pubkey) (metas : List Meta)
    (w : World) {v u : World}
    (authorized : authorize_new_wallet env tokens wallet user token_account w ≡ ok v)
    (migrated : migrate_identity env tokens user wallet token_account' token_account_old metas v
      ≡ ok u)
    (user_size : length user ≡ 32) (mint_size : length (env.mint_key user) ≡ 32)
    (apart : AreDistinct env user wallet) where
  -- The account of the new wallet holds the identity that the old one held, under its name.
  migrated-IsHeld :
      (s b : Anchor) (k : IdentityState)
      → IsHeld env s k
      → (w.store.accounts (env.identity_key wallet)).data_bytes ≡ s.identity.data_bytes
      → length (w.store.accounts (env.identity_key wallet)).data_bytes ≡ identity_len
      → b.identity.data_bytes ≡ (u.store.accounts (env.identity_key user)).data_bytes
      → IsHeld env b (migrated_identity env user (record k { new_wallet = user }))
  unfolding migrated_identity
  migrated-IsHeld s b k held here size there =
      let d = (w.store.accounts (env.identity_key wallet)).data_bytes in
      let full : full_bytes s.identity.data_bytes ≡ d =
        ap full_bytes (sym here) ∙ full_bytes_full d size in
      let reads : env.deserialize d ≡ some k = ap env.deserialize (sym full) ∙ held.reads in
      let named =
        authorize_new_wallet-reads env tokens laws codec wallet user token_account w k authorized
          size reads held.range user_size in
      let m =
        migrate_identity_lem env tokens laws user wallet token_account' token_account_old metas v
          migrated apart in
      let old : m.old ≡ record k { new_wallet = user } = cc (m.reads, named) in
      let i = migrated_identity env user (record k { new_wallet = user }) in
      let range =
        moved-IsIdentity env user (record k { new_wallet = user })
          (named_IsIdentity k user held.range user_size) user_size mint_size in
      let zero = length-replicate {A = ℕ} identity_len 0 in
      let stored : b.identity.data_bytes ≡ put (zeros identity_len) 0 (env.serialize i) =
        there
        ∙ ap (λ (c : Cell). c.data_bytes) m.moved
        ∙ ap
            (λ (j : IdentityState).
              put (zeros identity_len) 0 (env.serialize (migrated_identity env user j)))
            old in
      let long : length b.identity.data_bytes ≡ identity_len =
        ap length stored ∙ length-put (zeros identity_len) 0 (env.serialize i) ∙ zero in
      let whole = full_bytes_full b.identity.data_bytes long in
      record {
        full = ap length whole ∙ long;
        reads =
            ap env.deserialize (whole ∙ stored)
            ∙ codec.round_trip (zeros identity_len) i zero range;
        range = range;
      }

  -- A reset by a wallet that took an identity over lies at least seven days after the reset of the
  -- wallet that gave it away, whatever either wallet did in between. The accounts hold identities
  -- within the ranges of the Rust types, the old one at its full length, and the two histories start
  -- and end at the accounts of the migration; the codec has the round trip and refuses shorter
  -- accounts, the runtime keeps its law, the addresses of the two wallets differ, and the arguments, the times and the
  -- configuration's bytes have their Rust types.
  pub resets_apart-migrate_identity :
      (sizes : BoundSizes env) (x x' : Transaction) (c c' : Bytes) (version version' : ℕ)
      (remaining remaining' : List Remaining) (between between' : List (Transaction × Call))
      (a b : Anchor) (i : IdentityState) {t b' : Anchor}
      → IsHeld env a i
      → IsTyped x (Call.reset c version remaining)
      → AllTyped between
      → AllTyped between'
      → exec env tokens wallet x (Call.reset c version remaining) a ≡ ok t
      → (w.store.accounts (env.identity_key wallet)).data_bytes
        ≡ (run env tokens wallet between t).identity.data_bytes
      → length (w.store.accounts (env.identity_key wallet)).data_bytes ≡ identity_len
      → b.identity.data_bytes ≡ (u.store.accounts (env.identity_key user)).data_bytes
      → exec env tokens user x' (Call.reset c' version' remaining') (run env tokens user between' b)
        ≡ ok b'
      → x.now +ℤ pos 604800 ≤ℤ x'.now
  unfolding migrated_identity
  resets_apart-migrate_identity sizes x x' c c' version version' remaining remaining' between
        between' a b i {t} held typed all all' e here size there f =
      let (j, first, at) =
        reset_starts env tokens laws codec wallet sizes x c version remaining a i held typed e in
      let (k, last, g) = run-Follows env tokens laws codec sizes wallet between t j all first in
      let moved = migrated-IsHeld (run env tokens wallet between t) b k last here size there in
      let (l, later, h) =
        run-Follows env tokens laws codec sizes user between' b
          (migrated_identity env user (record k { new_wallet = user })) all' moved in
      let since : x.now ≤ℤ k.last_reset_timestamp = rw (← at) g.reset_forward in
      let after : x.now ≤ℤ l.last_reset_timestamp = omega (arith, since, h.reset_forward) in
      +ℤ_below x.now l.last_reset_timestamp x'.now 604800 after (
        reset_cooled env tokens laws codec user x' c' version' remaining'
          (run env tokens user between' b) l later f)
