-- ===== src/Lifetime/Follows.antt =====
-- What no call changes in an identity, and what only moves forward.
use protocol_core.Lifetime.Held.{
  CallSizes, AllTyped, Names, AnyNames, Follows, Follows-refl, Follows-later, Follows-trans, IsHeld,
  IsTyped, stored-IsHeld,
}
use protocol_core.Base.{
  ℕ, ◌<◌, ◌≤◌, ◌^◌, ◌≡◌, refl, ap, sym, subst, ◌∙◌, inl, inr, Bool, true, false, Option, none, some,
  List, [], ◌∷◌, length, arith, ok, Result-cases,
}
use protocol_core.Base.Int.{ℤ, pos, IsI64, +ℤ_parts}
use protocol_core.Base.Words.{Bytes}
use protocol_core.Base.Bytes.{put, resize_full, length-resize}
use protocol_core.Chain.{Pubkey}
use protocol_core.Receipt.Digest.{UpdateReceiptArgs}
use protocol_core.Counter.{upgrade_identity_layout}
use protocol_core.Counter.Laws.{upgraded}
use protocol_core.Update.State.{Environment, Anchor, Account, IdentityState, identity_len}
use protocol_core.Update.Layout.Laws.{IsIdentity}
use protocol_core.Update.Layout.Codec.{Codec}
use protocol_core.Update.Identity.Laws.{update_identity_lem}
use protocol_core.Update.Handler.{
  process_anchor_update, update_anchor, update_anchor_compact, update_anchor_bound,
}
use protocol_core.Update.Handler.Laws.{full_bytes, process_anchor_update_lem}
use protocol_core.Mint.State.{Cell, Store, Tokens, World, set_cell}
use protocol_core.Mint.State.Laws.{RuntimeLaws, set_cell_self}
use protocol_core.Mint.Migrate.{authorize_new_wallet}
use protocol_core.Mint.Migrate.Authority.{authorize_new_wallet_lem}
use protocol_core.Recovery.Shared.{Remaining, program_of, holding}
use protocol_core.Recovery.Reset.{reset_identity, reset_identity_state}
use protocol_core.Recovery.Reset.Laws.{reset_identity_state_lem}
use protocol_core.Recovery.Rebaseline.{rebaseline_identity, rebaseline_anchor}
use protocol_core.Recovery.Rebaseline.Laws.{rebaseline_anchor_lem}
use protocol_core.Lifetime.{
  Transaction, Call, upgrade_layout, name_wallet, perform, within, meet, exec, run,
}
use protocol_core.Lifetime.Ranges.{
  AreBytes, BoundSizes, read_fees_lt, check_result_size, updated-IsIdentity, reset-IsIdentity,
  rebaseline-IsIdentity,
}

abbrev Nobody : Pubkey → Type 0
Nobody = λ a. ⊥

-- The state after a call: an identity that follows the one before.
abbrev Kept : Environment → (Pubkey → Type 0) → IdentityState → Anchor → Type 0
Kept env Named i t = (j : IdentityState) × IsHeld env t j × Follows Named i j

pub named_IsIdentity :
    (i : IdentityState) (user : Pubkey)
    → IsIdentity i
    → length user ≡ 32
    → IsIdentity (record i { new_wallet = user })
named_IsIdentity i user v size = ground arith

full_bytes_long : (d : Bytes) → identity_len ≤ length d → full_bytes d ≡ d
full_bytes_long d h = ground arith

module _ (env : Environment) (tokens : Tokens) (laws : RuntimeLaws env tokens) (codec : Codec env)
    (sizes : BoundSizes env) (wallet : Pubkey) (now : ℤ) (time : IsI64 now) (w : Anchor)
    (i : IdentityState) (held : IsHeld env w i) (bytes : AreBytes w.config.data_bytes) where
  update-Kept :
      (receipt : UpdateReceiptArgs) (expected : Option Bytes) (is_bound : Bool) {t : Anchor}
      → process_anchor_update env wallet now receipt expected is_bound w ≡ ok t
      → Kept env Nobody i t
  update-Kept receipt expected is_bound {t} e =
      let u = process_anchor_update_lem env wallet now receipt expected is_bound w e in
      let same : some u.before ≡ some i = sym u.reads ∙ held.reads in
      let before : u.before ≡ i = cc same in
      let range = subst IsIdentity (sym before) held.range in
      let wide = check_result_size env is_bound wallet now u.before u.grown sizes u.proved in
      let later =
        updated-IsIdentity env u.before.projection_version w.config now u.checked.commitment_new
          u.before bytes u.configured u.computed time wide range in
      let shape =
        update_identity_lem u.settings.base_trust_increment u.settings.max_trust_score now
          u.checked.commitment_new u.before u.computed in
      (
        u.later,
        stored-IsHeld env w t u.later codec held.full later u.written,
        subst (λ k. Follows Nobody k u.later) before
            (rw (shape.2) (record {
              same_owner = refl;
              same_creation = refl;
              same_mint = refl;
              same_bump = refl;
              wallet = inl refl;
              reset_forward = omega arith;
              rebaseline_forward = omega arith;
            })),
      )

  pub reset-Kept :
      (c : Bytes) (version : ℕ) (remaining : List Remaining) {t : Anchor}
      → length c ≡ 32
      → reset_identity_state env wallet now c version remaining w ≡ ok t
      → (j : IdentityState) × IsHeld env t j × Follows Nobody i j × (j.last_reset_timestamp ≡ now)
  unfolding reset_identity
  reset-Kept c version remaining {t} size e =
      let r = reset_identity_state_lem env wallet now c version remaining w e in
      let same : some r.before ≡ some i = sym r.reads ∙ held.reads in
      let before : r.before ≡ i = cc same in
      let range = subst IsIdentity (sym before) held.range in
      let current = read_fees_lt env w.config bytes r.configured in
      let below : version < 256 ^ 2 = rw (r.requested) current in
      let j = reset_identity now c version r.before in
      (
        j,
        stored-IsHeld env w t j codec held.full
            (reset-IsIdentity now c version r.before time size below range)
            (ap (λ (a : Account). a.data_bytes) r.written),
        subst (λ k. Follows Nobody k j) before
            (record {
              same_owner = refl;
              same_creation = refl;
              same_mint = refl;
              same_bump = refl;
              wallet = inl refl;
              reset_forward =
                  omega (arith, r.cooled, +ℤ_parts r.before.last_reset_timestamp (pos 604800));
              rebaseline_forward = omega arith;
            }),
        refl,
      )

  pub rebaseline-Kept :
      (c : Bytes) (version : ℕ) (remaining : List Remaining) {t : Anchor}
      → length c ≡ 32
      → rebaseline_anchor env wallet now c version remaining w ≡ ok t
      → (j : IdentityState) × IsHeld env t j
        × Follows Nobody i j
        × (j.last_rebaseline_timestamp ≡ now)
  unfolding rebaseline_identity
  rebaseline-Kept c version remaining {t} size e =
      let r = rebaseline_anchor_lem env wallet now c version remaining w e in
      let same : some r.before ≡ some i = sym r.reads ∙ held.reads in
      let before : r.before ≡ i = cc same in
      let range = subst IsIdentity (sym before) held.range in
      let current = read_fees_lt env w.config bytes r.configured in
      let below : version < 256 ^ 2 = rw (r.requested) current in
      let j = rebaseline_identity now c version r.before in
      (
        j,
        stored-IsHeld env w t j codec held.full
            (rebaseline-IsIdentity now c version r.before time size below range)
            (ap (λ (a : Account). a.data_bytes) r.written),
        subst (λ k. Follows Nobody k j) before
            (record {
              same_owner = refl;
              same_creation = refl;
              same_mint = refl;
              same_bump = refl;
              wallet = inl refl;
              reset_forward = omega arith;
              rebaseline_forward =
                  omega (arith, r.cooled, +ℤ_parts r.before.last_rebaseline_timestamp (pos 604800));
            }),
        refl,
      )

  upgrade-Kept : {t : Anchor} → upgrade_layout env wallet w ≡ ok t → Kept env Nobody i t
  unfolding upgrade_layout
  upgrade-Kept {t} e =
      let m =
        upgrade_identity_layout (program_of env) env.request_bound_v1 wallet
          (holding w.identity w) in
      elim (Result-cases m) [
        | inr (x, q) ↦ ground arith
        | inl (h, q) ↦
            let u =
              upgraded (program_of env) env.request_bound_v1 wallet (holding w.identity w) q in
            let same : full_bytes t.identity.data_bytes ≡ full_bytes w.identity.data_bytes =
              ground (
                arith,
                u,
                length-resize w.identity.data_bytes identity_len,
                resize_full w.identity.data_bytes identity_len,
              ) in
            (
              i,
              record {
                full = ap length same ∙ held.full;
                reads = ap env.deserialize same ∙ held.reads;
                range = held.range;
              },
              Follows-refl Nobody i,
            )
      ]

  name_wallet-Kept :
      (signer_new token_account : Pubkey) (others : Store) {t : Anchor}
      → length signer_new ≡ 32
      → name_wallet env tokens wallet signer_new token_account others w ≡ ok t
      → Kept env (λ a. a ≡ signer_new) i t
  unfolding name_wallet
  name_wallet-Kept signer_new token_account others {t} size e =
      let k = env.identity_key wallet in
      let d = w.identity.data_bytes in
      let cell : Cell = record { owner = w.identity.owner; data_bytes = d } in
      let met : Store = record others { ledger = w.ledger } in
      let start : World = record { store = set_cell met k cell; events = w.events } in
      elim (Result-cases (authorize_new_wallet env tokens wallet signer_new token_account start)) [
        | inr (x, q) ↦ ground arith
        | inl (u, q) ↦
            let a =
              authorize_new_wallet_lem env tokens laws wallet signer_new token_account start q in
            let found : start.store.accounts k ≡ cell = set_cell_self met k cell in
            let read : env.deserialize d ≡ some a.before =
              ap (λ (c : Cell). env.deserialize c.data_bytes) (sym found) ∙ a.reads in
            let whole : full_bytes d ≡ d = full_bytes_long d (codec.reads_full d a.before read) in
            let same : some a.before ≡ some i =
              sym read ∙ ap env.deserialize (sym whole) ∙ held.reads in
            let before : a.before ≡ i = cc same in
            let j : IdentityState = record i { new_wallet = signer_new } in
            let there : t.identity.data_bytes ≡ (u.store.accounts k).data_bytes = ground arith in
            let named : IdentityState → Bytes → Bytes =
              λ b c. put c 0 (env.serialize (record b { new_wallet = signer_new })) in
            let written : t.identity.data_bytes ≡ named i (full_bytes d) =
              there
              ∙ ap (λ (c : Cell). c.data_bytes) a.named
              ∙ ap (λ (c : Cell). named a.before c.data_bytes) found
              ∙ ap (λ b. named b d) before
              ∙ ap (named i) (sym whole) in
            (
              j,
              stored-IsHeld env w t j codec held.full
                  (named_IsIdentity i signer_new held.range size) written,
              record {
                same_owner = refl;
                same_creation = refl;
                same_mint = refl;
                same_bump = refl;
                wallet = inr refl;
                reset_forward = omega arith;
                rebaseline_forward = omega arith;
              },
            )
      ]

  perform-Kept :
      (c : Call) {t : Anchor}
      → CallSizes c
      → perform env tokens wallet now c w ≡ ok t
      → Kept env (Names c) i t
  unfolding perform update_anchor update_anchor_compact update_anchor_bound
  perform-Kept (Call.update c receipt) {t} s e = update-Kept receipt (some c) false (ground arith)
  perform-Kept (Call.compact receipt) {t} s e = update-Kept receipt none false e
  perform-Kept (Call.bound receipt) {t} s e = update-Kept receipt none true e
  perform-Kept (Call.reset c version remaining) {t} s e =
      let r = reset-Kept c version remaining s e in (r.0, r.1, r.2)
  perform-Kept (Call.rebaseline c version remaining) {t} s e =
      let r = rebaseline-Kept c version remaining s e in (r.0, r.1, r.2)
  perform-Kept Call.upgrade {t} s e = upgrade-Kept e
  perform-Kept (Call.authorize signer_new token_account others) {t} s e =
      name_wallet-Kept signer_new token_account others s e

module _ (env : Environment) (tokens : Tokens) (laws : RuntimeLaws env tokens) (codec : Codec env)
    (sizes : BoundSizes env) (wallet : Pubkey) where
  -- One call, in its transaction.
  pub exec-Kept :
      (x : Transaction) (c : Call) (w : Anchor) (i : IdentityState) {t : Anchor}
      → IsTyped x c
      → IsHeld env w i
      → exec env tokens wallet x c w ≡ ok t
      → Kept env (Names c) i t
  unfolding exec
  exec-Kept x c w i {t} h held e =
      let (j, kept, f) =
        perform-Kept (within env x) tokens (record { writes_own = laws.writes_own })
          (record { round_trip = codec.round_trip; reads_full = codec.reads_full })
          (record { new_size = sizes.new_size }) wallet x.now h.now_i64 (meet x w) i
          (record { full = held.full; reads = held.reads; range = held.range }) h.config_bytes c
          h.sizes e in
      (j, record { full = kept.full; reads = kept.reads; range = kept.range }, f)

  -- Through any calls of updates, resets, rebaselines, upgrades of the layout and authorizations, in
  -- any order, failed ones included, and whatever others do to the other accounts in between, the
  -- account goes on holding an identity within the ranges of the Rust types; its owner, creation,
  -- mint and bump stay, the wallet that it names stays or is one that an authorization among the
  -- calls names, and the times of the last reset and the last rebaseline never go back, whatever
  -- the clock does. The codec has the round trip on accounts of full length and refuses shorter
  -- ones, the runtime keeps its law, and the arguments, the times and the configuration's bytes
  -- have their Rust types.
  pub run-Follows :
      (calls : List (Transaction × Call)) (w : Anchor) (i : IdentityState)
      → AllTyped calls
      → IsHeld env w i
      → (j : IdentityState) × IsHeld env (run env tokens wallet calls w) j
        × Follows (AnyNames calls) i j
  unfolding run
  run-Follows [] w i h held = (i, held, Follows-refl Nobody i)
  run-Follows (xc ∷ rest) w i h held = elim (Result-cases (exec env tokens wallet xc.0 xc.1 w)) [
    | inr (x, q) ↦
        let (j, kept, f) = run-Follows rest w i h.1 held in
        rw q (j, kept, Follows-later (Names xc.1) (AnyNames rest) i j f)
    | inl (t, q) ↦
        let (j, kept, f) = exec-Kept xc.0 xc.1 w i h.0 held q in
        let (k, last, g) = run-Follows rest t j h.1 kept in
        rw q (k, last, Follows-trans (Names xc.1) (AnyNames rest) i j k f g)
  ]
