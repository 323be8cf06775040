-- ===== src/Lifetime/Cooldown.antt =====
-- The cooldowns hold through every history of an identity.
use protocol_core.Base.{subst, ℕ, ◌≡◌, sym, ◌∙◌, some, List, arith, ok}
use protocol_core.Base.Int.{ℤ, pos, ◌≤ℤ◌, ◌+ℤ◌, +ℤ_parts}
use protocol_core.Base.Words.{Bytes}
use protocol_core.Chain.{Pubkey}
use protocol_core.Update.State.{Environment, Anchor, IdentityState}
use protocol_core.Update.Layout.Codec.{Codec}
use protocol_core.Mint.State.{Tokens}
use protocol_core.Mint.State.Laws.{RuntimeLaws}
use protocol_core.Recovery.Shared.{Remaining}
use protocol_core.Recovery.Reset.Laws.{reset_identity_state_lem}
use protocol_core.Recovery.Rebaseline.Laws.{rebaseline_anchor_lem}
use protocol_core.Lifetime.{Transaction, Call, perform, within, meet, exec, run}
use protocol_core.Lifetime.Ranges.{BoundSizes}
use protocol_core.Lifetime.Follows.{reset-Kept, rebaseline-Kept, run-Follows}
use protocol_core.Lifetime.Held.{IsHeld, IsTyped, AllTyped}

pub +ℤ_below : (a b c : ℤ) (n : ℕ) → a ≤ℤ b → b +ℤ pos n ≤ℤ c → a +ℤ pos n ≤ℤ c
+ℤ_below a b c n h k = omega (arith, +ℤ_parts a (pos n), +ℤ_parts b (pos n))

module _ (env : Environment) (tokens : Tokens) (laws : RuntimeLaws env tokens) (codec : Codec env)
    (wallet : Pubkey) where
  -- A reset starts the cooldown.
  pub reset_starts :
      (sizes : BoundSizes env) (x : Transaction) (c : Bytes) (version : ℕ)
      (remaining : List Remaining) (w : Anchor) (i : IdentityState) {t : Anchor}
      → IsHeld env w i
      → IsTyped x (Call.reset c version remaining)
      → exec env tokens wallet x (Call.reset c version remaining) w ≡ ok t
      → (j : IdentityState) × IsHeld env t j × (j.last_reset_timestamp ≡ x.now)
  unfolding exec perform
  reset_starts sizes x c version remaining w i held h e =
      let (j, first, follows, at) =
        reset-Kept (within env x) tokens (record { writes_own = laws.writes_own })
          (record { round_trip = codec.round_trip; reads_full = codec.reads_full })
          (record { new_size = sizes.new_size }) wallet x.now h.now_i64 (meet x w) i
          (record { full = held.full; reads = held.reads; range = held.range }) h.config_bytes c
          version remaining h.sizes e in
      (j, record { full = first.full; reads = first.reads; range = first.range }, at)

  -- A reset finds it over.
  pub reset_cooled :
      (x : Transaction) (c : Bytes) (version : ℕ) (remaining : List Remaining) (w : Anchor)
      (i : IdentityState) {t : Anchor}
      → IsHeld env w i
      → exec env tokens wallet x (Call.reset c version remaining) w ≡ ok t
      → i.last_reset_timestamp +ℤ pos 604800 ≤ℤ x.now
  unfolding exec perform
  reset_cooled x c version remaining w i held e =
      let r =
        reset_identity_state_lem (within env x) wallet x.now c version remaining (meet x w) e in
      let same : some r.before ≡ some i = sym r.reads ∙ held.reads in
      let before : r.before ≡ i = cc same in
      subst (λ (j : IdentityState). j.last_reset_timestamp +ℤ pos 604800 ≤ℤ x.now) before r.cooled

module _ (env : Environment) (tokens : Tokens) (laws : RuntimeLaws env tokens) (codec : Codec env)
    (sizes : BoundSizes env) (wallet : Pubkey) (x x' : Transaction) (c c' : Bytes)
    (version version' : ℕ) (remaining remaining' : List Remaining)
    (between : List (Transaction × Call)) (w : Anchor) (i : IdentityState) {t u : Anchor}
    (held : IsHeld env w i) where
  -- Two resets of an identity lie at least seven days apart, whatever calls lie between them, and
  -- whatever others do to the other accounts. The account holds an identity within the ranges of
  -- the Rust types, its codec has the round trip and refuses shorter accounts, the runtime keeps
  -- its law, and the arguments of the calls, the times and the configuration's bytes have their
  -- Rust types.
  pub resets_apart :
      IsTyped x (Call.reset c version remaining)
      → AllTyped between
      → exec env tokens wallet x (Call.reset c version remaining) w ≡ ok t
      → exec env tokens wallet x'
          (Call.reset c' version' remaining')
          (run env tokens wallet between t)
        ≡ ok u
      → x.now +ℤ pos 604800 ≤ℤ x'.now
  resets_apart h all e f =
      let (j, first, at) =
        reset_starts env tokens laws codec wallet sizes x c version remaining w i held h e in
      let (k, later, g) = run-Follows env tokens laws codec sizes wallet between t j all first in
      let since : x.now ≤ℤ k.last_reset_timestamp = rw (← at) g.reset_forward in
      +ℤ_below x.now k.last_reset_timestamp x'.now 604800 since (
        reset_cooled env tokens laws codec wallet x' c' version' remaining'
          (run env tokens wallet between t) k later f)

  -- Two rebaselines of an identity lie at least seven days apart, whatever calls lie between them,
  -- and whatever others do to the other accounts. The account holds an identity within the ranges
  -- of the Rust types, its codec has the round trip and refuses shorter accounts, the runtime keeps
  -- its law, and the arguments of the calls, the times and the configuration's bytes have their
  -- Rust types.
  pub rebaselines_apart :
      IsTyped x (Call.rebaseline c version remaining)
      → AllTyped between
      → exec env tokens wallet x (Call.rebaseline c version remaining) w ≡ ok t
      → exec env tokens wallet x'
          (Call.rebaseline c' version' remaining')
          (run env tokens wallet between t)
        ≡ ok u
      → x.now +ℤ pos 604800 ≤ℤ x'.now
  unfolding exec perform
  rebaselines_apart h all e f =
      let s = run env tokens wallet between t in
      let (j, first, follows, at) =
        rebaseline-Kept (within env x) tokens (record { writes_own = laws.writes_own })
          (record { round_trip = codec.round_trip; reads_full = codec.reads_full })
          (record { new_size = sizes.new_size }) wallet x.now h.now_i64 (meet x w) i
          (record { full = held.full; reads = held.reads; range = held.range }) h.config_bytes c
          version remaining h.sizes e in
      let (k, later, g) =
        run-Follows env tokens laws codec sizes wallet between t j all
          (record { full = first.full; reads = first.reads; range = first.range }) in
      let r =
        rebaseline_anchor_lem (within env x') wallet x'.now c' version' remaining' (meet x' s) f in
      let same : some r.before ≡ some k = sym r.reads ∙ later.reads in
      let before : r.before ≡ k = cc same in
      let since : x.now ≤ℤ r.before.last_rebaseline_timestamp =
        rw (before, ← at) g.rebaseline_forward in
      +ℤ_below x.now r.before.last_rebaseline_timestamp x'.now 604800 since r.cooled
