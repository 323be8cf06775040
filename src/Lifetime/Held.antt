-- ===== src/Lifetime/Held.antt =====
-- What a wallet's account holds, when one state of an identity may be the later one, and the ranges
-- of the calls.
use protocol_core.Base.{
  ◌≡◌, ◌⊎◌, inl, inr, refl, ap, sym, subst, ◌∙◌, some, List, [], ◌∷◌, length, arith,
}
use protocol_core.Base.Int.{◌≤ℤ◌, IsI64}
use protocol_core.Base.Words.{Bytes}
use protocol_core.Base.Bytes.{put, length-put}
use protocol_core.Chain.{Pubkey}
use protocol_core.Update.State.{Environment, Anchor, IdentityState, identity_len}
use protocol_core.Update.Layout.Laws.{IsIdentity}
use protocol_core.Update.Layout.Codec.{Codec}
use protocol_core.Update.Handler.Laws.{full_bytes}
use protocol_core.Lifetime.{Transaction, Call}
use protocol_core.Lifetime.Ranges.{AreBytes}

-- The account holds this identity, at the full length once it has grown.
pub record IsHeld (env : Environment) (w : Anchor) (i : IdentityState) : Type 0 where
  pub full : length (full_bytes w.identity.data_bytes) ≡ identity_len
  pub reads : env.deserialize (full_bytes w.identity.data_bytes) ≡ some i
  pub range : IsIdentity i

-- The wallet that a call names.
abbrev pub Names : Call → Pubkey → Type 0
Names (Call.update c receipt) = λ a. ⊥
Names (Call.compact receipt) = λ a. ⊥
Names (Call.bound receipt) = λ a. ⊥
Names (Call.reset c version remaining) = λ a. ⊥
Names (Call.rebaseline c version remaining) = λ a. ⊥
Names Call.upgrade = λ a. ⊥
Names (Call.authorize signer_new token_account others) = λ a. a ≡ signer_new

abbrev pub AnyNames : List (Transaction × Call) → Pubkey → Type 0
AnyNames [] = λ a. ⊥
AnyNames (xc ∷ rest) = λ a. Names xc.1 a ⊎ AnyNames rest a

-- Of two states of an identity, the second may be the later one, if only these wallets are named in
-- between.
pub record Follows (Named : Pubkey → Type 0) (i j : IdentityState) : Type 0 where
  pub same_owner : j.owner ≡ i.owner
  pub same_creation : j.creation_timestamp ≡ i.creation_timestamp
  pub same_mint : j.mint ≡ i.mint
  pub same_bump : j.bump ≡ i.bump
  pub wallet : (j.new_wallet ≡ i.new_wallet) ⊎ Named j.new_wallet
  pub reset_forward : i.last_reset_timestamp ≤ℤ j.last_reset_timestamp
  pub rebaseline_forward : i.last_rebaseline_timestamp ≤ℤ j.last_rebaseline_timestamp

abbrev pub CallSizes : Call → Type 0
CallSizes (Call.update c receipt) = Unit
CallSizes (Call.compact receipt) = Unit
CallSizes (Call.bound receipt) = Unit
CallSizes (Call.reset c version remaining) = length c ≡ 32
CallSizes (Call.rebaseline c version remaining) = length c ≡ 32
CallSizes Call.upgrade = Unit
CallSizes (Call.authorize signer_new token_account others) = length signer_new ≡ 32

-- The clock, the configuration's bytes and the arguments have their Rust types.
pub record IsTyped (x : Transaction) (c : Call) : Type 0 where
  pub now_i64 : IsI64 x.now
  pub config_bytes : AreBytes x.config.data_bytes
  pub sizes : CallSizes c

abbrev pub AllTyped : List (Transaction × Call) → Type 0
AllTyped [] = Unit
AllTyped (xc ∷ rest) = IsTyped xc.0 xc.1 × AllTyped rest

pub Follows-refl : (Named : Pubkey → Type 0) (i : IdentityState) → Follows Named i i
Follows-refl Named i = record {
  same_owner = refl;
  same_creation = refl;
  same_mint = refl;
  same_bump = refl;
  wallet = inl refl;
  reset_forward = omega arith;
  rebaseline_forward = omega arith;
}

pub Follows-later :
    (First Second : Pubkey → Type 0) (i j : IdentityState)
    → Follows Second i j
    → Follows (λ a. First a ⊎ Second a) i j
Follows-later First Second i j f = record {
  same_owner = f.same_owner;
  same_creation = f.same_creation;
  same_mint = f.same_mint;
  same_bump = f.same_bump;
  wallet = elim f.wallet [ inl same ↦ inl same | inr named ↦ inr (inr named) ];
  reset_forward = f.reset_forward;
  rebaseline_forward = f.rebaseline_forward;
}

pub Follows-trans :
    (First Second : Pubkey → Type 0) (i j k : IdentityState)
    → Follows First i j
    → Follows Second j k
    → Follows (λ a. First a ⊎ Second a) i k
Follows-trans First Second i j k f g = record {
  same_owner = g.same_owner ∙ f.same_owner;
  same_creation = g.same_creation ∙ f.same_creation;
  same_mint = g.same_mint ∙ f.same_mint;
  same_bump = g.same_bump ∙ f.same_bump;
  wallet = elim g.wallet [
    | inr named ↦ inr (inr named)
    | inl same ↦ elim f.wallet [
      | inl before ↦ inl (same ∙ before)
      | inr named ↦ inr (inl (subst First (sym same) named))
    ]
  ];
  reset_forward = omega (arith, f.reset_forward, g.reset_forward);
  rebaseline_forward = omega (arith, f.rebaseline_forward, g.rebaseline_forward);
}

pub full_bytes_full : (d : Bytes) → length d ≡ identity_len → full_bytes d ≡ d
full_bytes_full d e = ground arith

-- What a call stores is held.
pub stored-IsHeld :
    (env : Environment) (w t : Anchor) (j : IdentityState)
    → Codec env
    → length (full_bytes w.identity.data_bytes) ≡ identity_len
    → IsIdentity j
    → t.identity.data_bytes ≡ put (full_bytes w.identity.data_bytes) 0 (env.serialize j)
    → IsHeld env t j
stored-IsHeld env w t j codec full v e =
    let d = full_bytes w.identity.data_bytes in
    let size = length-put d 0 (env.serialize j) ∙ full in
    let same : full_bytes t.identity.data_bytes ≡ put d 0 (env.serialize j) =
      ap full_bytes e ∙ full_bytes_full (put d 0 (env.serialize j)) size in
    record {
      full = ap length same ∙ size;
      reads = ap env.deserialize same ∙ codec.round_trip d j full v;
      range = v;
    }
