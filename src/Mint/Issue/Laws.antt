-- ===== src/Mint/Issue/Laws.antt =====
-- What a mint that succeeds has checked and written, what it leaves alone, and its one token.
use protocol_core.Mint.Issue.Steps.{Counts, Counts-ne, Steps, issue-writes_own, pay_accounts, steps}
use protocol_core.Base.{replicate, ℕ, ◌≡◌, ◌≢◌, ap, ◌∙◌, Option, List, length, ok}
use protocol_core.Base.Int.{ℤ, pos}
use protocol_core.Base.Words.{Bytes}
use protocol_core.Base.Bytes.{put, zeros}
use protocol_core.Chain.{Pubkey}
use protocol_core.Receipt.Payload.{ReceiptPurpose, ReceiptSession, verify_validator_receipt}
use protocol_core.Update.State.{Environment, IdentityState, identity_len}
use protocol_core.Recovery.Shared.{Fees, read_fees}
use protocol_core.Mint.State.{Cell, Store, Tokens, World, Meta, init_identity, exit_identity}
use protocol_core.Mint.State.Laws.{
  IsOurs, RuntimeLaws, set_cell_self, set_cell_ne, init_identity_ne,
}
use protocol_core.Mint.Issue.{new_identity, config_of, mint_anchor}

-- Program addresses of different seeds are different.
pub record AreApart (env : Environment) (user x : Pubkey) : Type 0 where
  pub no_identity : x ≢ env.identity_key user
  pub no_counter : x ≢ env.request_state_key user

-- Up to the calls, only the new account and the counter have changed.
pub counted_same :
    (env : Environment) (tokens : Tokens) (user token_account : Pubkey) (now : ℤ)
    (initial_commitment : Bytes) (remaining : List Meta) (w : World) {t : World}
    (m : Steps env tokens user token_account now initial_commitment remaining w t) (x : Pubkey)
    → AreApart env user x
    → m.counted.accounts x ≡ w.store.accounts x
counted_same env tokens user token_account now initial_commitment remaining w m x h =
    Counts-ne env user remaining m.opened m.counted x m.counts h.no_counter
    ∙ init_identity_ne env user (env.identity_key user) x w.store m.opens h.no_identity

abbrev identity_cell : Environment → Pubkey → ℤ → Bytes → ℕ → Cell
identity_cell env user now c version = record {
  owner = env.id;
  data_bytes = put (zeros identity_len) 0 (env.serialize (new_identity env user now c version));
}

-- What lies between the worlds before and after a mint.
pub record IsMinted (env : Environment) (user : Pubkey) (now : ℤ) (initial_commitment : Bytes)
    (remaining : List Meta) (w t : World) : Type 0 where
  pub opened : Store
  pub counted : Store
  pub fees : Fees
  pub session : Option ReceiptSession
  pub unowned : (w.store.accounts (env.identity_key user)).owner ≡ env.system_program
  pub unused : length (w.store.accounts (env.identity_key user)).data_bytes ≡ 0
  pub opens : init_identity env user (env.identity_key user) w.store ≡ ok opened
  pub counts : Counts env user remaining opened counted
  pub nonzero : initial_commitment ≢ zeros 32
  pub configured : read_fees env (config_of env w.store) ≡ ok fees
  pub signed :
      verify_validator_receipt env.sysvar fees.validator_keys user initial_commitment
        ReceiptPurpose.mint fees.projection_policy.current now
      ≡ ok session
  pub minted : t.store.accounts (env.identity_key user) ≡ record {
    owner = env.id;
    data_bytes = put (zeros identity_len) 0 (
        env.serialize (record {
          owner = user;
          creation_timestamp = now;
          last_verification_timestamp = now;
          verification_count = 0;
          trust_score = 0;
          current_commitment = initial_commitment;
          mint = env.mint_key user;
          bump = env.identity_bump user;
          recent_timestamps = replicate 52 (pos 0);
          last_reset_timestamp = pos 0;
          new_wallet = zeros 32;
          projection_version = fees.projection_policy.current;
          last_rebaseline_timestamp = pos 0;
        }));
  }

pub exit_identity-put :
    (env : Environment) (k : Pubkey) (i : IdentityState) (s : Store)
    → (exit_identity env k i s).accounts k ≡ record {
      owner = (s.accounts k).owner;
      data_bytes = put (s.accounts k).data_bytes 0 (env.serialize i);
    }
unfolding exit_identity
exit_identity-put env k i s = set_cell_self s k (record {
  owner = (s.accounts k).owner;
  data_bytes = put (s.accounts k).data_bytes 0 (env.serialize i);
})

pub exit_identity_ne :
    (env : Environment) (k : Pubkey) (i : IdentityState) (s : Store) (x : Pubkey)
    → x ≢ k
    → (exit_identity env k i s).accounts x ≡ s.accounts x
unfolding exit_identity
exit_identity_ne env k i s x h =
    set_cell_ne s k
      (record {
        owner = (s.accounts k).owner;
        data_bytes = put (s.accounts k).data_bytes 0 (env.serialize i);
      })
      x h

module _ (env : Environment) (tokens : Tokens) (laws : RuntimeLaws env tokens)
    (user token_account : Pubkey) (now : ℤ) (initial_commitment : Bytes) (remaining : List Meta)
    (w : World) {t : World}
    (done : mint_anchor env tokens user token_account now initial_commitment remaining w
      ≡ ok t) where
  issued_same :
      (m : Steps env tokens user token_account now initial_commitment remaining w t) (x : Pubkey)
      → AreApart env user x
      → IsOurs env (w.store.accounts x)
      → m.issued.accounts x ≡ w.store.accounts x
  issued_same m x h ours =
      let same =
        counted_same env tokens user token_account now initial_commitment remaining w m x h in
      issue-writes_own env tokens laws user token_account m.counted x m.issues (rw same ours) ∙ same

  -- A mint touches no account of the programs but the wallet's identity and its request counter:
  -- not the configuration, and no other wallet's identity.
  pub mint_anchor_apart :
      (x : Pubkey)
      → AreApart env user x
      → IsOurs env (w.store.accounts x)
      → t.store.accounts x ≡ w.store.accounts x
  mint_anchor_apart x h ours =
      let m = steps env tokens user token_account now initial_commitment remaining w done in
      ap (λ (s : Store). s.accounts x) m.exits
      ∙ exit_identity_ne env (env.identity_key user)
          (new_identity env user now initial_commitment m.fees.projection_policy.current) m.paid x
          h.no_identity
      ∙ ap (λ (f : Pubkey → Cell). f x)
          (pay_accounts env user m.fees.verification_fee m.issued m.pays)
      ∙ issued_same m x h ours
