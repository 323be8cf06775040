-- ===== src/Recovery/Shared/Laws.antt =====
-- What the shared steps leave alone, and that the request counter moves on.
use protocol_core.Base.{
  ℕ, ◌+◌, ◌<◌, ◌^◌, ◌≡◌, ◌≢◌, refl, inl, inr, true, false, Option, some, List, [], ◌∷◌, ◌⊎◌, subst,
  sym, Bool-cases, arith, ok, Result-cases,
}
use protocol_core.Base.Words.{Bytes}
use protocol_core.Base.Bytes.{bytes_eq_iff, zeros}
use protocol_core.Chain.{Pubkey}
use protocol_core.Receipt.Policy.{ProjectionPolicy, validate_requested_projection}
use protocol_core.Request.{read_counter}
use protocol_core.Counter
use protocol_core.Counter.{Holding, create}
use protocol_core.Counter.Laws.{Holds, advance-read_counter}
use protocol_core.Update.State.{Environment, Anchor}
use protocol_core.Recovery.Shared.{
  Remaining, program_of, holding, advance_counter, take_counter, require_nonzero,
}

-- The counter that an account holds for a wallet, once it is there.
abbrev pub counter_of : Environment → Pubkey → Bytes → Option ℕ
counter_of env wallet d = read_counter env.hash d wallet (env.request_state_bump wallet)

-- Another state of the same wallet: all but the request counter, the lamports and the events.
pub record IsFramed (w t : Anchor) : Type 0 where
  pub same_identity : t.identity ≡ w.identity
  pub same_result : t.result ≡ w.result
  pub same_config : t.config ≡ w.config

-- The counter account as the call leaves it: one more than it held, or than 0 if it was empty.
pub record IsCounted (env : Environment) (wallet : Pubkey) (r : Remaining) (w t : Anchor)
    : Type 0 where
  pub counter : ℕ
  pub held : Holds (program_of env) wallet r.account.owner r.account.data_bytes counter
  pub advanced : counter_of env wallet t.request_state.data_bytes ≡ some (counter + 1)
  pub in_range : counter + 1 < 2 ^ 64
  pub at_key : t.request_state.key ≡ env.request_state_key wallet
  pub of_program : t.request_state.owner ≡ env.id

pub advance_counter_lem :
    (env : Environment) (wallet : Pubkey) (r : Remaining) (w : Anchor) {t : Anchor}
    → advance_counter env wallet wallet r w ≡ ok t
    → IsFramed w t × IsCounted env wallet r w t
unfolding advance_counter
advance_counter_lem env wallet r w {t} e =
    let m =
      Counter.advance (program_of env) r.is_writable true wallet wallet (holding r.account w) in
    elim (Result-cases m) [
      | inr (x, q) ↦ ground arith
      | inl (h, q) ↦
          let a =
            advance-read_counter (program_of env) r.is_writable true wallet wallet
              (holding r.account w) q in
          (
            record {
              same_identity = ground arith;
              same_result = ground arith;
              same_config = ground arith;
            },
            record {
              counter = a.0;
              held = a.1;
              advanced = ground (arith, a.2);
              in_range = a.3;
              at_key = ground (arith, a.5);
              of_program = ground (arith, a.4);
            },
          )
    ]

pub IsFramed-refl : (w : Anchor) → IsFramed w w
IsFramed-refl w = record { same_identity = refl; same_result = refl; same_config = refl }

unread :
    (env : Environment) (wallet : Pubkey) (remaining : List Remaining) (w : Anchor) {t : Anchor}
    → env.request_bound_v1 ≡ false
    → take_counter env wallet remaining w ≡ ok t
    → w ≡ t
unfolding take_counter
unread env wallet [] w off e = ground arith
unread env wallet (r ∷ []) w off e = ground arith
unread env wallet (r ∷ s ∷ rs) w off e = ground arith

read_one :
    (env : Environment) (wallet : Pubkey) (remaining : List Remaining) (w : Anchor) {t : Anchor}
    → env.request_bound_v1 ≡ true
    → take_counter env wallet remaining w ≡ ok t
    → (r : Remaining) × (remaining ≡ r ∷ []) × (advance_counter env wallet wallet r w ≡ ok t)
unfolding take_counter
read_one env wallet [] w on e = ground arith
read_one env wallet (r ∷ []) w on e = (r, refl, ground arith)
read_one env wallet (r ∷ s ∷ rs) w on e = ground arith

-- Without the feature no counter is read; with it the one remaining account's moves on.
pub take_counter_lem :
    (env : Environment) (wallet : Pubkey) (remaining : List Remaining) (w : Anchor) {t : Anchor}
    → take_counter env wallet remaining w ≡ ok t
    → IsFramed w t
      × (((env.request_bound_v1 ≡ false) × (t ≡ w))
          ⊎ ((env.request_bound_v1 ≡ true)
              × (r : Remaining) × (remaining ≡ r ∷ [])
              × IsCounted env wallet r w t))
unfolding take_counter
take_counter_lem env wallet remaining w e = elim (Bool-cases env.request_bound_v1) [
  | inr off ↦ (
    subst (IsFramed w) (unread env wallet remaining w off e) (IsFramed-refl w),
    inl (off, sym (unread env wallet remaining w off e)),
  )
  | inl on ↦
      let (r, single, m) = read_one env wallet remaining w on e in
      let l = advance_counter_lem env wallet r w m in (l.0, inr (on, r, single, l.1))
]

pub require_nonzero_lem : (c : Bytes) → require_nonzero c ≡ ok tt → c ≢ zeros 32
unfolding require_nonzero
require_nonzero_lem c e = ground (arith, bytes_eq_iff c (zeros 32))

pub validate_requested_projection_lem :
    (version : ℕ) (p : ProjectionPolicy)
    → validate_requested_projection version p ≡ ok tt
    → version ≡ p.current
unfolding validate_requested_projection
validate_requested_projection_lem version p e = ground arith
