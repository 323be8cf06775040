-- ===== src/Lifetime/Ranges.antt =====
-- What the calls store stays within the ranges of the Rust types.
use protocol_core.Base.{
  ℕ, zero, suc, ◌+◌, ◌<◌, ◌^◌, ◌≡◌, refl, ap, ◌∙◌, inl, inr, Bool, true, false, some, List, [], ◌∷◌,
  length, replicate, arith, ok, Result-cases, Bool-cases,
}
use protocol_core.Base.Int.{ℤ, pos, IsI64}
use protocol_core.Base.Words.{Bytes, from_le_bytes}
use protocol_core.Base.Bytes.{nth, length-sub}
use protocol_core.Chain.{Pubkey}
use protocol_core.Request.{BoundVerificationResult}
use protocol_core.Receipt.Policy.{
  ProjectionPolicy, read_u16, stored_policy, read_projection_policy, read_validator_key_policy,
  validate_identity_projection,
}
use protocol_core.Ring.{opens_new_bin, shift, record_verification}
use protocol_core.Ring.Laws.{length-record_verification}
use protocol_core.Update.State.{Environment, Anchor, Account, IdentityState}
use protocol_core.Update.Layout.Laws.{IsIdentity, AreI64}
use protocol_core.Update.Proofs.{Checked}
use protocol_core.Update.Proofs.Laws.{unbound_result_lem}
use protocol_core.Update.Proofs.Bound.{bound_result_lem}
use protocol_core.Update.Identity.{update_identity}
use protocol_core.Update.Identity.Laws.{update_identity_lem}
use protocol_core.Update.Handler.{Settings, read_settings, check_result}
use protocol_core.Recovery.Shared.{Fees, read_fees}
use protocol_core.Recovery.Reset.{reset_identity}
use protocol_core.Recovery.Rebaseline.{rebaseline_identity}

abbrev pub AreBytes : Bytes → Type 0
AreBytes [] = Unit
AreBytes (b ∷ bs) = (b < 256) × AreBytes bs

nth_lt : (d : Bytes) (i : ℕ) → AreBytes d → nth d i < 256
unfolding nth
nth_lt [] i h = omega arith
nth_lt (b ∷ bs) zero h = h.0
nth_lt (b ∷ bs) (suc i) h = nth_lt bs i h.1

read_u16_lt : (d : Bytes) (i : ℕ) {v : ℕ} → AreBytes d → read_u16 d i ≡ ok v → v < 256 ^ 2
unfolding read_u16 from_le_bytes
read_u16_lt d i h e = ground (arith, nth_lt d i h, nth_lt d (i + 1) h)

stored_policy_lt :
    (d : Bytes) {p : ProjectionPolicy} → AreBytes d → stored_policy d ≡ ok p → p.current < 256 ^ 2
unfolding stored_policy
stored_policy_lt d {p} h e = elim (Result-cases (read_u16 d 109)) [
  | inr (x, q) ↦ ground arith
  | inl (c, q) ↦ elim (Result-cases (read_u16 d 111)) [
    | inr (x, r) ↦ ground arith
    | inl (m, r) ↦ ground (arith, read_u16_lt d 109 h q)
  ]
]

read_projection_policy_lt :
    (d : Bytes) {p : ProjectionPolicy}
    → AreBytes d
    → read_projection_policy d ≡ ok p
    → p.current < 256 ^ 2
unfolding read_projection_policy
read_projection_policy_lt d {p} h e = elim (Result-cases (stored_policy d)) [
  | inr (x, q) ↦ ground arith
  | inl (c, q) ↦ ground (arith, stored_policy_lt d h q)
]

pub read_fees_lt :
    (env : Environment) (config : Account) {fees : Fees}
    → AreBytes config.data_bytes
    → read_fees env config ≡ ok fees
    → fees.projection_policy.current < 256 ^ 2
unfolding read_fees
read_fees_lt env config {fees} h e =
    elim (Result-cases (read_projection_policy config.data_bytes)) [
      | inr (x, q) ↦ ground arith
      | inl (p, q) ↦ elim (Result-cases (read_validator_key_policy config.data_bytes)) [
        | inr (x, r) ↦ ground arith
        | inl (k, r) ↦ ground (arith, read_projection_policy_lt config.data_bytes h q)
      ]
    ]

read_settings_lt :
    (env : Environment) (version : ℕ) (config : Account) {settings : Settings}
    → AreBytes config.data_bytes
    → read_settings env version config ≡ ok settings
    → settings.max_trust_score < 256 ^ 2
unfolding read_settings
read_settings_lt env version config {settings} h e =
    let d = config.data_bytes in
    elim (Result-cases (read_projection_policy d)) [
      | inr (x, q) ↦ ground arith
      | inl (p, q) ↦ elim (Result-cases (validate_identity_projection version p)) [
        | inr (x, v) ↦ ground arith
        | inl (u, v) ↦ elim (Result-cases (read_u16 d 56)) [
          | inr (x, m) ↦ ground arith
          | inl (max_score, m) ↦ elim (Result-cases (read_u16 d 58)) [
            | inr (x, b) ↦ ground arith
            | inl (increment, b) ↦ elim (Result-cases (read_validator_key_policy d)) [
              | inr (x, k) ↦ ground arith
              | inl (keys, k) ↦ ground (arith, read_u16_lt d 56 h m)
            ]
          ]
        ]
      ]
    ]

-- The codec of a bound result fills arrays of 32 bytes.
pub record BoundSizes (env : Environment) : Type 0 where
  pub new_size :
      (d : Bytes) (r : BoundVerificationResult)
      → env.deserialize_bound d ≡ some r
      → length r.commitment_new ≡ 32

pub check_result_size :
    (env : Environment) (is_bound : Bool) (wallet : Pubkey) (now : ℤ) (i : IdentityState)
    (w : Anchor) {c : Checked}
    → BoundSizes env
    → check_result env is_bound wallet now i w ≡ ok c
    → length c.commitment_new ≡ 32
unfolding check_result
check_result_size env true wallet now i w {c} sizes e =
    let b = bound_result_lem env wallet now w.identity.key i w.result w.request_state e in
    ap length b.9 ∙ sizes.new_size w.result.data_bytes b.0 b.1
check_result_size env false wallet now i w {c} sizes e =
    let u = unbound_result_lem env wallet now w.result w.request_state.data_bytes e in
    ap (λ (k : Checked). length k.commitment_new) u.7
    ∙ length-sub w.result.data_bytes 114 32 (omega (arith, u.1))

shift-AreI64 :
    (newest : ℤ) (ring : List ℤ) → IsI64 newest → AreI64 ring → AreI64 (shift newest ring)
unfolding shift
shift-AreI64 newest [] h r = tt
shift-AreI64 newest (x ∷ xs) h r = (h, shift-AreI64 x xs r.0 r.1)

record_verification-AreI64 :
    (ring : List ℤ) (now : ℤ) → IsI64 now → AreI64 ring → AreI64 (record_verification ring now)
unfolding record_verification
record_verification-AreI64 [] now h r = tt
record_verification-AreI64 (x ∷ xs) now h r = elim (Bool-cases (opens_new_bin x now)) [
  | inl yes_ ↦ rw yes_ (shift-AreI64 now (x ∷ xs) h r)
  | inr no_ ↦ rw no_ r
]

zeros-AreI64 : (n : ℕ) → AreI64 (replicate n (pos 0))
zeros-AreI64 zero = tt
zeros-AreI64 (suc n) = (omega arith, zeros-AreI64 n)

pub updated-IsIdentity :
    (env : Environment) (version : ℕ) (config : Account) (now : ℤ) (new : Bytes) (i : IdentityState)
    {settings : Settings} {j : IdentityState}
    → AreBytes config.data_bytes
    → read_settings env version config ≡ ok settings
    → update_identity settings.base_trust_increment settings.max_trust_score now new i ≡ ok j
    → IsI64 now
    → length new ≡ 32
    → IsIdentity i
    → IsIdentity j
updated-IsIdentity env version config now new i {settings} {j} bytes s e h size v =
    let u =
      update_identity_lem settings.base_trust_increment settings.max_trust_score now new i e in
    let below = read_settings_lt env version config bytes s in
    let ring = i.recent_timestamps in
    rw (u.2) (record {
      owner_size = v.owner_size;
      creation_i64 = v.creation_i64;
      last_i64 = h;
      count_u32 = omega (arith, u.4);
      score_u16 = omega (arith, u.3);
      commitment_size = size;
      mint_size = v.mint_size;
      ring_size = length-record_verification ring now ∙ v.ring_size;
      ring_i64 = record_verification-AreI64 ring now h v.ring_i64;
      reset_i64 = v.reset_i64;
      wallet_size = v.wallet_size;
      version_u16 = v.version_u16;
      rebaseline_i64 = v.rebaseline_i64;
    })

pub reset-IsIdentity :
    (now : ℤ) (c : Bytes) (version : ℕ) (i : IdentityState)
    → IsI64 now
    → length c ≡ 32
    → version < 256 ^ 2
    → IsIdentity i
    → IsIdentity (reset_identity now c version i)
unfolding reset_identity
reset-IsIdentity now c version i h size below v = record {
  owner_size = v.owner_size;
  creation_i64 = v.creation_i64;
  last_i64 = h;
  count_u32 = omega arith;
  score_u16 = omega arith;
  commitment_size = size;
  mint_size = v.mint_size;
  ring_size = refl;
  ring_i64 = zeros-AreI64 52;
  reset_i64 = h;
  wallet_size = v.wallet_size;
  version_u16 = below;
  rebaseline_i64 = v.rebaseline_i64;
}

pub rebaseline-IsIdentity :
    (now : ℤ) (c : Bytes) (version : ℕ) (i : IdentityState)
    → IsI64 now
    → length c ≡ 32
    → version < 256 ^ 2
    → IsIdentity i
    → IsIdentity (rebaseline_identity now c version i)
unfolding rebaseline_identity
rebaseline-IsIdentity now c version i h size below v = record {
  owner_size = v.owner_size;
  creation_i64 = v.creation_i64;
  last_i64 = h;
  count_u32 = v.count_u32;
  score_u16 = v.score_u16;
  commitment_size = size;
  mint_size = v.mint_size;
  ring_size = v.ring_size;
  ring_i64 = v.ring_i64;
  reset_i64 = v.reset_i64;
  wallet_size = v.wallet_size;
  version_u16 = below;
  rebaseline_i64 = h;
}
