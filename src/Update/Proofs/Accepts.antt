-- ===== src/Update/Proofs/Accepts.antt =====
-- The anchor accepts what the verifier stores.
use protocol_core.Base.{
  ℕ, zero, suc, ◌≡◌, ◌≢◌, refl, true, false, Option, none, some, [], ◌∷◌, arith, ok,
}
use protocol_core.Base.Int.{ℤ, pos, leb_ℤ, ◌≤ℤ◌, ◌+ℤ◌, saturating_sub, IsI64}
use protocol_core.Base.Words.{Bytes, i64_round_trip}
use protocol_core.Base.Bytes.{bytes_eq_iff, sub, nth, zeros}
use protocol_core.Chain.{Pubkey}
use protocol_core.Verifier.State.{VerificationResult}
use protocol_core.Verifier.Layout.{
  serialize_result, HasSizes, discriminator_at, verifier_at, verified_at_at, nonce_at, bump_at,
  new_at, prev_at, length-serialize_result,
}
use protocol_core.Update.State.{Environment, Account}
use protocol_core.Update.Proofs.{check_address, unbound_result, verification_result_discriminator}

nth-sub : (d : Bytes) (i b : ℕ) → sub d i 1 ≡ b ∷ [] → nth d i ≡ b
unfolding sub nth
nth-sub [] zero b h = ground arith
nth-sub [] (suc i) b h = ground arith
nth-sub (x ∷ d) zero b h = ground arith
nth-sub (x ∷ d) (suc i) b h = nth-sub d i b h

fresh :
    (now at : ℤ)
    → IsI64 now
    → IsI64 at
    → at ≤ℤ now
    → now ≤ℤ at +ℤ pos 600
    → leb_ℤ (saturating_sub now at) (pos 600) ≡ true
unfolding saturating_sub ◌+ℤ◌
fresh now at h k a b = ground arith

pub check_address_accepts :
    (derive : Pubkey → Bytes → ℕ → Option Pubkey) (wallet : Pubkey) (nonce : Bytes) (bump : ℕ)
    (account : Account)
    → derive wallet nonce bump ≡ some account.key
    → check_address derive wallet nonce bump account ≡ ok tt
unfolding check_address
check_address_accepts derive wallet nonce bump account e =
    ground (arith, bytes_eq_iff account.key account.key)

-- A result that the verifier stored for the wallet, under a nonce that is not zero and at the
-- address of its nonce and bump, is accepted without the feature up to 600 seconds after the proof,
-- and the anchor takes from its bytes the two commitments that the verifier put there.
pub unbound_result-serialize_result :
    (env : Environment) (now : ℤ) (key : Pubkey) (request_bytes : Bytes) (r : VerificationResult)
    → HasSizes r
    → IsI64 now
    → IsI64 r.verified_at
    → r.challenge_nonce ≢ zeros 32
    → env.request_bound_v1 ≡ false
    → env.result_key r.verifier r.challenge_nonce r.bump ≡ some key
    → r.verified_at ≤ℤ now
    → now ≤ℤ r.verified_at +ℤ pos 600
    → unbound_result env r.verifier now
        (record {
          key = key;
          owner = env.verifier_id;
          data_bytes = serialize_result verification_result_discriminator r;
        })
        request_bytes
      ≡ ok (record {
        commitment_new = r.commitment_new;
        commitment_prev = r.commitment_prev;
        bound_nonce = none;
        request_bytes = request_bytes;
      })
unfolding unbound_result
unbound_result-serialize_result env now key request_bytes r v n64 a64 nz off k past age =
    let tag = verification_result_discriminator in
    let account : Account = record {
      key = key;
      owner = env.verifier_id;
      data_bytes = serialize_result tag r;
    } in
    ground (
      arith,
      length-serialize_result tag r refl v,
      discriminator_at tag r refl v,
      verifier_at tag r refl v,
      nonce_at tag r refl v,
      nth-sub (serialize_result tag r) 113 r.bump (bump_at tag r refl v),
      verified_at_at tag r refl v,
      i64_round_trip r.verified_at a64,
      new_at tag r refl v,
      prev_at tag r refl v,
      check_address_accepts env.result_key r.verifier r.challenge_nonce r.bump account k,
      fresh now r.verified_at n64 a64 past age,
      bytes_eq_iff env.verifier_id env.verifier_id,
      bytes_eq_iff r.verifier r.verifier,
      bytes_eq_iff tag tag,
      bytes_eq_iff r.challenge_nonce (zeros 32),
    )
