-- ===== src/Update/Proofs/Laws.antt =====
-- What the two branches accept.
use protocol_core.Base.{
  ℕ, zero, suc, ◌+◌, ◌≤◌, ◌<◌, ◌^◌, ◌≡◌, ◌≢◌, refl, inl, inr, Option, none, some, [], ◌∷◌, length,
  take, arith, ok, Result-cases, Option-cases,
}
use protocol_core.Base.Int.{ℤ, pos, ◌≤ℤ◌, ◌+ℤ◌, saturating_sub_le}
use protocol_core.Base.Words.{
  Bytes, to_le_bytes, from_le_bytes-to_le_bytes, length-to_le_bytes, i64_from_le_bytes,
}
use protocol_core.Base.Bytes.{
  bytes_eq_iff, sub, put, nth, zeros, length-put, sub-put_self, sub-put_below,
}
use protocol_core.Chain.{Pubkey}
use protocol_core.Request.{read_counter, is_request_state}
use protocol_core.Update.State.{Environment, Account}
use protocol_core.Update.Proofs.{Checked, check_address, unbound_result, advance}

nth-put_outside : (d : Bytes) (i : ℕ) (bs : Bytes) (k : ℕ) → k < i → nth (put d i bs) k ≡ nth d k
unfolding nth put
nth-put_outside [] i bs k h = refl
nth-put_outside (x ∷ d) zero bs k h = absurd (omega arith)
nth-put_outside (x ∷ d) (suc i) bs zero h = refl
nth-put_outside (x ∷ d) (suc i) bs (suc k) h = nth-put_outside d i bs k (omega arith)

nth-put_behind :
    (d : Bytes) (i : ℕ) (bs : Bytes) (k : ℕ) → i + length bs ≤ k → nth (put d i bs) k ≡ nth d k
unfolding nth put
nth-put_behind [] i bs k h = refl
nth-put_behind (x ∷ d) zero [] k h = refl
nth-put_behind (x ∷ d) zero (b ∷ bs) zero h = absurd (omega arith)
nth-put_behind (x ∷ d) zero (b ∷ bs) (suc k) h = nth-put_behind d zero bs k (omega arith)
nth-put_behind (x ∷ d) (suc i) bs zero h = absurd (omega arith)
nth-put_behind (x ∷ d) (suc i) bs (suc k) h = nth-put_behind d i bs k (omega arith)

head_kept : (d bs : Bytes) → take 8 (put d 41 bs) ≡ take 8 d
unfolding sub
head_kept d bs = sub-put_below d 41 bs 0 8 (omega arith)

pub counter_written_lem :
    (hash : Bytes → Bytes) (d : Bytes) (wallet : Pubkey) (bump counter : ℕ)
    → read_counter hash d wallet bump ≡ some counter
    → counter + 1 < 2 ^ 64
    → read_counter hash (put d 41 (to_le_bytes 8 (counter + 1))) wallet bump ≡ some (counter + 1)
unfolding read_counter is_request_state
counter_written_lem hash d wallet bump counter r h =
    let bs = to_le_bytes 8 (counter + 1) in
    let size : length bs ≡ 8 = length-to_le_bytes 8 (counter + 1) in
    let full : length d ≡ 50 = ground arith in
    ground (
      arith,
      length-put d 41 bs,
      head_kept d bs,
      nth-put_outside d 41 bs 8 (omega arith),
      sub-put_below d 41 bs 9 32 (omega arith),
      nth-put_behind d 41 bs 49 (omega (arith, size)),
      sub-put_self d 41 bs 8 size (omega (arith, full)),
      from_le_bytes-to_le_bytes 8 (counter + 1),
    )

-- The counter's account after the write of the next number: the same account, with that number.
pub advance_lem :
    (hash : Bytes → Bytes) (d : Bytes) (wallet : Pubkey) (bump counter : ℕ) {d' : Bytes}
    → read_counter hash d wallet bump ≡ some counter
    → advance d counter ≡ ok d'
    → read_counter hash d' wallet bump ≡ some (counter + 1)
unfolding advance
advance_lem hash d wallet bump counter {d'} r e =
    ground (arith, counter_written_lem hash d wallet bump counter r)

pub check_address_lem :
    (derive : Pubkey → Bytes → ℕ → Option Pubkey) (wallet : Pubkey) (nonce : Bytes) (bump : ℕ)
    (account : Account)
    → check_address derive wallet nonce bump account ≡ ok tt
    → derive wallet nonce bump ≡ some account.key
unfolding check_address
check_address_lem derive wallet nonce bump account e =
    elim (Option-cases (derive wallet nonce bump)) [
      | inl n ↦ ground arith
      | inr (k, n) ↦ ground (arith, bytes_eq_iff account.key k)
    ]

-- A result that the build without the feature accepts belongs to the verifier program and to the
-- wallet, stands at the address of its own nonce and bump, is at most 600 seconds old and not from
-- the future; its commitments are read from their places, and the request counter stays.
pub unbound_result_lem :
    (env : Environment) (wallet : Pubkey) (now : ℤ) (account : Account) (request_bytes : Bytes)
    {c : Checked}
    → unbound_result env wallet now account request_bytes ≡ ok c
    → (account.owner ≡ env.verifier_id)
      × (182 ≤ length account.data_bytes)
      × (sub account.data_bytes 8 32 ≡ wallet)
      × (sub account.data_bytes 81 32 ≢ zeros 32)
      × (env.result_key wallet (sub account.data_bytes 81 32) (nth account.data_bytes 113)
          ≡ some account.key)
      × (i64_from_le_bytes (sub account.data_bytes 72 8) ≤ℤ now)
      × (now ≤ℤ i64_from_le_bytes (sub account.data_bytes 72 8) +ℤ pos 600)
      × (c ≡ record {
        commitment_new = sub account.data_bytes 114 32;
        commitment_prev = sub account.data_bytes 146 32;
        bound_nonce = none;
        request_bytes = request_bytes;
      })
unfolding unbound_result
unbound_result_lem env wallet now account request_bytes e =
    let d = account.data_bytes in
    elim (Result-cases (check_address env.result_key wallet (sub d 81 32) (nth d 113) account)) [
      | inr (x, q) ↦ ground arith
      | inl (u, q) ↦ (
        ground (arith, bytes_eq_iff account.owner env.verifier_id),
        ground arith,
        ground (arith, bytes_eq_iff (sub d 8 32) wallet),
        ground (arith, bytes_eq_iff (sub d 81 32) (zeros 32)),
        check_address_lem env.result_key wallet (sub d 81 32) (nth d 113) account q,
        ground arith,
        saturating_sub_le now (i64_from_le_bytes (sub d 72 8)) 600 (omega arith) (ground arith),
        ground arith,
      )
    ]
