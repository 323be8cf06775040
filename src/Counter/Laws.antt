-- ===== src/Counter/Laws.antt =====
-- The counter only moves forward by one, and growing an identity account keeps what it holds.
use protocol_core.Base.{
  ℕ, ◌+◌, ◌-◌, ◌≤◌, ◌<◌, ◌^◌, ◌≡◌, ap, ◌∙◌, inl, inr, Bool, true, Option, none, some, length, arith,
  ok, Result-cases, Option-cases,
}
use protocol_core.Base.Bytes.{
  bytes_eq_iff, sub, resize, resize_full, zeros, length-resize, sub-resize, sub-resize-zeros,
}
use protocol_core.Chain.{Pubkey}
use protocol_core.Request.{read_counter, is_request_state, proof_request_state_name}
use protocol_core.Base.{[], ◌∷◌, sym, take, ◌⊎◌, length-append, subst, Bool-cases, ◌&&◌, ◌==◌, List}
use protocol_core.Base.Bytes.{length-sub, bytes_eq}
use protocol_core.Base.Words.{
  Bytes, to_le_bytes, from_le_bytes, from_le_bytes-to_le_bytes, length-to_le_bytes,
}
use mathlib.Core.List.{append_assoc}
use protocol_core.Base.Concat.{concat, elem, offset, sub-concat}
use protocol_core.Update.Proofs.Laws.{counter_written_lem}
use protocol_core.Counter.{
  ProofRequestState, claim, prepare, Holding, Program, fund, initial_bytes, create, advance,
  is_known_len, check_identity, upgrade_identity_layout,
}

-- A prepared state is the wallet's, in this generation; preparing it again changes nothing.
pub prepare_lem :
    (feature : Bool) (authority : Pubkey) (bump : ℕ) (account : Option ProofRequestState)
    {s : ProofRequestState}
    → prepare feature authority bump account ≡ ok s
    → (s.version ≡ 1)
      × (s.wallet ≡ authority)
      × (s.bump ≡ bump)
      × (prepare feature authority bump (some s) ≡ ok s)
unfolding prepare claim
prepare_lem feature authority bump none {s} e = ground (arith, bytes_eq_iff s.wallet authority)
prepare_lem feature authority bump (some t) {s} e = ground (arith, bytes_eq_iff s.wallet authority)

fund_lem :
    (program : Program) (payer : Pubkey) (n : ℕ) (h f : Holding)
    → fund program payer n h ≡ ok f
    → (f.data_bytes ≡ h.data_bytes) × (f.owner ≡ h.owner) × (f.key ≡ h.key)
unfolding fund
fund_lem program payer n h f e =
    let missing = program.chain.minimum_balance n - h.ledger h.key in
    elim (Option-cases (program.chain.transfer h.ledger payer h.key missing)) [
      | inl q ↦ ground arith
      | inr (l, q) ↦ ground arith
    ]

create_key :
    (program : Program) (wallet payer : Pubkey) (h c : Holding)
    → create program wallet payer h ≡ ok c
    → c.key ≡ h.key
unfolding create
create_key program wallet payer h c e = elim (Result-cases (fund program payer 50 h)) [
  | inr (x, q) ↦ ground arith
  | inl (f, q) ↦ ground (arith, fund_lem program payer 50 h f q)
]

pub advance_key :
    (program : Program) (is_writable payer_signs : Bool) (wallet payer : Pubkey) (h : Holding)
    {t : Holding}
    → advance program is_writable payer_signs wallet payer h ≡ ok t
    → h.key ≡ program.state_key wallet
unfolding advance
advance_key program is_writable payer_signs wallet payer h e =
    ground (arith, bytes_eq_iff h.key (program.state_key wallet))

-- What an account holds for a wallet: 0 where the system program still holds it empty, else its
-- counter.
abbrev pub Holds : Program → Pubkey → Pubkey → Bytes → ℕ → Type 0
Holds program wallet owner d counter =
    ((owner ≡ program.system_program) × (length d ≡ 0) × (counter ≡ 0))
    ⊎ (read_counter program.hash d wallet (program.state_bump wallet) ≡ some counter)

counter_read :
    (hash : Bytes → Bytes) (d : Bytes) (wallet : Pubkey) (bump n : ℕ)
    → read_counter hash d wallet bump ≡ some n
    → (length d ≡ 50) × (sub d 9 32 ≡ wallet) × (n ≡ from_le_bytes (sub d 41 8))
unfolding read_counter is_request_state
counter_read hash d wallet bump n e = ground (arith, bytes_eq_iff (sub d 9 32) wallet)

-- The state's parts in order.
abbrev initial_parts : Program → Pubkey → List Bytes
initial_parts program wallet =
    take 8 (program.hash proof_request_state_name)
    ∷ (1 ∷ [])
    ∷ wallet
    ∷ to_le_bytes 8 0
    ∷ (program.state_bump wallet ∷ [])
    ∷ []

initial_parts_lem :
    (program : Program) (wallet : Pubkey)
    → initial_bytes program wallet ≡ concat (initial_parts program wallet)
unfolding initial_bytes concat
initial_parts_lem program wallet = simp append_assoc

length-initial_parts :
    (program : Program) (wallet : Pubkey)
    → length (concat (initial_parts program wallet))
      ≡ length (take 8 (program.hash proof_request_state_name)) + length wallet + 10
unfolding concat
length-initial_parts program wallet = omega (arith, length-append {0}, length-to_le_bytes 8 0)

-- A new counter account reads 0.
initial_counter :
    (program : Program) (wallet : Pubkey) (n : ℕ)
    → read_counter program.hash (initial_bytes program wallet) wallet (program.state_bump wallet)
      ≡ some n
    → n ≡ 0
unfolding elem offset
initial_counter program wallet n e =
    let parts = initial_parts program wallet in
    let e' : read_counter program.hash (concat parts) wallet (program.state_bump wallet) ≡ some n =
      rw (← initial_parts_lem program wallet) e in
    let (size, at, value) =
      counter_read program.hash (concat parts) wallet (program.state_bump wallet) n e' in
    let wide : length wallet ≡ 32 =
      ap length (sym at) ∙ length-sub (concat parts) 9 32 (omega (arith, size)) in
    let tag : length (take 8 (program.hash proof_request_state_name)) ≡ 8 =
      omega (arith, size, wide, length-initial_parts program wallet) in
    let field : sub (concat parts) 41 8 ≡ to_le_bytes 8 0 =
      sub-concat parts 3 41 8 (omega (arith, tag, wide)) (length-to_le_bytes 8 0) (omega arith) in
    value ∙ ap from_le_bytes field ∙ from_le_bytes-to_le_bytes 8 0 (omega arith)

create_holds :
    (program : Program) (wallet payer : Pubkey) (h : Holding) (counter : ℕ) {c : Holding}
    → create program wallet payer h ≡ ok c
    → read_counter program.hash c.data_bytes wallet (program.state_bump wallet) ≡ some counter
    → Holds program wallet h.owner h.data_bytes counter
unfolding create
create_holds program wallet payer h counter {c} e r =
    elim (Bool-cases (bytes_eq h.owner program.system_program && (length h.data_bytes == 0))) [
      | inl empty ↦ elim (Result-cases (fund program payer 50 h)) [
        | inr (x, q) ↦ ground arith
        | inl (f, q) ↦
            let made : c.data_bytes ≡ initial_bytes program wallet = ground arith in
            inl (
              ground (arith, bytes_eq_iff h.owner program.system_program),
              ground arith,
              initial_counter program wallet counter (rw (← made) r),
            )
      ]
      | inr full ↦
          let same : c ≡ h = ground arith in
          inr (
            subst
              (λ (x : Holding).
                read_counter program.hash x.data_bytes wallet (program.state_bump wallet)
                ≡ some counter)
              same r)
    ]

-- An advance that succeeds leaves a counter account of the program that reads one more than the
-- account held, where an account that the system program still held empty counts as 0. So the
-- counter goes up by exactly one at each call, and never past 64 bits.
pub advance-read_counter :
    (program : Program) (is_writable payer_signs : Bool) (wallet payer : Pubkey) (h : Holding)
    {t : Holding}
    → advance program is_writable payer_signs wallet payer h ≡ ok t
    → (counter : ℕ) × Holds program wallet h.owner h.data_bytes counter
      × (read_counter program.hash t.data_bytes wallet (program.state_bump wallet)
          ≡ some (counter + 1))
      × (counter + 1 < 2 ^ 64)
      × (t.owner ≡ program.id)
      × (t.key ≡ program.state_key wallet)
      × (payer_signs ≡ true)
unfolding advance
advance-read_counter program is_writable payer_signs wallet payer h {t} e =
    elim (Result-cases (create program wallet payer h)) [
      | inr (x, q) ↦ ground arith
      | inl (c, q) ↦
          elim (Option-cases
            (read_counter program.hash c.data_bytes wallet (program.state_bump wallet))) [
              | inl n ↦ ground arith
              | inr (counter, n) ↦ (
                counter,
                create_holds program wallet payer h counter q n,
                ground (
                  arith,
                  counter_written_lem program.hash c.data_bytes wallet (program.state_bump wallet)
                      counter n,
                ),
                ground arith,
                ground (arith, bytes_eq_iff c.owner program.id),
                ground (
                  arith,
                  bytes_eq_iff h.key (program.state_key wallet),
                  create_key program wallet payer h c q,
                ),
                ground arith,
              )
            ]
    ]

pub upgraded :
    (program : Program) (feature : Bool) (wallet : Pubkey) (h : Holding) {t : Holding}
    → upgrade_identity_layout program feature wallet h ≡ ok t
    → (t.data_bytes ≡ resize h.data_bytes 593)
      × (length h.data_bytes ≤ 593)
      × (t.owner ≡ program.id)
unfolding upgrade_identity_layout is_known_len
upgraded program feature wallet h {t} e =
    elim (Result-cases (check_identity program wallet h.data_bytes)) [
      | inr (x, q) ↦ ground arith
      | inl (u, q) ↦ elim (Result-cases (fund program wallet 593 h)) [
        | inr (x, f) ↦ ground (arith, resize_full h.data_bytes 593, bytes_eq_iff h.owner program.id)
        | inl (g, f) ↦ ground (
          arith,
          fund_lem program wallet 593 h g f,
          resize_full h.data_bytes 593,
          bytes_eq_iff h.owner program.id,
        )
      ]
    ]

-- Growing an identity account leaves its bytes in place, at the full length with zeros behind.
pub upgrade_identity_layout_lem :
    (program : Program) (feature : Bool) (wallet : Pubkey) (h : Holding) {t : Holding}
    → upgrade_identity_layout program feature wallet h ≡ ok t
    → (length t.data_bytes ≡ 593)
      × (sub t.data_bytes 0 (length h.data_bytes) ≡ sub h.data_bytes 0 (length h.data_bytes))
      × (sub t.data_bytes (length h.data_bytes) (593 - length h.data_bytes)
          ≡ zeros (593 - length h.data_bytes))
      × (t.owner ≡ program.id)
upgrade_identity_layout_lem program feature wallet h {t} e =
    let n = length h.data_bytes in
    let (grown, short, owned) = upgraded program feature wallet h e in
    (
      ap length grown ∙ length-resize h.data_bytes 593,
      ap (λ d. sub d 0 n) grown ∙ sub-resize h.data_bytes 593 0 n (omega arith) (omega arith),
      ap (λ d. sub d n (593 - n)) grown
          ∙ sub-resize-zeros h.data_bytes 593 n (593 - n) (omega arith) (omega arith),
      owned,
    )
