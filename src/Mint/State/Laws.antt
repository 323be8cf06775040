-- ===== src/Mint/State/Laws.antt =====
-- What the runtime and the token programs are documented to do, and what the shared steps leave alone.
use protocol_core.Base.{
  ℕ, ◌+◌, ◌-◌, ◌≡◌, ◌≢◌, refl, ap, ◌∙◌, ◌⊎◌, inl, inr, true, some, List, [], ◌∷◌, length, arith, ok,
  Result-cases, Option-cases, Bool-cases, ltb,
}
use protocol_core.Base.Bytes.{bytes_eq_iff, bytes_eq_refl, zeros}
use protocol_core.Chain.{Pubkey}
use protocol_core.Counter
use protocol_core.Counter.{Holding, create}
use protocol_core.Counter.Laws.{Holds, advance-read_counter, advance_key}
use protocol_core.Update.State.{Environment, IdentityState, identity_len}
use protocol_core.Recovery.Shared.{program_of}
use protocol_core.Recovery.Shared.Laws.{counter_of}
use protocol_core.Mint.State.{
  Cell, Store, Cpi, Tokens, Meta, set_cell, transfer_lamports, init_identity, load_identity,
  advance_at, run_cpis,
}

-- An account of one of this repository's programs.
abbrev pub IsOurs : Environment → Cell → Type 0
IsOurs env c = (c.owner ≡ env.id) ⊎ (c.owner ≡ env.registry_id)

-- The runtime lets a program write only to the accounts that it owns, and the programs called here
-- are neither the anchor nor the registry.
pub record RuntimeLaws (env : Environment) (tokens : Tokens) : Type 0 where
  pub writes_own :
      (c : Cpi) (s t : Store) (k : Pubkey)
      → tokens.invoke_cpi c s ≡ some t
      → IsOurs env (s.accounts k)
      → t.accounts k ≡ s.accounts k

-- Does the call move tokens of this token account?
abbrev pub Moves : Cpi → Pubkey → Type 0
Moves (Cpi.mint_to mint to authority n) a = to ≡ a
Moves (Cpi.burn mint from authority n) a = from ≡ a
Moves (Cpi.create_account from to n space) a = ⊥
Moves (Cpi.initialize_non_transferable_mint mint) a = ⊥
Moves (Cpi.initialize_mint_close_authority mint authority) a = ⊥
Moves (Cpi.initialize_metadata_pointer mint authority metadata) a = ⊥
Moves (Cpi.initialize_mint2 mint authority freeze decimals) a = ⊥
Moves (Cpi.token_metadata_initialize mint authority name symbol uri) a = ⊥
Moves (Cpi.create_associated payer token authority mint) a = ⊥
Moves (Cpi.create_associated_idempotent payer token authority mint) a = ⊥
Moves (Cpi.approve token delegate authority n) a = ⊥
Moves (Cpi.close_account account target authority) a = ⊥

-- The amount of a token account, which is 0 before it is there.
pub record TokenLaws (tokens : Tokens) (amount : Cell → ℕ) : Type 0 where
  pub mint_adds :
      (mint to authority : Pubkey) (n : ℕ) (s t : Store)
      → tokens.invoke_cpi (Cpi.mint_to mint to authority n) s ≡ some t
      → amount (t.accounts to) ≡ amount (s.accounts to) + n
  pub burn_takes :
      (mint from authority : Pubkey) (n : ℕ) (s t : Store)
      → tokens.invoke_cpi (Cpi.burn mint from authority n) s ≡ some t
      → amount (s.accounts from) ≡ amount (t.accounts from) + n
  pub others_stay :
      (c : Cpi) (a : Pubkey) (s t : Store)
      → tokens.invoke_cpi c s ≡ some t
      → ¬ Moves c a
      → amount (t.accounts a) ≡ amount (s.accounts a)

pub set_cell_self : (s : Store) (k : Pubkey) (c : Cell) → (set_cell s k c).accounts k ≡ c
unfolding set_cell
set_cell_self s k c = ground (arith, bytes_eq_refl k)

pub set_cell_ne :
    (s : Store) (k : Pubkey) (c : Cell) (x : Pubkey)
    → x ≢ k
    → (set_cell s k c).accounts x ≡ s.accounts x
unfolding set_cell
set_cell_ne s k c x h = ground (arith, bytes_eq_iff x k)

pub run_cpis-writes_own :
    (env : Environment) (tokens : Tokens)
    → RuntimeLaws env tokens
    → (cs : List Cpi) (s : Store) (k : Pubkey) {t : Store} → run_cpis tokens cs s ≡ ok t
    → IsOurs env (s.accounts k)
    → t.accounts k ≡ s.accounts k
unfolding run_cpis
run_cpis-writes_own env tokens laws [] s k e h = ground arith
run_cpis-writes_own env tokens laws (c ∷ cs) s k {t} e h =
    elim (Option-cases (tokens.invoke_cpi c s)) [
      | inl n ↦ ground arith
      | inr (m, n) ↦
          let same = laws.writes_own c s m k n h in
          run_cpis-writes_own env tokens laws cs m k {t = t} (ground arith) (rw same h) ∙ same
    ]

pub transfer_accounts :
    (env : Environment) (a b : Pubkey) (n : ℕ) (s : Store) {t : Store}
    → transfer_lamports env a b n s ≡ ok t
    → t.accounts ≡ s.accounts
unfolding transfer_lamports
transfer_accounts env a b n s {t} e = elim (Option-cases (env.chain.transfer s.ledger a b n)) [
  | inl q ↦ ground arith
  | inr (l, q) ↦ ground arith
]

abbrev pub new_cell : Environment → Cell
new_cell env = record { owner = env.id; data_bytes = zeros identity_len }

-- The address was free, and holds a new account of the program; all others are as they were.
pub init_identity_lem :
    (env : Environment) (payer k : Pubkey) (s : Store) {t : Store}
    → init_identity env payer k s ≡ ok t
    → ((s.accounts k).owner ≡ env.system_program)
      × (length (s.accounts k).data_bytes ≡ 0)
      × ((f : Store) × (f.accounts ≡ s.accounts) × (t ≡ set_cell f k (new_cell env)))
unfolding init_identity
init_identity_lem env payer k s {t} e =
    let missing = env.chain.minimum_balance identity_len - s.ledger k in
    elim (Bool-cases (ltb (s.ledger k) (env.chain.minimum_balance identity_len))) [
      | inr enough ↦ (
        ground (arith, bytes_eq_iff (s.accounts k).owner env.system_program),
        ground arith,
        (s, refl, ground arith),
      )
      | inl short ↦ elim (Result-cases (transfer_lamports env payer k missing s)) [
        | inr (x, q) ↦ ground arith
        | inl (f, q) ↦ (
          ground (arith, bytes_eq_iff (s.accounts k).owner env.system_program),
          ground arith,
          (f, transfer_accounts env payer k missing s q, ground arith),
        )
      ]
    ]

pub init_identity_self :
    (env : Environment) (payer k : Pubkey) (s : Store) {t : Store}
    → init_identity env payer k s ≡ ok t
    → t.accounts k ≡ new_cell env
init_identity_self env payer k s {t} e =
    let (f, same, done) = (init_identity_lem env payer k s e).2 in
    ap (λ (x : Store). x.accounts k) done ∙ set_cell_self f k (new_cell env)

pub init_identity_ne :
    (env : Environment) (payer k x : Pubkey) (s : Store) {t : Store}
    → init_identity env payer k s ≡ ok t
    → x ≢ k
    → t.accounts x ≡ s.accounts x
init_identity_ne env payer k x s {t} e h =
    let (f, same, done) = (init_identity_lem env payer k s e).2 in
    ap (λ (y : Store). y.accounts x) done
    ∙ set_cell_ne f k (new_cell env) x h
    ∙ ap (λ (g : Pubkey → Cell). g x) same

pub load_identity_lem :
    (env : Environment) (k : Pubkey) (s : Store) {i : IdentityState}
    → load_identity env k s ≡ ok i
    → ((s.accounts k).owner ≡ env.id) × (env.deserialize (s.accounts k).data_bytes ≡ some i)
unfolding load_identity
load_identity_lem env k s {i} e = elim (Option-cases (env.deserialize (s.accounts k).data_bytes)) [
  | inl n ↦ ground arith
  | inr (j, n) ↦ (ground (arith, bytes_eq_iff (s.accounts k).owner env.id), ground arith)
]

abbrev pub holding_at : Meta → Store → Holding
holding_at m s = record {
  key = m.key;
  owner = (s.accounts m.key).owner;
  data_bytes = (s.accounts m.key).data_bytes;
  ledger = s.ledger;
}

-- The wallet's counter account has moved on by one, and is the only account that has changed.
pub record IsAdvanced (env : Environment) (wallet payer : Pubkey) (m : Meta) (s t : Store)
    : Type 0 where
  pub at_key : m.key ≡ env.request_state_key wallet
  pub counter : ℕ
  pub held :
      Holds (program_of env) wallet (s.accounts m.key).owner (s.accounts m.key).data_bytes counter
  pub advanced : counter_of env wallet (t.accounts m.key).data_bytes ≡ some (counter + 1)
  pub after : Holding
  pub written :
      t
      ≡ set_cell
          (record s { ledger = after.ledger })
          m.key
          (record { owner = after.owner; data_bytes = after.data_bytes })

pub advance_at_lem :
    (env : Environment) (wallet payer : Pubkey) (m : Meta) (s : Store) {t : Store}
    → advance_at env wallet payer m s ≡ ok t
    → IsAdvanced env wallet payer m s t
unfolding advance_at
advance_at_lem env wallet payer m s {t} e =
    elim (Result-cases
      (Counter.advance (program_of env) m.is_writable true wallet payer (holding_at m s))) [
        | inr (x, q) ↦ ground arith
        | inl (h, q) ↦
            let a =
              advance-read_counter (program_of env) m.is_writable true wallet payer (holding_at m s)
                q in
            let f : Store = record s { ledger = h.ledger } in
            let c : Cell = record { owner = h.owner; data_bytes = h.data_bytes } in
            let done : t ≡ set_cell f m.key c = ground arith in
            record {
              at_key =
                  advance_key (program_of env) m.is_writable true wallet payer (holding_at m s) q;
              counter = a.0;
              held = a.1;
              advanced = rw (done, set_cell_self) a.2;
              after = h;
              written = done;
            }
      ]

pub advanced_ne :
    (env : Environment) (wallet payer : Pubkey) (m : Meta) (s t : Store) (x : Pubkey)
    → IsAdvanced env wallet payer m s t
    → x ≢ env.request_state_key wallet
    → t.accounts x ≡ s.accounts x
advanced_ne env wallet payer m s t x a h =
    ap (λ (y : Store). y.accounts x) a.written
    ∙ set_cell_ne (record s { ledger = a.after.ledger }) m.key
        (record { owner = a.after.owner; data_bytes = a.after.data_bytes }) x
        (λ p. h (p ∙ a.at_key))
