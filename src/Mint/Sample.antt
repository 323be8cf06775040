-- ===== src/Mint/Sample.antt =====
-- Token programs that keep a token account's amount in the length of its data, and a world in which
-- one wallet mints and moves on to another.
use protocol_core.Base.{
  ℕ, ◌+◌, ◌≡◌, ◌≢◌, ap, sym, Bool, true, ◌||◌, Option, none, some, [], ◌∷◌, ◌++◌, arith, length,
  length-append, length-replicate, length-drop, replicate, drop, leb, if◌then◌else◌,
}
use protocol_core.Base.Int.{pos}
use protocol_core.Base.Bytes.{bytes_eq, bytes_eq_iff, bytes_eq_refl, zeros}
use protocol_core.Chain.{Pubkey}
use protocol_core.Chain.Sample.{key}
use protocol_core.Receipt.Payload.{ReceiptPurpose}
use protocol_core.Update.State.{Environment}
use protocol_core.Update.Sample.{layout_environment, config_v1, receipt_message, signed_message}
use protocol_core.Mint.State.{Cell, Store, Cpi, Tokens, World, Meta, set_cell}
use protocol_core.Mint.State.Laws.{IsOurs, RuntimeLaws, Moves, TokenLaws}

abbrev pub mint_environment : Environment
mint_environment = record layout_environment {
  request_bound_v1 = true;
  identity_key = λ w. 34 ∷ w;
  request_state_key = λ w. 36 ∷ w;
  mint_key = λ w. w;
  sysvar = signed_message (receipt_message ReceiptPurpose.mint (key 1) (key 5) (pos 999900));
}

abbrev pub amount : Cell → ℕ
amount c = length c.data_bytes

abbrev is_ours : Cell → Bool
is_ours c = bytes_eq c.owner (key 32) || bytes_eq c.owner (key 30)

unfoldable pub add_tokens : Pubkey → ℕ → Store → Option Store
unfolding set_cell
add_tokens k n s =
    let c = s.accounts k in
    if is_ours c
    then none
    else some
        (set_cell s k (record { owner = c.owner; data_bytes = replicate n 1 ++ c.data_bytes }))

unfoldable pub take_tokens : Pubkey → ℕ → Store → Option Store
unfolding set_cell
take_tokens k n s =
    let c = s.accounts k in
    if is_ours c
    then none
    else if leb n (length c.data_bytes)
    then some (set_cell s k (record { owner = c.owner; data_bytes = drop n c.data_bytes }))
    else none

unfoldable pub sample_invoke : Cpi → Store → Option Store
unfolding add_tokens take_tokens
sample_invoke (Cpi.mint_to mint to authority n) s = add_tokens to n s
sample_invoke (Cpi.burn mint from authority n) s = take_tokens from n s
sample_invoke (Cpi.create_account from to n space) s = some s
sample_invoke (Cpi.initialize_non_transferable_mint mint) s = some s
sample_invoke (Cpi.initialize_mint_close_authority mint authority) s = some s
sample_invoke (Cpi.initialize_metadata_pointer mint authority metadata) s = some s
sample_invoke (Cpi.initialize_mint2 mint authority freeze decimals) s = some s
sample_invoke (Cpi.token_metadata_initialize mint authority name symbol uri) s = some s
sample_invoke (Cpi.create_associated payer token authority mint) s = some s
sample_invoke (Cpi.create_associated_idempotent payer token authority mint) s = some s
sample_invoke (Cpi.approve token delegate authority n) s = some s
sample_invoke (Cpi.close_account account target authority) s = some s

abbrev pub sample_tokens : Tokens
sample_tokens = record {
  invoke_cpi = sample_invoke;
  metadata_space = some 100;
  mint_space = some 274;
  is_mint = λ s k. true;
  is_associated = λ s a m w. true;
}

add_tokens_ne :
    (k x : Pubkey) (n : ℕ) (s t : Store)
    → add_tokens k n s ≡ some t
    → x ≢ k
    → t.accounts x ≡ s.accounts x
unfolding add_tokens
add_tokens_ne k x n s t e h = ground (arith, bytes_eq_iff x k)

take_tokens_ne :
    (k x : Pubkey) (n : ℕ) (s t : Store)
    → take_tokens k n s ≡ some t
    → x ≢ k
    → t.accounts x ≡ s.accounts x
unfolding take_tokens
take_tokens_ne k x n s t e h = ground (arith, bytes_eq_iff x k)

add_tokens_own :
    (k x : Pubkey) (n : ℕ) (s t : Store)
    → add_tokens k n s ≡ some t
    → IsOurs mint_environment (s.accounts x)
    → t.accounts x ≡ s.accounts x
unfolding add_tokens
add_tokens_own k x n s t e h = ground (
  arith,
  bytes_eq_iff x k,
  bytes_eq_iff (s.accounts x).owner (key 32),
  bytes_eq_iff (s.accounts x).owner (key 30),
  bytes_eq_iff (s.accounts k).owner (key 32),
  bytes_eq_iff (s.accounts k).owner (key 30),
)

take_tokens_own :
    (k x : Pubkey) (n : ℕ) (s t : Store)
    → take_tokens k n s ≡ some t
    → IsOurs mint_environment (s.accounts x)
    → t.accounts x ≡ s.accounts x
unfolding take_tokens
take_tokens_own k x n s t e h = ground (
  arith,
  bytes_eq_iff x k,
  bytes_eq_iff (s.accounts x).owner (key 32),
  bytes_eq_iff (s.accounts x).owner (key 30),
  bytes_eq_iff (s.accounts k).owner (key 32),
  bytes_eq_iff (s.accounts k).owner (key 30),
)

add_tokens_adds :
    (k : Pubkey) (n : ℕ) (s t : Store)
    → add_tokens k n s ≡ some t
    → amount (t.accounts k) ≡ amount (s.accounts k) + n
unfolding add_tokens
add_tokens_adds k n s t e = ground (
  arith,
  bytes_eq_refl k,
  length-append (replicate n 1) (s.accounts k).data_bytes,
  length-replicate {A = ℕ} n 1,
)

take_tokens_takes :
    (k : Pubkey) (n : ℕ) (s t : Store)
    → take_tokens k n s ≡ some t
    → amount (s.accounts k) ≡ amount (t.accounts k) + n
unfolding take_tokens
take_tokens_takes k n s t e =
    ground (arith, bytes_eq_refl k, length-drop n (s.accounts k).data_bytes)

invoke_own :
    (c : Cpi) (s t : Store) (x : Pubkey)
    → sample_invoke c s ≡ some t
    → IsOurs mint_environment (s.accounts x)
    → t.accounts x ≡ s.accounts x
unfolding sample_invoke
invoke_own (Cpi.mint_to mint to authority n) s t x e h = add_tokens_own to x n s t e h
invoke_own (Cpi.burn mint from authority n) s t x e h = take_tokens_own from x n s t e h
invoke_own (Cpi.create_account from to m space) s t x e h = ground arith
invoke_own (Cpi.initialize_non_transferable_mint mint) s t x e h = ground arith
invoke_own (Cpi.initialize_mint_close_authority mint authority) s t x e h = ground arith
invoke_own (Cpi.initialize_metadata_pointer mint authority metadata) s t x e h = ground arith
invoke_own (Cpi.initialize_mint2 mint authority freeze decimals) s t x e h = ground arith
invoke_own (Cpi.token_metadata_initialize mint authority name symbol uri) s t x e h = ground arith
invoke_own (Cpi.create_associated payer token authority mint) s t x e h = ground arith
invoke_own (Cpi.create_associated_idempotent payer token authority mint) s t x e h = ground arith
invoke_own (Cpi.approve token delegate authority m) s t x e h = ground arith
invoke_own (Cpi.close_account account target authority) s t x e h = ground arith

invoke_stay :
    (c : Cpi) (a : Pubkey) (s t : Store)
    → sample_invoke c s ≡ some t
    → ¬ Moves c a
    → amount (t.accounts a) ≡ amount (s.accounts a)
unfolding sample_invoke
invoke_stay (Cpi.mint_to mint to authority n) a s t e h =
    ap amount (add_tokens_ne to a n s t e (λ p. h (sym p)))
invoke_stay (Cpi.burn mint from authority n) a s t e h =
    ap amount (take_tokens_ne from a n s t e (λ p. h (sym p)))
invoke_stay (Cpi.create_account from to m space) a s t e h = ground arith
invoke_stay (Cpi.initialize_non_transferable_mint mint) a s t e h = ground arith
invoke_stay (Cpi.initialize_mint_close_authority mint authority) a s t e h = ground arith
invoke_stay (Cpi.initialize_metadata_pointer mint authority metadata) a s t e h = ground arith
invoke_stay (Cpi.initialize_mint2 mint authority freeze decimals) a s t e h = ground arith
invoke_stay (Cpi.token_metadata_initialize mint authority name symbol uri) a s t e h = ground arith
invoke_stay (Cpi.create_associated payer token authority mint) a s t e h = ground arith
invoke_stay (Cpi.create_associated_idempotent payer token authority mint) a s t e h = ground arith
invoke_stay (Cpi.approve token delegate authority m) a s t e h = ground arith
invoke_stay (Cpi.close_account account target authority) a s t e h = ground arith

pub sample-RuntimeLaws : RuntimeLaws mint_environment sample_tokens
sample-RuntimeLaws = record { writes_own = λ c s t k e h. invoke_own c s t k e h }

pub sample-TokenLaws : TokenLaws sample_tokens amount
unfolding sample_invoke
sample-TokenLaws = record {
  mint_adds = λ mint to authority n s t e. add_tokens_adds to n s t e;
  burn_takes = λ mint from authority n s t e. take_tokens_takes from n s t e;
  others_stay = λ c a s t e h. invoke_stay c a s t e h;
}

-- The configuration, and nothing else: every other address is free.
abbrev pub empty_world : World
empty_world = record {
  store = record {
    ledger = λ k. 10000000;
    accounts = λ k.
        if bytes_eq k (key 2)
        then (let config : Cell = record {
          owner = config_v1.owner;
          data_bytes = config_v1.data_bytes;
        } in
            config)
        else record { owner = zeros 32; data_bytes = [] };
  };
  events = [];
}

abbrev pub counter_meta : Pubkey → Meta
counter_meta w = record { key = 36 ∷ w; is_writable = true }
