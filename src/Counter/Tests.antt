-- ===== src/Counter/Tests.antt =====
-- A wallet that prepares its counter, advances it, and grows an old identity account.
use protocol_core.Base.{
  ℕ, ◌+◌, ◌<◌, ◌^◌, ◌≡◌, refl, true, none, some, [], ◌∷◌, ◌++◌, take, Result, ok, err, length,
}
use protocol_core.Base.Words.{to_le_bytes, from_le_bytes}
use protocol_core.Base.Bytes.{bytes_eq, sub, put, nth, zeros, resize}
use protocol_core.Chain.Sample.{key, sample_chain, move, credit, debit}
use protocol_core.Request.{read_counter, is_request_state}
use protocol_core.Verifier.Bound.{identity_state_name}
use protocol_core.Counter.{
  ProofRequestState, claim, prepare, Holding, Program, fund, initial_bytes, create, advance,
  is_known_len, check_identity, upgrade_identity_layout,
}
use protocol_core.Counter.Laws.{
  prepare_lem, Holds, advance-read_counter, upgrade_identity_layout_lem,
}

abbrev sample_program : Program
sample_program = record {
  chain = sample_chain;
  id = key 32;
  system_program = zeros 32;
  state_key = λ w. key 36;
  state_bump = λ w. 251;
  mint_key = λ w. key 35;
  identity_bump = λ w. 252;
  hash = λ bs. take 32 (bs ++ zeros 32);
}

abbrev prepared : ProofRequestState
prepared = record { version = 1; wallet = key 1; counter = 0; bump = 251 }

prepared_ok : prepare true (key 1) 251 none ≡ ok prepared
unfolding prepare claim bytes_eq
prepared_ok = refl

prepare_lem_test :
    (prepared.version ≡ 1)
    × (prepared.wallet ≡ key 1)
    × (prepared.bump ≡ 251)
    × (prepare true (key 1) 251 (some prepared) ≡ ok prepared)
prepare_lem_test = prepare_lem true (key 1) 251 none prepared_ok

-- The account is not there yet.
abbrev absent : Holding
absent = record { key = key 36; owner = zeros 32; data_bytes = []; ledger = λ k. 1000 }

abbrev after : Holding → Result Holding → Holding
after h (ok t) = t
after h (err e) = h

abbrev advanced : Holding
advanced = after absent (advance sample_program true true (key 1) (key 1) absent)

advanced_ok : advance sample_program true true (key 1) (key 1) absent ≡ ok advanced
unfolding advance bytes_eq create fund initial_bytes read_counter is_request_state nth sub put
    from_le_bytes to_le_bytes move credit debit
advanced_ok = refl

advance-read_counter_example :
    (counter : ℕ) × Holds sample_program (key 1) (zeros 32) [] counter
    × (read_counter sample_program.hash advanced.data_bytes (key 1) 251 ≡ some (counter + 1))
    × (counter + 1 < 2 ^ 64)
    × (advanced.owner ≡ key 32)
    × (advanced.key ≡ key 36)
    × (true ≡ true)
advance-read_counter_example =
    advance-read_counter sample_program true true (key 1) (key 1) absent advanced_ok

-- An identity account of 543 bytes.
abbrev old_identity : Holding
old_identity = record {
  key = key 34;
  owner = key 32;
  data_bytes = take 8 identity_state_name ++ key 1 ++ zeros 54 ++ key 35 ++ (252 ∷ []) ++ zeros 416;
  ledger = λ k. 1000;
}

abbrev grown_identity : Holding
grown_identity =
    after old_identity (upgrade_identity_layout sample_program true (key 1) old_identity)

grown_ok : upgrade_identity_layout sample_program true (key 1) old_identity ≡ ok grown_identity
unfolding upgrade_identity_layout bytes_eq is_known_len check_identity fund resize sub nth
grown_ok = refl

upgrade_identity_layout_lem_test :
    (length grown_identity.data_bytes ≡ 593)
    × (sub grown_identity.data_bytes 0 543 ≡ sub old_identity.data_bytes 0 543)
    × (sub grown_identity.data_bytes 543 50 ≡ zeros 50)
    × (grown_identity.owner ≡ key 32)
upgrade_identity_layout_lem_test =
    upgrade_identity_layout_lem sample_program true (key 1) old_identity grown_ok
