-- ===== src/Update/Sample.antt =====
-- A wallet with an identity, a configuration and a signed receipt, as the tests use them.
use protocol_core.Base.{true, false, none, some, [], ◌∷◌, ◌++◌, replicate, take}
use protocol_core.Base.Int.{pos}
use protocol_core.Base.Words.{Bytes}
use protocol_core.Base.Bytes.{zeros}
use protocol_core.Base.Concat.{concat}
use protocol_core.Chain.{Pubkey}
use protocol_core.Chain.Sample.{key, sample_chain}
use protocol_core.Request.{BoundVerificationResult, proof_request_state_name, request_domain}
use protocol_core.Receipt.Instruction.{Instruction, ed25519_program_id}
use protocol_core.Receipt.Digest.{UpdateReceiptArgs, preimage_parts}
use protocol_core.Update.Layout.Laws.{IsIdentity}
use protocol_core.Update.Layout.Codec.{with_layout}
use protocol_core.Receipt.Payload.{ReceiptPurpose, purpose_byte, receipt_domain}
use protocol_core.Receipt.Instruction.{Sysvar}
use protocol_core.Base.Int.{ℤ}
use protocol_core.Base.{refl, length, arith}
use protocol_core.Base.Words.{i64_to_le_bytes}
use protocol_core.Update.State.{Environment, Anchor, Account, IdentityState}

abbrev pub wallet : Pubkey
wallet = key 1

abbrev pub before : IdentityState
before = record {
  owner = wallet;
  creation_timestamp = pos 136000;
  last_verification_timestamp = pos 136000;
  verification_count = 0;
  trust_score = 0;
  current_commitment = key 6;
  mint = key 35;
  bump = 252;
  recent_timestamps = replicate 52 (pos 0);
  last_reset_timestamp = pos 0;
  new_wallet = zeros 32;
  projection_version = 0;
  last_rebaseline_timestamp = pos 0;
}

-- The verifier's account: nonce key 9, verified at 999500, from commitment key 6 to key 5.
abbrev pub result : Account
result = record {
  key = key 40;
  owner = key 31;
  data_bytes =
      (104 ∷ 111 ∷ 80 ∷ 172 ∷ 219 ∷ 191 ∷ 162 ∷ 38 ∷ [])
      ++ wallet
      ++ zeros 32
      ++ (76 ∷ 64 ∷ 15 ∷ 0 ∷ 0 ∷ 0 ∷ 0 ∷ 0 ∷ [])
      ++ (1 ∷ [])
      ++ key 9
      ++ (254 ∷ [])
      ++ key 5
      ++ key 6
      ++ (96 ∷ 0 ∷ 3 ∷ 0 ∷ []);
}

-- A configuration of 109 bytes: ceiling 10000, increment 100, fee 5000, validator key 11.
abbrev pub config : Account
config = record {
  key = key 2;
  owner = key 30;
  data_bytes =
      zeros 56 ++ (16 ∷ 39 ∷ 100 ∷ 0 ∷ 255 ∷ []) ++ (136 ∷ 19 ∷ zeros 6) ++ zeros 8 ++ key 11;
}

abbrev pub request_state : Account
request_state = record {
  key = key 36;
  owner = key 32;
  data_bytes = take 8 proof_request_state_name ++ (1 ∷ []) ++ wallet ++ (7 ∷ zeros 7) ++ (251 ∷ []);
}

abbrev pub world : Anchor
world = record {
  identity = record { key = key 34; owner = key 32; data_bytes = zeros 593 };
  result = result;
  config = config;
  request_state = request_state;
  ledger = λ k. 1000000;
  events = [];
}

abbrev pub receipt : UpdateReceiptArgs
receipt = record { validated_at = pos 999900; assurance_tier = 0; session_final_digest = none }

abbrev pub sample_hash : Bytes → Bytes
sample_hash bs = take 32 (bs ++ zeros 32)

abbrev pub signed : Instruction
signed = record {
  program_id = ed25519_program_id;
  data_bytes =
      (1 ∷ 0 ∷ 48 ∷ 0 ∷ 255 ∷ 255 ∷ 16 ∷ 0 ∷ 255 ∷ 255 ∷ 112 ∷ 0 ∷ 32 ∷ 0 ∷ 255 ∷ 255 ∷ [])
      ++ key 11
      ++ zeros 64
      ++ sample_hash (concat (preimage_parts wallet (key 5) 0 receipt));
}

-- The answer to the wallet's request number 7.
abbrev pub answer : BoundVerificationResult
answer = record {
  version = 1;
  wallet = wallet;
  nonce = key 9;
  commitment_new = key 5;
  commitment_prev = key 6;
  threshold = 96;
  min_distance = 3;
  counter = 7;
  valid_until = 1000200;
  verified_at = pos 999900;
  request_digest = request_domain;
  bump = 253;
}

abbrev pub sample_environment : Environment
sample_environment = record {
  chain = sample_chain;
  request_bound_v1 = false;
  id = key 32;
  verifier_id = key 31;
  registry_id = key 30;
  system_program = zeros 32;
  treasury_key = key 3;
  deployment_domain = key 33;
  hash = sample_hash;
  request_state_key = λ w. key 36;
  request_state_bump = λ w. 251;
  identity_key = λ w. key 34;
  identity_bump = λ w. 252;
  mint_key = λ w. key 35;
  baseline_bump = λ w. 250;
  mint_authority_key = key 37;
  config_key = key 2;
  sysvar_id = key 38;
  result_key = λ w nonce bump. some (key 40);
  bound_result_key = λ w nonce bump. some (key 41);
  deserialize = λ d. some before;
  serialize = λ i. i.current_commitment;
  deserialize_bound = λ d. some answer;
  invoke = λ d w a. true;
  sysvar = record { instructions = signed ∷ []; current_index = 1 };
}

-- The tag of the tests, and the environment with the identity's own layout.
abbrev pub tag : Bytes
tag = replicate 8 7

abbrev pub layout_environment : Environment
layout_environment = with_layout tag sample_environment

pub before-IsIdentity : IsIdentity before
before-IsIdentity = record {
  owner_size = refl;
  creation_i64 = omega arith;
  last_i64 = omega arith;
  count_u32 = omega arith;
  score_u16 = omega arith;
  commitment_size = refl;
  mint_size = refl;
  ring_size = refl;
  ring_i64 = omega arith;
  reset_i64 = omega arith;
  wallet_size = refl;
  version_u16 = omega arith;
  rebaseline_i64 = omega arith;
}

-- A configuration of 113 bytes: projection version 1, minimum 0.
abbrev pub config_v1 : Account
config_v1 = record config { data_bytes = config.data_bytes ++ (1 ∷ 0 ∷ 0 ∷ 0 ∷ []) }

-- A receipt of 103 bytes for this purpose, wallet, commitment and time, in projection space 1.
abbrev pub receipt_message : ReceiptPurpose → Pubkey → Bytes → ℤ → Bytes
receipt_message purpose w commitment at =
    receipt_domain 50
    ++ (purpose_byte purpose ∷ 1 ∷ 0 ∷ [])
    ++ w
    ++ commitment
    ++ i64_to_le_bytes at

abbrev pub signed_message : Bytes → Sysvar
signed_message message = record {
  instructions =
      record {
        program_id = ed25519_program_id;
        data_bytes =
            (1
              ∷ 0
              ∷ 48
              ∷ 0
              ∷ 255
              ∷ 255
              ∷ 16
              ∷ 0
              ∷ 255
              ∷ 255
              ∷ 112
              ∷ 0
              ∷ length message
              ∷ 0
              ∷ 255
              ∷ 255
              ∷ [])
            ++ key 11
            ++ zeros 64
            ++ message;
      }
      ∷ [];
  current_index = 1;
}
