-- ===== src/Request/Tests.antt =====
-- An action, its encoding, and the reading of it.
use protocol_core.Base.{◌≡◌, refl, false, some, arith, replicate}
use protocol_core.Base.Concat.{concat}
use protocol_core.Base.Bytes.{bytes_eq}
use protocol_core.Request.{
  Action, action_parts, encode, is_refused, canonical_scalar, bytes_lt, scalar_modulus,
}
use protocol_core.Request.Laws.{IsAction, decode, decode-encode, encode_injective}

abbrev sample_action : Action
sample_action = record {
  identity = replicate 32 22;
  mint = replicate 32 23;
  counter = 7;
  projection = 2;
  commitment_new = replicate 32 1;
  commitment_prev = replicate 32 2;
  threshold = 96;
  min_distance = 3;
  valid_until = 1700000300;
}

sample_action-IsAction : IsAction sample_action
sample_action-IsAction = record {
  identity_size = refl;
  mint_size = refl;
  counter_u64 = omega arith;
  projection_u16 = omega arith;
  new_size = refl;
  prev_size = refl;
  threshold_u16 = omega arith;
  min_distance_u16 = omega arith;
  valid_until_u64 = omega arith;
}

modulus_is_not_canonical : canonical_scalar scalar_modulus ≡ false
unfolding canonical_scalar bytes_lt
modulus_is_not_canonical = refl

sample_encoded : encode sample_action ≡ some (concat (action_parts sample_action))
unfolding encode is_refused canonical_scalar bytes_lt bytes_eq
sample_encoded = refl

encode_injective_example : sample_action ≡ sample_action
encode_injective_example =
    encode_injective sample_action sample_action (concat (action_parts sample_action))
      sample_action-IsAction sample_action-IsAction sample_encoded sample_encoded

decode-encode_example : decode (concat (action_parts sample_action)) ≡ sample_action
decode-encode_example =
    decode-encode sample_action sample_action-IsAction (concat (action_parts sample_action))
      sample_encoded
