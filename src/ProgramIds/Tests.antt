-- ===== src/ProgramIds/Tests.antt =====
-- A build of an isolated deployment, and builds that fail.
use Prim.Native.String.{String}
use protocol_core.Base.{◌≡◌, ◌≢◌, refl, ◌⊎◌, true, none, some, if◌then◌else◌}
use protocol_core.Base.Bytes.{bytes_eq}
use protocol_core.Chain.Sample.{key}
use protocol_core.ProgramIds.{
  anchor_id, verifier_id, registry_id, IsolatedPrograms, Surroundings, done, failed, same, contains,
  validate_address, program_ids,
}
use protocol_core.ProgramIds.Laws.{IsIsolated, program_ids_lem}

abbrev consumer : String
consumer = "EntrosDevnetAnchor1111111111111111111111111"

abbrev second : String
second = "EntrosDevnetVerifier11111111111111111111111"

abbrev devnet : IsolatedPrograms
devnet = record {
  schema_version = 1;
  cluster = "devnet";
  consumer_program = consumer;
  verifier_program = second;
  registry_program = registry_id;
}

-- Two addresses are known, and every path is absolute and has this file.
abbrev sample : IsolatedPrograms → Surroundings
sample config = record {
  decode = λ s. if same s consumer then some (key 1) else some (key 2);
  encode = λ bs. if bytes_eq bs (key 1) then consumer else second;
  isolated_program_ids = some "/ids.json";
  request_bound_v1 = true;
  is_absolute = λ s. true;
  read_config = λ s. some config;
}

isolated_ok : program_ids (sample devnet) ≡ done (consumer, second)
unfolding program_ids validate_address contains bytes_eq
isolated_ok = refl

same_twice :
    program_ids (sample (record devnet { verifier_program = consumer }))
    ≡ failed "Isolated Anchor and verifier addresses must differ"
unfolding program_ids validate_address contains bytes_eq
same_twice = refl

program_ids_lem_example :
    (((sample devnet).isolated_program_ids ≡ none) × (consumer ≡ anchor_id) × (second ≡ verifier_id)
      ⊎ ((path : String) × (some "/ids.json" ≡ some path)
          × IsIsolated (sample devnet) path consumer second))
    × (consumer ≢ second)
    × (consumer ≢ registry_id)
    × (second ≢ registry_id)
program_ids_lem_example = program_ids_lem (sample devnet) consumer second isolated_ok
