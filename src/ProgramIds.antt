-- ===== src/ProgramIds.antt =====
-- crates/proof-request/build.rs: the program ids that a build writes, the published ones or those of
-- an isolated deployment.
pub mod Laws
mod Tests
use Prim.Native.String.{String}
use text.Mathlib.Text
use protocol_core.Base.{
  ℕ, Bool, true, false, not, ◌&&◌, ◌||◌, Option, none, some, List, [], ◌∷◌, length, ◌==◌,
}
use protocol_core.Base.Words.{Bytes}

abbrev pub anchor_id : String
anchor_id = "GZYwTp2ozeuRA5Gof9vs4ya961aANcJBdUzB7LN6q4b2"

abbrev pub verifier_id : String
verifier_id = "4F97jNoxQzT2qRbkWpW3ztC3Nz2TtKj3rnKG8ExgnrfV"

abbrev pub registry_id : String
registry_id = "6VBs3zr9KrfFPGd6j7aGBPQWwZa5tajVfA7HN6MMV9VW"

-- The JSON file's fields.
pub record IsolatedPrograms : Type 0 where
  pub schema_version : ℕ
  pub cluster : String
  pub consumer_program : String
  pub verifier_program : String
  pub registry_program : String

-- The base58 crate, the variables of the build's environment, the paths, and the file with its JSON.
pub record Surroundings : Type 0 where
  pub decode : String → Option Bytes
  pub encode : Bytes → String
  pub isolated_program_ids : Option String
  pub request_bound_v1 : Bool
  pub is_absolute : String → Bool
  pub read_config : String → Option IsolatedPrograms

-- A value, or the message with which the build fails.
pub data Built {ℓ} (A : Type ℓ) : Type ℓ where
  done : A → Built A
  failed : String → Built A

infix 20 ◌>>=◌
abbrev pub ◌>>=◌ {ℓ ℓ'} : {A : Type ℓ} {B : Type ℓ'} → Built A → (A → Built B) → Built B
done a >>= f = f a
failed m >>= f = failed m

infix 20 ◌>>◌
abbrev pub ◌>>◌ {ℓ ℓ'} : {A : Type ℓ} {B : Type ℓ'} → Built A → Built B → Built B
done a >> b = b
failed m >> b = failed m

abbrev pub check : Bool → String → Built (Unit {0})
check condition message = elim condition [ true ↦ done tt | false ↦ failed message ]

abbrev pub found {ℓ} : {A : Type ℓ} → Option A → String → Built A
found o message = elim o [ none ↦ failed message | some a ↦ done a ]

abbrev pub same : String → String → Bool
same s t = Text.◌==◌ s t

unfoldable pub contains : List String → String → Bool
contains [] a = false
contains (x ∷ xs) a = same x a || contains xs a

abbrev pub reserved : List String
reserved =
    anchor_id ∷ verifier_id ∷ registry_id ∷ "11111111111111111111111111111111"
    ∷ "BPFLoaderUpgradeab1e11111111111111111111111" ∷ "BPFLoader2111111111111111111111111111111111"
    ∷ "BPFLoader1111111111111111111111111111111111" ∷ "LoaderV411111111111111111111111111111111111"
    ∷ "TokenkegQfeZyiNwAJbNbGKPFXCWuBvf9Ss623VQ5DA" ∷ "TokenzQdBNbLqP5VEhdkAS6EPFLC1PHnBqCXEpPxuEb"
    ∷ "ATokenGPvbdGVxr1b2hvZbsiqW5xWH25efTNsLJA8knL" ∷ "ComputeBudget111111111111111111111111111111"
    ∷ "Ed25519SigVerify111111111111111111111111111" ∷ []

unfoldable pub validate_address : Surroundings → String → Built (Unit {0})
validate_address env address = do
  bytes ← found (env.decode address) "The address is not base58"
  check ((length bytes == 32) && same (env.encode bytes) address)
      "Isolated program addresses must use canonical 32-byte base58"
  check (not (contains reserved address))
      "Isolated program addresses must differ from existing protocol and runtime programs"

-- The ids of the anchor program and of the verifier.
unfoldable pub program_ids : Surroundings → Built (String × String)
program_ids env = elim env.isolated_program_ids [
  | none ↦ done (anchor_id, verifier_id)
  | some path ↦ (do
    check env.request_bound_v1 "Isolated program configuration requires request-bound-v1"
    check (env.is_absolute path) "ENTROS_ISOLATED_PROGRAM_IDS must name an absolute JSON path"
    config ← found (env.read_config path) "The configuration cannot be read"
    check ((config.schema_version == 1) && same config.cluster "devnet")
        "Isolated program configuration requires schemaVersion 1 and devnet"
    check (same config.registry_program registry_id)
        "Isolated programs must retain the existing Registry"
    validate_address env config.consumer_program
    validate_address env config.verifier_program
    check (not (same config.consumer_program config.verifier_program))
        "Isolated Anchor and verifier addresses must differ"
    done (config.consumer_program, config.verifier_program))
]
