-- ===== src/ProgramIds/Laws.antt =====
-- What the ids of a build are.
use Prim.Native.String.{String}
use text.Mathlib.TextEquality.{eq_iff}
use protocol_core.Base.{
  ◌≡◌, ◌≢◌, refl, sym, ◌∙◌, ◌⊎◌, inl, inr, true, false, none, some, List, [], ◌∷◌, length, arith,
  Option-cases, subst,
}
use protocol_core.Base.Words.{Bytes}
use protocol_core.ProgramIds.{
  anchor_id, verifier_id, registry_id, IsolatedPrograms, Surroundings, Built, done, failed,
  contains, reserved, validate_address, program_ids,
}

abbrev pub IsIn : String → List String → Type 0
IsIn a [] = ⊥
IsIn a (x ∷ xs) = (x ≡ a) ⊎ IsIn a xs

contains-IsIn : (xs : List String) (a : String) → contains xs a ≡ false → ¬ IsIn a xs
unfolding contains
contains-IsIn [] a e h = h
contains-IsIn (x ∷ xs) a e (inl p) = ground (arith, eq_iff x a)
contains-IsIn (x ∷ xs) a e (inr h) = contains-IsIn xs a (ground arith) h

Built-cases {ℓ} :
    {A : Type ℓ} (b : Built A) → ((a : A) × (b ≡ done a)) ⊎ ((m : String) × (b ≡ failed m))
Built-cases (done a) = inl (a, refl)
Built-cases (failed m) = inr (m, refl)

-- An address that an isolated deployment may have.
pub record IsFree (env : Surroundings) (address : String) : Type 0 where
  pub bytes : Bytes
  pub decodes : env.decode address ≡ some bytes
  pub full : length bytes ≡ 32
  pub canonical : env.encode bytes ≡ address
  pub unreserved : ¬ IsIn address reserved

validate_address_lem :
    (env : Surroundings) (address : String)
    → validate_address env address ≡ done tt
    → IsFree env address
unfolding validate_address
validate_address_lem env address e = elim (Option-cases (env.decode address)) [
  | inl n ↦ ground arith
  | inr (bytes, n) ↦ record {
    bytes = bytes;
    decodes = n;
    full = ground arith;
    canonical = ground (arith, eq_iff (env.encode bytes) address);
    unreserved = contains-IsIn reserved address (ground arith);
  }
]

-- The build of an isolated deployment.
pub record IsIsolated (env : Surroundings) (path anchor verifier : String) : Type 0 where
  pub config : IsolatedPrograms
  pub feature : env.request_bound_v1 ≡ true
  pub absolute : env.is_absolute path ≡ true
  pub reads : env.read_config path ≡ some config
  pub version : config.schema_version ≡ 1
  pub devnet : config.cluster ≡ "devnet"
  pub same_registry : config.registry_program ≡ registry_id
  pub consumer : config.consumer_program ≡ anchor
  pub second : config.verifier_program ≡ verifier
  pub anchor_free : IsFree env anchor
  pub verifier_free : IsFree env verifier
  pub apart : anchor ≢ verifier

isolated :
    (env : Surroundings) (path : String) {anchor verifier : String}
    → env.isolated_program_ids ≡ some path
    → program_ids env ≡ done (anchor, verifier)
    → IsIsolated env path anchor verifier
unfolding program_ids
isolated env path {anchor} {verifier} p e = elim (Option-cases (env.read_config path)) [
  | inl n ↦ ground arith
  | inr (config, n) ↦ elim (Built-cases (validate_address env config.consumer_program)) [
    | inr (m, a) ↦ ground arith
    | inl (u, a) ↦ elim (Built-cases (validate_address env config.verifier_program)) [
      | inr (m, v) ↦ ground arith
      | inl (u', v) ↦
          let consumer : config.consumer_program ≡ anchor = ground arith in
          let second : config.verifier_program ≡ verifier = ground arith in
          record {
            config = config;
            feature = ground arith;
            absolute = ground arith;
            reads = n;
            version = ground arith;
            devnet = ground (arith, eq_iff config.cluster "devnet");
            same_registry = ground (arith, eq_iff config.registry_program registry_id);
            consumer = consumer;
            second = second;
            anchor_free =
                subst (IsFree env) consumer (validate_address_lem env config.consumer_program a);
            verifier_free =
                subst (IsFree env) second (validate_address_lem env config.verifier_program v);
            apart = ground (arith, eq_iff config.consumer_program config.verifier_program);
          }
    ]
  ]
]

differ_published :
    (anchor_id ≢ verifier_id) × (anchor_id ≢ registry_id) × (verifier_id ≢ registry_id)
differ_published = (
  ground (arith, eq_iff anchor_id verifier_id),
  ground (arith, eq_iff anchor_id registry_id),
  ground (arith, eq_iff verifier_id registry_id),
)

-- A build that succeeds has the published ids, when no isolated deployment is named, or those of
-- the named file, and then only with the feature, from an absolute path, for devnet and with the
-- published registry, and each id is the canonical base58 of 32 bytes and none of the reserved ones.
-- In either case the anchor, the verifier and the registry have three different ids.
pub program_ids_lem :
    (env : Surroundings) (anchor verifier : String)
    → program_ids env ≡ done (anchor, verifier)
    → (((env.isolated_program_ids ≡ none) × (anchor ≡ anchor_id) × (verifier ≡ verifier_id))
        ⊎ ((path : String) × (env.isolated_program_ids ≡ some path)
            × IsIsolated env path anchor verifier))
      × (anchor ≢ verifier)
      × (anchor ≢ registry_id)
      × (verifier ≢ registry_id)
unfolding program_ids
program_ids_lem env anchor verifier e = elim (Option-cases env.isolated_program_ids) [
  | inl n ↦
      let a : anchor ≡ anchor_id = ground arith in
      let v : verifier ≡ verifier_id = ground arith in
      (
        inl (n, a, v),
        λ q. differ_published.0 (sym a ∙ q ∙ v),
        λ q. differ_published.1 (sym a ∙ q),
        λ q. differ_published.2 (sym v ∙ q),
      )
  | inr (path, n) ↦
      let i = isolated env path n e in
      (
        inr (path, n, i),
        i.apart,
        λ q. i.anchor_free.unreserved (inr (inr (inl (sym q)))),
        λ q. i.verifier_free.unreserved (inr (inr (inl (sym q)))),
      )
]
