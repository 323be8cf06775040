-- ===== src/Lib.antt =====
-- A model of the on-chain programs of this repository, with proofs.
--
-- The programs. entros-registry keeps the protocol's configuration, the validators' stakes and the
-- treasury. entros-verifier checks a wallet's proof and leaves a result account that the wallet
-- owns. entros-anchor keeps a wallet's identity: it reads the registry's configuration byte by
-- byte, demands a receipt that a configured validator signed in the instruction before, and reads
-- and closes the verifier's result. The crate entros-proof-request holds what verifier and anchor
-- share of a proof that is bound to a request.
--
-- The files, with the code that each is about.
--   Base       integers of fixed width, byte codecs, slices that panic out of bounds, results
--   Chain      lamports, transfers, rent and the closing of accounts, as parameters with laws
--   Score      isqrt, the weekly bins and the Trust Score of programs/entros-registry/src/lib.rs
--              (compute_trust_score) and programs/entros-anchor/src/lib.rs (process_anchor_update)
--   Registry   programs/entros-registry/src: Config is ProtocolConfig and its bytes, State the
--              accounts and the helpers on them, Setup, Keys, Authority, Projection and Funds the
--              twelve instructions, Calls their dispatch with what holds of every history
--   ProgramIds crates/proof-request/build.rs: the ids that a build gives the programs
--   Request    crates/proof-request/src/lib.rs: Action.encode, request_digest, read_counter
--   Verifier   programs/entros-verifier/src: State the accounts, Proof the two unbound proof
--              instructions, Bound the bound one, Challenges the challenge and the closing of
--              accounts, Calls their dispatch with what holds of every history
--   Receipt    programs/entros-anchor/src/lib.rs: Policy the two readers of the registry's
--              configuration, Instruction the parser of the Ed25519 instruction, Payload the signed
--              message, Digest the version 4 receipt of an update
--   Ring       programs/entros-anchor/src/lib.rs: record_verification
--   Update     programs/entros-anchor/src/lib.rs: process_anchor_update and its three instructions;
--              Proofs reads the verifier's result in either build, Identity the new identity,
--              Handler the whole; Layout the bytes of IdentityState in
--              programs/entros-anchor/src/state.rs
--   Counter    programs/entros-anchor/src/proof_request.rs: prepare, advance and
--              upgrade_identity_layout
--   Recovery   programs/entros-anchor/src/lib.rs: Reset is reset_identity_state, Rebaseline is
--              rebaseline_anchor, Baseline is set_encrypted_baseline, Shared what they share
--   Mint       programs/entros-anchor/src/lib.rs: State the accounts by address with the calls of
--              other programs, Token the calls that make a wallet's token, Issue is mint_anchor,
--              Migrate is authorize_new_wallet and migrate_identity
--   Lifetime   programs/entros-anchor/src/lib.rs: any sequence of the instructions on one wallet's
--              identity, authorizations of a new wallet among them
--
-- The correspondence. An instruction is a function from its signer, its arguments, the clock and
-- the state to a result with the new state; it has the name of the Rust function, and its guards
-- stand in the order of the source. The constraints of an account context come first, as in the
-- framework, with errors of their own. An error leaves the state as it was. An account with seeds
-- is named by the seeds. A byte is a number, a fixed array a list whose length is a hypothesis
-- where a theorem needs it; slices and copies out of range are the error `panic`. An i64 is an
-- integer with the range as a hypothesis, and every checked, saturating or wrapping operation is
-- written out. The Newton loop of isqrt runs on fuel n, which is enough since its variable falls
-- from n at every round; all other loops are structural.
--
-- An instruction that names its accounts keeps them in a record (Update, Recovery); minting and
-- migration, whose calls write to many accounts, keep a map from addresses to accounts (Mint). A
-- history (Lifetime) has a list of calls; before each, the clock, the transaction's instructions and
-- every account but the identity are as others have left them, and a call that fails changes
-- nothing.
--
-- Parameters. The system program's transfer, the closing of accounts and the rent are those of a
-- Chain, whose laws say that a transfer moves what it says and touches no third account, and that
-- closing an account pays its lamports to the target; VaultLaws say that the vault pays what it has,
-- if that leaves it empty or with the rent, to an account with the rent. The calls
-- of the system and token programs that mint and migrate make are data, in the source's order and
-- with its arguments; an interpreter of them is a parameter. RuntimeLaws says of it that no call
-- writes to an account of the anchor or the registry, TokenLaws that a mint_to adds and a burn
-- takes the amount it names and that the other calls leave the amounts. The codec of IdentityState
-- is a parameter of the handlers; where a theorem reads back what a handler wrote, it asks for a
-- Codec, whose laws are the round trip on accounts of full length and that shorter accounts are
-- refused; Layout is the derived one. That the verifier's close, where it succeeds, leaves the
-- account empty and with the system program is part of the model; whether it succeeds is not. The
-- hash, the pairing check of the proofs, the programs' addresses, the derived codec of
-- BoundVerificationResult, the anchor's call of the verifier program, the transaction's instructions,
-- and the base58 crate and the files that a build reads are parameters without laws.
--
-- Not modelled. That the bytes of a BoundVerificationResult are read back as they were written. The
-- dispatch of mint and migrate, which make and close an account, into a history. The rent that init_if_needed asks of an account that
-- exists. The text of the file that the build script writes. The verifying keys, which are generated
-- data, and the mock verifier, which stands in for the real one in tests; clients, scripts, tests.
pub mod Base
pub mod Chain
pub mod Score
pub mod Registry
pub mod Request
pub mod Verifier
pub mod Receipt
pub mod Ring
pub mod Update
pub mod Counter
pub mod Recovery
pub mod Mint
pub mod ProgramIds
pub mod Lifetime
