-- ===== src/Mint/Token.antt =====
-- The calls that make a wallet's token: a mint that cannot be transferred, its metadata, the wallet's
-- token account, and one token.
pub mod Laws
use protocol_core.Base.{
  ℕ, ◌+◌, none, List, [], ◌∷◌, if◌then◌else◌, Result, framework, FrameworkError, ok_or, ◌>>=◌,
}
use protocol_core.Base.Words.{Bytes}
use protocol_core.Chain.{Pubkey}
use protocol_core.Update.State.{Environment}
use protocol_core.Mint.State.{Cpi, Store, Tokens, run_cpis}

-- "Entros Anchor", "ANCHOR", "https://entros.io/anchor-metadata.json"
abbrev pub mint_name : Bytes
mint_name = 69 ∷ 110 ∷ 116 ∷ 114 ∷ 111 ∷ 115 ∷ 32 ∷ 65 ∷ 110 ∷ 99 ∷ 104 ∷ 111 ∷ 114 ∷ []

abbrev pub mint_symbol : Bytes
mint_symbol = 65 ∷ 78 ∷ 67 ∷ 72 ∷ 79 ∷ 82 ∷ []

abbrev pub mint_uri : Bytes
mint_uri =
    104 ∷ 116 ∷ 116 ∷ 112 ∷ 115 ∷ 58 ∷ 47 ∷ 47 ∷ 101 ∷ 110 ∷ 116 ∷ 114 ∷ 111 ∷ 115 ∷ 46 ∷ 105 ∷ 111
    ∷ 47 ∷ 97 ∷ 110 ∷ 99 ∷ 104 ∷ 111 ∷ 114 ∷ 45 ∷ 109 ∷ 101 ∷ 116 ∷ 97 ∷ 100 ∷ 97 ∷ 116 ∷ 97 ∷ 46
    ∷ 106 ∷ 115 ∷ 111 ∷ 110 ∷ []

unfoldable pub token_calls : Environment → Pubkey → Pubkey → ℕ → ℕ → List Cpi
token_calls env user token_account lamports space =
    let mint = env.mint_key user in
    let authority = env.mint_authority_key in
    Cpi.create_account user mint lamports space
    ∷ Cpi.initialize_non_transferable_mint mint
    ∷ Cpi.initialize_mint_close_authority mint authority
    ∷ Cpi.initialize_metadata_pointer mint authority mint
    ∷ Cpi.initialize_mint2 mint authority none 0
    ∷ Cpi.token_metadata_initialize mint authority mint_name mint_symbol mint_uri
    ∷ (if env.request_bound_v1
        then Cpi.create_associated_idempotent user token_account user mint
        else Cpi.create_associated user token_account user mint)
    ∷ Cpi.mint_to mint token_account authority 1
    ∷ []

-- The mint's rent is paid for its metadata too, which the token program appends.
unfoldable pub issue_token : Environment → Tokens → Pubkey → Pubkey → Store → Result Store
issue_token env tokens user token_account s = do
  meta_data_space ← ok_or tokens.metadata_space (framework FrameworkError.cpi_failed)
  space ← ok_or tokens.mint_space (framework FrameworkError.cpi_failed)
  let lamports = env.chain.minimum_balance (space + meta_data_space)
  run_cpis tokens (token_calls env user token_account lamports space) s
