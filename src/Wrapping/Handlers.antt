-- ===== src/Wrapping/Handlers.antt =====
-- token/wrap.rs and token/unwrap.rs
use vela_protocol.Base.{ℕ, not, ◌==◌, [], ◌∷◌, List}
use vela_protocol.Errors.{
  Result, ok, vela, anchor, VelaError, AnchorError, ◌>>=◌, ◌>>◌, require, require_keys_eq,
}
use vela_protocol.Runtime.{
  Runtime, Seed, AccountInfo, TokenAccount, Loaded, Instruction, Invocation, usdc_decimals,
  program_id, default_pubkey, require_program,
}
use vela_protocol.Accounts.{load_protocol_config, config_wrapped_usdc_mint, config_wrapping_vault}
use vela_protocol.Agent.Handlers.{LoadedToken, check_token, check_owned_token}

-- `subscriber` has signed.
pub record Wrap : Type 0 where
  pub subscriber : ℕ
  pub config : AccountInfo
  pub spl_usdc_mint : ℕ
  pub wrapped_usdc_mint : ℕ
  pub subscriber_usdc_account : Loaded TokenAccount
  pub destination_wrapped_account : LoadedToken
  pub destination_authority : ℕ
  pub wrapping_vault : Loaded TokenAccount
  pub mint_authority : ℕ
  pub spl_token_program : ℕ
  pub token_2022_program : ℕ

-- `user` has signed.
pub record Unwrap : Type 0 where
  pub user : ℕ
  pub config : AccountInfo
  pub spl_usdc_mint : ℕ
  pub wrapped_usdc_mint : ℕ
  pub user_wrapped_account : LoadedToken
  pub user_usdc_account : Loaded TokenAccount
  pub wrapping_vault : Loaded TokenAccount
  pub mint_authority : ℕ
  pub spl_token_program : ℕ
  pub token_2022_program : ℕ

abbrev pub wrap_transfer : Wrap → ℕ → Invocation
wrap_transfer c amount = record {
  instruction =
      Instruction.transfer_checked c.spl_token_program c.subscriber_usdc_account.key c.spl_usdc_mint
        c.wrapping_vault.key c.subscriber amount usdc_decimals [];
  signer_seeds = [];
}

abbrev pub wrap_mint : Wrap → ℕ → ℕ → Invocation
wrap_mint c amount bump = record {
  instruction =
      Instruction.mint_to c.token_2022_program c.wrapped_usdc_mint c.destination_wrapped_account.key
        c.mint_authority amount;
  signer_seeds = Seed.literal "mint-authority" ∷ Seed.bump bump ∷ [];
}

abbrev pub unwrap_burn : Unwrap → ℕ → Invocation
unwrap_burn c amount = record {
  instruction =
      Instruction.burn c.token_2022_program c.wrapped_usdc_mint c.user_wrapped_account.key c.user
        amount;
  signer_seeds = [];
}

abbrev pub unwrap_transfer : Unwrap → ℕ → ℕ → Invocation
unwrap_transfer c amount bump = record {
  instruction =
      Instruction.transfer_checked c.spl_token_program c.wrapping_vault.key c.spl_usdc_mint
        c.user_usdc_account.key c.mint_authority amount usdc_decimals [];
  signer_seeds = Seed.literal "mint-authority" ∷ Seed.bump bump ∷ [];
}

module _ (rt : Runtime) where
  abbrev vault_authority : ℕ × ℕ
  vault_authority = rt.find_program_address (Seed.literal "mint-authority" ∷ []) program_id

  -- `seeds = [ProtocolConfig::SEED_PREFIX], bump` and `seeds = [b"mint-authority"], bump`
  abbrev check_pdas : (config mint_authority : ℕ) → Result (Unit {0})
  check_pdas config mint_authority = do
    require (config == (rt.find_program_address (Seed.literal "config" ∷ []) program_id).0)
        (anchor AnchorError.constraint_seeds)
    require (mint_authority == vault_authority.0) (anchor AnchorError.constraint_seeds)

  -- The constraints of the accounts.
  unfoldable pub check_wrap_accounts : Wrap → Result (Unit {0})
  check_wrap_accounts c = do
    check_pdas c.config.key c.mint_authority
    require (c.subscriber_usdc_account.state.owner == c.subscriber)
        (anchor AnchorError.constraint_raw)
    require (c.subscriber_usdc_account.state.mint == c.spl_usdc_mint)
        (anchor AnchorError.constraint_raw)
    check_token c.destination_wrapped_account c.wrapped_usdc_mint c.token_2022_program
    require (c.wrapping_vault.state.mint == c.spl_usdc_mint) (vela VelaError.usdc_mint_mismatch)
    require (c.wrapping_vault.state.owner == c.mint_authority) (vela VelaError.vault_mismatch)
    require_program c.spl_token_program rt.spl_token_id
    require_program c.token_2022_program rt.token_2022_id

  -- The invocations that were made.
  unfoldable pub wrap : Wrap → ℕ → Result (List Invocation)
  wrap c amount = do
    check_wrap_accounts c
    config ← load_protocol_config rt c.config
    require (not (config_wrapped_usdc_mint config == default_pubkey))
        (vela VelaError.wrapped_mint_not_initialized)
    require_keys_eq c.wrapped_usdc_mint (config_wrapped_usdc_mint config)
        (vela VelaError.usdc_mint_mismatch)
    require_keys_eq c.wrapping_vault.key (config_wrapping_vault config)
        (vela VelaError.vault_mismatch)
    require_keys_eq c.destination_wrapped_account.state.owner c.destination_authority
        (vela VelaError.transfer_not_authorized)
    let transfer = wrap_transfer c amount
    rt.invoke transfer
    let mint = wrap_mint c amount vault_authority.1
    rt.invoke mint
    ok (transfer ∷ mint ∷ [])

  -- The constraints of the accounts.
  unfoldable pub check_unwrap_accounts : Unwrap → Result (Unit {0})
  check_unwrap_accounts c = do
    check_pdas c.config.key c.mint_authority
    check_owned_token c.user_wrapped_account c.wrapped_usdc_mint c.user c.token_2022_program
    require (c.user_usdc_account.state.owner == c.user) (anchor AnchorError.constraint_raw)
    require (c.user_usdc_account.state.mint == c.spl_usdc_mint) (anchor AnchorError.constraint_raw)
    require_program c.spl_token_program rt.spl_token_id
    require_program c.token_2022_program rt.token_2022_id

  unfoldable pub unwrap : Unwrap → ℕ → Result (List Invocation)
  unwrap c amount = do
    check_unwrap_accounts c
    config ← load_protocol_config rt c.config
    require_keys_eq c.wrapped_usdc_mint (config_wrapped_usdc_mint config)
        (vela VelaError.usdc_mint_mismatch)
    require_keys_eq c.wrapping_vault.key (config_wrapping_vault config)
        (vela VelaError.vault_mismatch)
    let burn = unwrap_burn c amount
    rt.invoke burn
    let transfer = unwrap_transfer c amount vault_authority.1
    rt.invoke transfer
    ok (burn ∷ transfer ∷ [])
