-- ===== src/Agent/Handlers/Withdraw.antt =====
-- agent_mandates/revoke_agent_mandate.rs and agent_mandates/drain_agent_mandate.rs
use vela_protocol.Base.{ℕ, ltb, ◌==◌, if◌then◌else◌, [], ◌∷◌, ◌++◌, List}
use vela_protocol.Errors.{Result, ok, vela, anchor, VelaError, AnchorError, ◌>>=◌, ◌>>◌, require}
use vela_protocol.State.{AgentMandate, AgentMandateStatus, ProtocolConfig}
use vela_protocol.Runtime.{
  Runtime, Seed, AccountInfo, TokenAccount, Loaded, Instruction, Invocation, Event, usdc_decimals,
  require_program,
}
use vela_protocol.Agent.Account.{agent_seeds, is_legacy, into_current_agent, write_agent_mandate}
use vela_protocol.Agent.Handlers.Common.{
  LoadedToken, AgentOutcome, check_owned_token, check_agent_address, check_protocol_config,
  load_own_mandate,
}
use vela_protocol.Agent.Handlers.Create.{mint_authority_address}
use vela_protocol.Agent.Handlers.Adjust.{require_not_revoked}

-- The accounts of `RevokeAgentMandate` and of `DrainAgentMandate`. `authority` has signed.
pub record RevokeAgentMandate : Type 0 where
  pub authority : ℕ
  pub agent : ℕ
  pub agent_mandate : AccountInfo
  pub mandate_wrapped_account : LoadedToken
  pub authority_usdc_account : Loaded TokenAccount
  pub wrapped_usdc_mint : ℕ
  pub protocol_config : Loaded ProtocolConfig
  pub spl_usdc_mint : ℕ
  pub wrapping_vault : Loaded TokenAccount
  pub mint_authority : ℕ
  pub spl_token_program : ℕ
  pub token_2022_program : ℕ

abbrev pub DrainAgentMandate : Type 0
DrainAgentMandate = RevokeAgentMandate

abbrev pub burn_call : RevokeAgentMandate → AgentMandate → ℕ → Invocation
burn_call c m amount = record {
  instruction =
      Instruction.burn c.token_2022_program c.wrapped_usdc_mint c.mandate_wrapped_account.key
        c.agent_mandate.key amount;
  signer_seeds = agent_seeds c.authority c.agent ++ Seed.bump m.bump ∷ [];
}

abbrev pub release_call : RevokeAgentMandate → ℕ → ℕ → Invocation
release_call c amount bump = record {
  instruction =
      Instruction.transfer_checked c.spl_token_program c.wrapping_vault.key c.spl_usdc_mint
        c.authority_usdc_account.key c.mint_authority amount usdc_decimals [];
  signer_seeds = Seed.literal "mint-authority" ∷ Seed.bump bump ∷ [];
}

module _ (rt : Runtime) where
  -- The constraints of the accounts.
  unfoldable pub check_withdraw_accounts : RevokeAgentMandate → Result (Unit {0})
  check_withdraw_accounts c = do
    let config = c.protocol_config.state
    check_agent_address rt c.agent_mandate.key c.authority c.agent
    check_owned_token c.mandate_wrapped_account c.wrapped_usdc_mint c.agent_mandate.key
        c.token_2022_program
    require (c.authority_usdc_account.state.owner == c.authority)
        (anchor AnchorError.constraint_raw)
    require (c.authority_usdc_account.state.mint == c.spl_usdc_mint)
        (vela VelaError.usdc_mint_mismatch)
    require (c.wrapped_usdc_mint == config.wrapped_usdc_mint)
        (anchor AnchorError.constraint_address)
    check_protocol_config rt c.protocol_config
    require (c.wrapping_vault.key == config.wrapping_vault) (anchor AnchorError.constraint_address)
    require (c.wrapping_vault.state.mint == c.spl_usdc_mint) (vela VelaError.usdc_mint_mismatch)
    require (c.wrapping_vault.state.owner == c.mint_authority) (vela VelaError.vault_mismatch)
    require (c.mint_authority == (mint_authority_address rt).0)
        (anchor AnchorError.constraint_seeds)
    require_program c.spl_token_program rt.spl_token_id
    require_program c.token_2022_program rt.token_2022_id

  -- `if amount > 0 { … }`, the same in the two handlers: the wrapped tokens are burnt, and as much
  -- USDC goes from the vault to the authority.
  unfoldable pub withdraw : RevokeAgentMandate → AgentMandate → Result (List Invocation)
  withdraw c m =
      let amount = c.mandate_wrapped_account.state.amount in
      if ltb 0 amount
      then (do
        let burn = burn_call c m amount
        rt.invoke burn
        let release = release_call c amount (mint_authority_address rt).1
        rt.invoke release
        ok (burn ∷ release ∷ []))
      else ok []

  -- The balance that the calls leave.
  abbrev pub balance_after : RevokeAgentMandate → List Invocation → ℕ
  balance_after c calls =
      let tokens = c.mandate_wrapped_account in (rt.reload calls tokens.key tokens.state).amount

  unfoldable pub revoke_agent_mandate : RevokeAgentMandate → Result AgentOutcome
  revoke_agent_mandate c = do
    check_withdraw_accounts c
    loaded ← load_own_mandate rt c.agent_mandate c.authority c.agent
    let m = into_current_agent loaded
    require_not_revoked m.status
    calls ← withdraw c m
    let event = Event.agent_mandate_revoked (record {
      mandate = c.agent_mandate.key;
      authority = m.authority;
      agent = m.agent;
      daily_spent = m.daily_spent;
      total_spent = m.total_spent;
      remaining_balance = balance_after c calls;
    })
    written ←
        write_agent_mandate c.agent_mandate (record m { status = AgentMandateStatus.revoked })
          (is_legacy loaded)
    ok (record { mandate = written; invocations = calls; events = event ∷ [] })

  -- The mandate is not written.
  unfoldable pub drain_agent_mandate : DrainAgentMandate → Result AgentOutcome
  drain_agent_mandate c = do
    check_withdraw_accounts c
    loaded ← load_own_mandate rt c.agent_mandate c.authority c.agent
    let m = into_current_agent loaded
    calls ← withdraw c m
    let event = Event.agent_mandate_drained (record {
      mandate = c.agent_mandate.key;
      authority = m.authority;
      agent = m.agent;
      status = m.status;
      daily_spent = m.daily_spent;
      total_spent = m.total_spent;
      remaining_balance = balance_after c calls;
    })
    ok (record { mandate = c.agent_mandate; invocations = calls; events = event ∷ [] })
