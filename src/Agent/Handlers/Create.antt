-- ===== src/Agent/Handlers/Create.antt =====
-- agent_mandates/create_agent_mandate.rs
use vela_protocol.Base.{ℕ, not, leb, ◌==◌, if◌then◌else◌, [], ◌∷◌, List, length, map}
use vela_protocol.Base.Int.{ℤ, pos, leb_ℤ}
use vela_protocol.Errors.{
  Result, ok, err, vela, anchor, VelaError, AnchorError, ◌>>=◌, ◌>>◌, require,
}
use vela_protocol.State.{AgentMandate, AgentMandateStatus, ServiceLimit, ProtocolConfig}
use vela_protocol.Runtime.{
  Runtime, Seed, AccountInfo, TokenAccount, Loaded, Instruction, Invocation, Event, program_id,
  data_is_empty, usdc_decimals, agent_mandate_max_services, current_account_version,
  require_program,
}
use vela_protocol.Agent.Account.{agent_seeds, load_agent_mandate, initialize_agent_mandate}
use vela_protocol.Agent.Handlers.Common.{
  LoadedToken, AgentOutcome, check_agent_address, check_protocol_config,
}

pub record ServiceLimitInput : Type 0 where
  pub service : ℕ
  pub daily_limit : ℕ

-- `authority` has signed. `mandate_wrapped_account` is the account as Anchor's `init_if_needed` left it.
pub record CreateAgentMandate : Type 0 where
  pub authority : ℕ
  pub agent : ℕ
  pub agent_mandate : AccountInfo
  pub authority_usdc_account : Loaded TokenAccount
  pub mandate_wrapped_account : LoadedToken
  pub wrapped_usdc_mint : ℕ
  pub protocol_config : Loaded ProtocolConfig
  pub spl_usdc_mint : ℕ
  pub wrapping_vault : Loaded TokenAccount
  pub mint_authority : ℕ
  pub spl_token_program : ℕ
  pub token_2022_program : ℕ
  pub system_program : ℕ

pub record AgentTerms : Type 0 where
  pub daily_limit : ℕ
  pub lifetime_cap : ℕ
  pub min_pull_amount : ℕ
  pub min_pull_interval : ℤ
  pub services : List ServiceLimitInput

-- The inner loop over `j`: no later entry has the service.
unfoldable pub require_absent : ℕ → List ServiceLimitInput → Result (Unit {0})
require_absent service [] = ok tt
require_absent service (input ∷ rest) = do
  require (not (service == input.service)) (vela VelaError.duplicate_service)
  require_absent service rest

-- The loop over `i`.
unfoldable pub check_duplicates : List ServiceLimitInput → Result (Unit {0})
check_duplicates [] = ok tt
check_duplicates (input ∷ rest) = do require_absent input.service rest; check_duplicates rest

-- The check of a list of services, which the creation and the adjustment make.
unfoldable pub check_services : List ServiceLimitInput → Result (Unit {0})
check_services services = do
  require (leb (length services) agent_mandate_max_services) (vela VelaError.too_many_services)
  check_duplicates services

abbrev pub new_service : ℤ → ServiceLimitInput → ServiceLimit
new_service now input = record {
  service = input.service;
  daily_limit = input.daily_limit;
  daily_spent = 0;
  last_reset = now;
}

unfoldable pub check_agent_terms : AgentTerms → Result (Unit {0})
check_agent_terms t = do
  require (leb (length t.services) agent_mandate_max_services) (vela VelaError.too_many_services)
  require (leb_ℤ (pos 0) t.min_pull_interval) (vela VelaError.invalid_frequency)
  check_duplicates t.services

-- `AgentMandate::new` of the creation.
abbrev pub new_agent_mandate : ℕ → ℕ → AgentTerms → ℤ → ℕ → AgentMandate
new_agent_mandate authority agent t now bump = record {
  authority = authority;
  agent = agent;
  daily_limit = t.daily_limit;
  daily_spent = 0;
  daily_last_reset = now;
  lifetime_cap = t.lifetime_cap;
  total_spent = 0;
  min_pull_amount = t.min_pull_amount;
  min_pull_interval = t.min_pull_interval;
  last_pull_at = pos 0;
  status = AgentMandateStatus.active;
  services = map (new_service now) t.services;
  bump = bump;
  version = current_account_version;
}

-- The transfer of the authority's USDC into the vault, and the minting of as much.
abbrev pub fund_transfer : CreateAgentMandate → ℕ → Invocation
fund_transfer c amount = record {
  instruction =
      Instruction.transfer_checked c.spl_token_program c.authority_usdc_account.key c.spl_usdc_mint
        c.wrapping_vault.key c.authority amount usdc_decimals [];
  signer_seeds = [];
}

abbrev pub fund_mint : CreateAgentMandate → ℕ → ℕ → Invocation
fund_mint c amount bump = record {
  instruction =
      Instruction.mint_to c.token_2022_program c.wrapped_usdc_mint c.mandate_wrapped_account.key
        c.mint_authority amount;
  signer_seeds = Seed.literal "mint-authority" ∷ Seed.bump bump ∷ [];
}

module _ (rt : Runtime) where
  abbrev pub mint_authority_address : ℕ × ℕ
  mint_authority_address = rt.find_program_address (Seed.literal "mint-authority" ∷ []) program_id

  -- The constraints of the accounts.
  unfoldable pub check_create_agent_accounts : CreateAgentMandate → Result (Unit {0})
  check_create_agent_accounts c = do
    let config = c.protocol_config.state
    check_agent_address rt c.agent_mandate.key c.authority c.agent
    require (c.authority_usdc_account.state.owner == c.authority)
        (anchor AnchorError.constraint_raw)
    require (c.authority_usdc_account.state.mint == c.spl_usdc_mint)
        (vela VelaError.usdc_mint_mismatch)
    require (c.wrapped_usdc_mint == config.wrapped_usdc_mint)
        (anchor AnchorError.constraint_address)
    check_protocol_config rt c.protocol_config
    require (c.wrapping_vault.key == config.wrapping_vault) (anchor AnchorError.constraint_address)
    require (c.wrapping_vault.state.mint == c.spl_usdc_mint) (vela VelaError.usdc_mint_mismatch)
    require (c.wrapping_vault.state.owner == c.mint_authority) (vela VelaError.vault_mismatch)
    require (c.mint_authority == mint_authority_address.0) (anchor AnchorError.constraint_seeds)
    require_program c.spl_token_program rt.spl_token_id
    require_program c.token_2022_program rt.token_2022_id
    require_program c.system_program rt.system_program_id

  -- `if !agent_mandate.data_is_empty() { … }`
  unfoldable pub require_new_agent_mandate : CreateAgentMandate → Result (Unit {0})
  require_new_agent_mandate c =
      if not (data_is_empty c.agent_mandate.contents)
      then (do
        existing ← load_agent_mandate rt c.agent_mandate c.authority c.agent
        err (vela VelaError.agent_mandate_already_exists))
      else ok tt

  -- The event, with the balance that the minting leaves.
  abbrev pub create_event : CreateAgentMandate → AgentMandate → ℕ → List Invocation → Event
  create_event c m funded_amount calls =
      let tokens = c.mandate_wrapped_account in
      Event.agent_mandate_created (record {
        mandate = c.agent_mandate.key;
        authority = c.authority;
        agent = c.agent;
        daily_limit = m.daily_limit;
        lifetime_cap = m.lifetime_cap;
        service_count = length m.services;
        funded_amount = funded_amount;
        remaining_balance = (rt.reload calls tokens.key tokens.state).amount;
      })

  unfoldable pub create_agent_mandate :
      CreateAgentMandate → AgentTerms → ℕ → ℤ → Result AgentOutcome
  create_agent_mandate c t funded_amount now = do
    check_create_agent_accounts c
    check_agent_terms t
    require_new_agent_mandate c
    let bump = (rt.find_program_address (agent_seeds c.authority c.agent) program_id).1
    let m = new_agent_mandate c.authority c.agent t now bump
    (info, create) ← initialize_agent_mandate rt c.authority c.agent_mandate c.authority c.agent m
    let transfer = fund_transfer c funded_amount
    rt.invoke transfer
    let mint = fund_mint c funded_amount mint_authority_address.1
    rt.invoke mint
    let calls = create ∷ transfer ∷ mint ∷ []
    ok (record {
      mandate = info;
      invocations = calls;
      events = create_event c m funded_amount calls ∷ [];
    })
