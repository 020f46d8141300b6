-- ===== src/Tests/Agents.antt =====
-- An agent mandate from its creation to its revocation.
use vela_protocol.Base.{ℕ, some, false, ◌≡◌, refl, [], ◌∷◌}
use vela_protocol.Base.Int.{pos, ◌-ℤ◌, ◌+ℤ◌}
use vela_protocol.Errors.{ok}
use vela_protocol.State.{AgentMandate, AgentMandateStatus, ProtocolConfig}
use vela_protocol.Runtime.{
  AccountInfo, AccountData, Layout, Loaded, program_id, transfer_hook_program_id, moved,
}
use vela_protocol.Accounts.{
  invoke_transfer_checked_with_hook, transfer_hook_account_metas, close_program_account,
}
use vela_protocol.Agent.Limits.{
  reset_daily_if_needed, find_service_index, reset_service_daily_if_needed,
}
use vela_protocol.Agent.Account.{
  into_legacy_agent, LoadedAgentMandate, agent_seeds, agent_authority, is_legacy,
  into_current_agent, decode_agent_mandate, write_agent_mandate, agent_data,
  validate_agent_mandate_address, load_agent_mandate,
}
use vela_protocol.Agent.Handlers.{
  LoadedToken, AgentOutcome, PullOutcome, AgentPull, NextSpent, check_agent_address,
  check_protocol_config, load_own_mandate, check_pull_accounts, check_pull_protocol, grant_approval,
  check_cooldown, check_limits, record_pull, require_pullable, agent_pull, reset_windows,
}
use vela_protocol.Agent.Step.{AgentStep, AgentSteps, pull}
use vela_protocol.Agent.Effects.{agent_pull-AgentSteps}
use vela_protocol.Agent.Authority.{PullAllowed, agent_pull-PullAllowed}
use vela_protocol.Hook.Config.{
  load_protocol_config, load_token_config, deserialize_protocol_config, deserialize_token_config,
}
use vela_protocol.Hook.Handler.{TransferHook, check_transfer, touches_vault, transfer_hook}
use vela_protocol.Hook.AgentPulls.{transfer_hook-agent_pull}
use vela_protocol.Tests.Fixture.{
  runtime, from_ok, address, protocol_config, config_account, token_config_account, meta_list,
  approval_address,
}
use vela_protocol.Tests.Hooks.{hooked}

-- Service 33 may take 600 a day of the 1000 that the agent may spend; 200 of them were spent yesterday.
abbrev pub mandate : AgentMandate
mandate = record {
  authority = 31;
  agent = 32;
  daily_limit = 1000;
  daily_spent = 300;
  daily_last_reset = pos 50_000;
  lifetime_cap = 5000;
  total_spent = 300;
  min_pull_amount = 10;
  min_pull_interval = pos 60;
  last_pull_at = pos 60_000;
  status = AgentMandateStatus.active;
  services =
      record { service = 33; daily_limit = 600; daily_spent = 200; last_reset = pos 50_000 }
      ∷ record { service = 34; daily_limit = 500; daily_spent = 100; last_reset = pos 55_000 }
      ∷ [];
  bump = 255;
  version = 1;
}

abbrev pub mandate_address : ℕ
mandate_address = address (agent_seeds 31 32)

abbrev pub mandate_account : AgentMandate → AccountInfo
mandate_account m = record {
  key = mandate_address;
  owner = program_id;
  lamports = 1000;
  contents = AccountData.agent_mandate (Layout.current m) 655;
}

abbrev pub tokens : ℕ → ℕ → LoadedToken
tokens key owner = record {
  key = key;
  program = 101;
  state = record { mint = 14; owner = owner; amount = 900 };
}

abbrev pub config : Loaded ProtocolConfig
config = record { key = config_account.key; state = protocol_config }

abbrev zeroed : AccountInfo
zeroed = record {
  key = approval_address mandate_address;
  owner = program_id;
  lamports = 820;
  contents = AccountData.unknown;
}

abbrev pub payer : AccountInfo
payer = record { key = 35; owner = 103; lamports = 5000; contents = AccountData.empty }

abbrev pub pulling : AgentPull
pulling = record {
  payer = payer;
  agent = 32;
  authority = 31;
  agent_mandate = mandate_account mandate;
  mandate_wrapped_account = tokens 21 mandate_address;
  service_wrapped_account = tokens 22 33;
  pull_approval = zeroed;
  token_config = token_config_account.key;
  wrapped_usdc_mint = 14;
  protocol_config = config;
  wrapping_vault = 15;
  hook_program = transfer_hook_program_id;
  extra_account_meta_list = meta_list;
  protocol_program = program_id;
  token_2022_program = 101;
  system_program = 103;
}

abbrev pub nothing : AgentOutcome
nothing = record { mandate = payer; invocations = []; events = [] }

abbrev pulled : PullOutcome
pulled =
    from_ok (record { left = nothing; granted = payer; closed = payer; refunded = payer })
      (agent_pull runtime pulling 350 (pos 200_000))

agent_pull_runs : agent_pull runtime pulling 350 (pos 200_000) ≡ ok pulled
unfolding check_agent_address check_protocol_config load_agent_mandate
    validate_agent_mandate_address decode_agent_mandate into_current_agent is_legacy
    write_agent_mandate agent_data into_legacy_agent agent_authority load_own_mandate agent_pull
    check_pull_accounts require_pullable check_pull_protocol find_service_index
    reset_daily_if_needed reset_service_daily_if_needed check_limits check_cooldown grant_approval
    invoke_transfer_checked_with_hook transfer_hook_account_metas close_program_account record_pull
    ◌-ℤ◌ ◌+ℤ◌
agent_pull_runs = refl

agent_pull-AgentSteps_example :
    AgentSteps runtime (mandate_account mandate) 31 32 (pos 200_000) 32 pulled.left.mandate 350
    × (moved 21 22 mandate_address pulled.left.invocations ≡ some 350)
agent_pull-AgentSteps_example =
    agent_pull-AgentSteps runtime pulling 350 (pos 200_000) pulled agent_pull_runs

agent_pull-PullAllowed_example :
    (l : LoadedAgentMandate) × (load_agent_mandate runtime (mandate_account mandate) 31 32 ≡ ok l)
    × PullAllowed pulling (into_current_agent l) 350 (pos 200_000)
agent_pull-PullAllowed_example =
    agent_pull-PullAllowed runtime pulling 350 (pos 200_000) pulled agent_pull_runs

abbrev pull_hook : TransferHook
pull_hook = hooked (mandate_account mandate) pulled.granted

pull_hook_checks :
    (check_transfer runtime pull_hook ≡ ok protocol_config)
    × (touches_vault runtime pull_hook protocol_config ≡ ok false)
unfolding check_transfer load_protocol_config load_token_config deserialize_protocol_config
    deserialize_token_config touches_vault
pull_hook_checks = (refl, refl)

transfer_hook-agent_pull_example : transfer_hook runtime pull_hook 350 (pos 200_000) ≡ ok tt
transfer_hook-agent_pull_example =
    transfer_hook-agent_pull runtime pulling pull_hook protocol_config false 350 (pos 200_000)
      pulled agent_pull_runs refl refl pull_hook_checks.0 pull_hook_checks.1

-- The mandate after the pull.
abbrev pub mandate_after : AgentMandate
mandate_after = record mandate {
  daily_spent = 350;
  daily_last_reset = pos 200_000;
  total_spent = 650;
  last_pull_at = pos 200_000;
  services =
      record { service = 33; daily_limit = 600; daily_spent = 350; last_reset = pos 200_000 }
      ∷ record { service = 34; daily_limit = 500; daily_spent = 100; last_reset = pos 55_000 }
      ∷ [];
}

abbrev spent : NextSpent
spent = record { service = 350; daily = 350; total = 650 }

pub pull_step_facts :
    (find_service_index mandate.services 33 ≡ some 0)
    × (check_limits (reset_windows mandate 0 (pos 200_000)) 0 350 (pos 200_000) ≡ ok spent)
    × (record_pull (reset_windows mandate 0 (pos 200_000)) 0 spent (pos 200_000) ≡ ok mandate_after)
    × (require_pullable mandate.status ≡ ok tt)
unfolding check_pull_accounts require_pullable check_pull_protocol find_service_index
    reset_daily_if_needed reset_service_daily_if_needed check_limits check_cooldown grant_approval
    invoke_transfer_checked_with_hook transfer_hook_account_metas close_program_account record_pull
    ◌-ℤ◌ ◌+ℤ◌
pull_step_facts = (refl, refl, refl, refl)

abbrev pub pull_step : AgentStep (pos 200_000) 32 mandate 350 mandate_after
pull_step =
    pull 33 0 spent refl pull_step_facts.3 pull_step_facts.0 pull_step_facts.1 pull_step_facts.2
