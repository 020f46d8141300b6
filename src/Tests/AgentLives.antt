-- ===== src/Tests/AgentLives.antt =====
-- What the authority does with an agent mandate, and what the agent may spend.
use vela_protocol.Base.{◌+◌, ◌*◌, ◌≤◌, none, some, true, ◌≡◌, refl, arith, [], ◌∷◌}
use vela_protocol.Base.Int.{pos, ◌-ℤ◌, ◌+ℤ◌, ◌≤ℤ◌, ◌<ℤ◌}
use vela_protocol.Errors.{ok}
use vela_protocol.State.{AgentMandate, AgentMandateStatus}
use vela_protocol.Runtime.{AccountInfo, AccountData, Layout, Loaded, TokenAccount, Seed, program_id}
use vela_protocol.Agent.Account.{
  into_legacy_agent, LoadedAgentMandate, agent_authority, is_legacy, into_current_agent,
  decode_agent_mandate, write_agent_mandate, agent_data, validate_agent_mandate_address,
  load_agent_mandate, initialize_agent_mandate,
}
use vela_protocol.Agent.Handlers.{
  check_services, update_services, spent_of, AgentOutcome, AdjustAgentMandate, Adjustment,
  PauseAgentMandate, RevokeAgentMandate, CreateAgentMandate, AgentTerms, check_agent_address,
  check_protocol_config, load_own_mandate, check_cooldown, require_absent, check_duplicates,
  check_agent_terms, check_create_agent_accounts, require_new_agent_mandate, create_agent_mandate,
  check_withdraw_accounts, require_not_revoked, withdraw, revoke_agent_mandate, drain_agent_mandate,
  check_adjust_accounts, adjust_daily_limit, adjust_lifetime_cap, adjust_min_interval,
  adjust_services, apply_adjustment, adjust_agent_mandate, require_active_agent,
  require_paused_agent, pause_agent_mandate, resume_agent_mandate,
}
use vela_protocol.Agent.Backing.{Withdrawn, revoke_agent_mandate-Withdrawn}
use vela_protocol.Agent.Adjusting.{WithinLimits}
use vela_protocol.Agent.Invariant.{AgentStep-WithinLimits, create_agent_mandate-WithinLimits}
use vela_protocol.Agent.Spending.{
  AgentRun, DayRun, done, more, begin, next, AgentRun-lifetime, DayRun-bounded,
}
use vela_protocol.Agent.Reload.{Reread, load-write_agent_mandate}
use vela_protocol.Tests.Fixture.{runtime, from_ok, address}
use vela_protocol.Tests.Agents.{
  mandate, mandate_after, mandate_account, mandate_address, tokens, config, nothing, pull_step,
}

mandate-WithinLimits : WithinLimits mandate
mandate-WithinLimits = record {
  daily = ground arith;
  total = ground arith;
  services = (ground arith, (ground arith, tt));
  count = ground arith;
  distinct = (((λ e. ground arith), tt), (tt, tt));
  versioned = refl;
}

AgentStep-WithinLimits_example : WithinLimits mandate_after
AgentStep-WithinLimits_example = AgentStep-WithinLimits pull_step mandate-WithinLimits

abbrev one_pull : AgentRun mandate 350 mandate_after
one_pull = more 0 350 32 (pos 200_000) mandate mandate_after done pull_step

AgentRun-lifetime_example :
    WithinLimits mandate_after
    × (mandate_after.total_spent ≡ mandate.total_spent + 350)
    × (mandate.total_spent + 350 ≤ mandate_after.lifetime_cap)
AgentRun-lifetime_example = AgentRun-lifetime one_pull mandate-WithinLimits

day_times : (pos 200_000 ≤ℤ pos 200_000) × (pos 200_000 <ℤ pos 200_000 +ℤ pos 86400)
unfolding ◌+ℤ◌
day_times = (ground arith, ground arith)

abbrev one_day : DayRun 1000 (pos 200_000) mandate 350 mandate_after
one_day =
    next 0 350 32 (pos 200_000) mandate mandate_after (begin (ground arith)) day_times.0 day_times.1
      pull_step (ground arith)

DayRun-bounded_example : 350 ≤ 2 * 1000
DayRun-bounded_example = DayRun-bounded one_day mandate-WithinLimits

cooldown_over : check_cooldown mandate (pos 70_000) ≡ ok tt
unfolding check_cooldown ◌-ℤ◌
cooldown_over = refl

-- An account of the legacy layout with room for three services, and the mandate after two of them
-- were taken off.
abbrev crowded : AgentMandate
crowded = record mandate {
  services =
      record { service = 35; daily_limit = 9; daily_spent = 0; last_reset = pos 0 }
      ∷ mandate.services;
}

abbrev fewer : AgentMandate
fewer = record mandate {
  services = record { service = 35; daily_limit = 9; daily_spent = 0; last_reset = pos 0 } ∷ [];
}

abbrev crowded_account : AccountInfo
crowded_account = record (mandate_account mandate) {
  contents = AccountData.agent_mandate (Layout.legacy (into_legacy_agent crowded) true) 310;
}

abbrev fewer_account : AccountInfo
fewer_account = record crowded_account {
  contents = AccountData.agent_mandate (Layout.current (record fewer { version = 0 })) 310;
}

crowded_runs :
    (load_agent_mandate runtime crowded_account 31 32
      ≡ ok (LoadedAgentMandate.legacy (into_legacy_agent crowded)))
    × (write_agent_mandate crowded_account fewer true ≡ ok fewer_account)
unfolding load_agent_mandate validate_agent_mandate_address decode_agent_mandate write_agent_mandate
    agent_data into_legacy_agent
crowded_runs = (refl, refl)

load-write_agent_mandate_example :
    Reread runtime fewer_account (LoadedAgentMandate.legacy (into_legacy_agent crowded)) fewer 310
unfolding is_legacy
load-write_agent_mandate_example =
    load-write_agent_mandate runtime crowded_account fewer_account
      (LoadedAgentMandate.legacy (into_legacy_agent crowded)) fewer crowded_runs.0 refl
      crowded_runs.1

-- The authority raises the daily limit and replaces the services.
abbrev adjusting : AdjustAgentMandate
adjusting = record {
  authority = 31;
  agent = 32;
  agent_mandate = mandate_account mandate;
  mandate_wrapped_account = tokens 21 mandate_address;
  wrapped_usdc_mint = 14;
  protocol_config = config;
  token_2022_program = 101;
}

abbrev adjustment : Adjustment
adjustment = record {
  daily_limit = some 2000;
  lifetime_cap = none;
  min_pull_amount = none;
  min_pull_interval = some (pos 120);
  services =
      some (
        record { service = 33; daily_limit = 300 }
        ∷ record { service = 36; daily_limit = 50 }
        ∷ []);
}

abbrev adjusted : AgentOutcome
adjusted = from_ok nothing (adjust_agent_mandate runtime adjusting adjustment (pos 70_000))

adjust_agent_mandate_runs :
    adjust_agent_mandate runtime adjusting adjustment (pos 70_000) ≡ ok adjusted
unfolding check_agent_address check_protocol_config load_agent_mandate
    validate_agent_mandate_address decode_agent_mandate into_current_agent is_legacy
    write_agent_mandate agent_data into_legacy_agent agent_authority load_own_mandate
    adjust_agent_mandate check_adjust_accounts require_not_revoked apply_adjustment
    adjust_daily_limit adjust_lifetime_cap adjust_min_interval adjust_services check_services
    check_duplicates require_absent update_services spent_of
adjust_agent_mandate_runs = refl

-- The authority pauses the mandate.
abbrev pausing : PauseAgentMandate
pausing = record { authority = 31; agent = 32; agent_mandate = mandate_account mandate }

abbrev paused_agent : AgentOutcome
paused_agent = from_ok nothing (pause_agent_mandate runtime pausing)

pause_agent_mandate_runs : pause_agent_mandate runtime pausing ≡ ok paused_agent
unfolding check_agent_address check_protocol_config load_agent_mandate
    validate_agent_mandate_address decode_agent_mandate into_current_agent is_legacy
    write_agent_mandate agent_data into_legacy_agent agent_authority load_own_mandate
    pause_agent_mandate require_active_agent
pause_agent_mandate_runs = refl

abbrev resuming : PauseAgentMandate
resuming = record {
  authority = 31;
  agent = 32;
  agent_mandate = mandate_account (record mandate { status = AgentMandateStatus.paused });
}

abbrev resumed_agent : AgentOutcome
resumed_agent = from_ok nothing (resume_agent_mandate runtime resuming)

resume_agent_mandate_runs : resume_agent_mandate runtime resuming ≡ ok resumed_agent
unfolding check_agent_address check_protocol_config load_agent_mandate
    validate_agent_mandate_address decode_agent_mandate into_current_agent is_legacy
    write_agent_mandate agent_data into_legacy_agent agent_authority load_own_mandate
    resume_agent_mandate require_paused_agent
resume_agent_mandate_runs = refl

-- The authority revokes the mandate, or drains it.
abbrev pub vault : Loaded TokenAccount
vault = record {
  key = 15;
  state = record {
    mint = 37;
    owner = address (Seed.literal "mint-authority" ∷ []);
    amount = 1_000_000;
  };
}

abbrev pub usdc : Loaded TokenAccount
usdc = record { key = 38; state = record { mint = 37; owner = 31; amount = 10_000 } }

abbrev pub revoking : RevokeAgentMandate
revoking = record {
  authority = 31;
  agent = 32;
  agent_mandate = mandate_account mandate;
  mandate_wrapped_account = tokens 21 mandate_address;
  authority_usdc_account = usdc;
  wrapped_usdc_mint = 14;
  protocol_config = config;
  spl_usdc_mint = 37;
  wrapping_vault = vault;
  mint_authority = address (Seed.literal "mint-authority" ∷ []);
  spl_token_program = 102;
  token_2022_program = 101;
}

abbrev pub revoked_agent : AgentOutcome
revoked_agent = from_ok nothing (revoke_agent_mandate runtime revoking)

pub revoke_agent_mandate_runs : revoke_agent_mandate runtime revoking ≡ ok revoked_agent
unfolding check_agent_address check_protocol_config load_agent_mandate
    validate_agent_mandate_address decode_agent_mandate into_current_agent is_legacy
    write_agent_mandate agent_data into_legacy_agent agent_authority load_own_mandate
    revoke_agent_mandate check_withdraw_accounts require_not_revoked withdraw
revoke_agent_mandate_runs = refl

revoke_agent_mandate-Withdrawn_example : Withdrawn revoking revoked_agent.invocations
revoke_agent_mandate-Withdrawn_example =
    revoke_agent_mandate-Withdrawn runtime revoking revoked_agent revoke_agent_mandate_runs
      (λ e. ground arith)

abbrev drained_agent : AgentOutcome
drained_agent = from_ok nothing (drain_agent_mandate runtime revoking)

drain_agent_mandate_runs : drain_agent_mandate runtime revoking ≡ ok drained_agent
unfolding check_agent_address check_protocol_config load_agent_mandate
    validate_agent_mandate_address decode_agent_mandate into_current_agent is_legacy
    write_agent_mandate agent_data into_legacy_agent agent_authority load_own_mandate
    drain_agent_mandate check_withdraw_accounts withdraw
drain_agent_mandate_runs = refl

-- The authority creates the mandate and funds it with 900.
abbrev creating_agent : CreateAgentMandate
creating_agent = record {
  authority = 31;
  agent = 32;
  agent_mandate = record {
    key = mandate_address;
    owner = 103;
    lamports = 0;
    contents = AccountData.empty;
  };
  authority_usdc_account = usdc;
  mandate_wrapped_account = tokens 21 mandate_address;
  wrapped_usdc_mint = 14;
  protocol_config = config;
  spl_usdc_mint = 37;
  wrapping_vault = vault;
  mint_authority = address (Seed.literal "mint-authority" ∷ []);
  spl_token_program = 102;
  token_2022_program = 101;
  system_program = 103;
}

abbrev agent_terms : AgentTerms
agent_terms = record {
  daily_limit = 1000;
  lifetime_cap = 5000;
  min_pull_amount = 10;
  min_pull_interval = pos 60;
  services =
      record { service = 33; daily_limit = 600 } ∷ record { service = 34; daily_limit = 500 } ∷ [];
}

abbrev created_agent : AgentOutcome
created_agent =
    from_ok nothing (create_agent_mandate runtime creating_agent agent_terms 900 (pos 50_000))

create_agent_mandate_runs :
    create_agent_mandate runtime creating_agent agent_terms 900 (pos 50_000) ≡ ok created_agent
unfolding check_agent_address check_protocol_config load_agent_mandate
    validate_agent_mandate_address decode_agent_mandate into_current_agent is_legacy
    write_agent_mandate agent_data into_legacy_agent agent_authority load_own_mandate
    create_agent_mandate check_create_agent_accounts check_agent_terms check_duplicates
    require_absent require_new_agent_mandate initialize_agent_mandate
create_agent_mandate_runs = refl

create_agent_mandate-WithinLimits_example :
    (m : AgentMandate) × (created_agent.mandate ≡ record creating_agent.agent_mandate {
      owner = program_id;
      contents = AccountData.agent_mandate (Layout.current m) 655;
    })
    × WithinLimits m
    × (m.total_spent ≡ 0)
    × (m.status ≡ AgentMandateStatus.active)
create_agent_mandate-WithinLimits_example =
    create_agent_mandate-WithinLimits runtime creating_agent agent_terms 900 (pos 50_000)
      created_agent create_agent_mandate_runs
