-- ===== src/Agent/Handlers/Adjust.antt =====
-- agent_mandates/adjust_agent_mandate.rs
use vela_protocol.Base.{
  ℕ, Bool, Option, none, some, leb, ◌==◌, ◌||◌, if◌then◌else◌, [], ◌∷◌, List, is_some,
}
use vela_protocol.Base.Int.{ℤ, pos, leb_ℤ}
use vela_protocol.Errors.{
  Result, ok, err, vela, anchor, VelaError, AnchorError, ◌>>=◌, ◌>>◌, require,
}
use vela_protocol.State.{AgentMandate, AgentMandateStatus, ServiceLimit, ProtocolConfig}
use vela_protocol.Runtime.{Runtime, AccountInfo, Loaded, Event, require_program}
use vela_protocol.Agent.Account.{is_legacy, into_current_agent, write_agent_mandate}
use vela_protocol.Agent.Handlers.Common.{
  LoadedToken, AgentOutcome, check_owned_token, check_agent_address, check_protocol_config,
  load_own_mandate,
}
use vela_protocol.Agent.Handlers.Create.{ServiceLimitInput, check_services}

-- `authority` has signed.
pub record AdjustAgentMandate : Type 0 where
  pub authority : ℕ
  pub agent : ℕ
  pub agent_mandate : AccountInfo
  pub mandate_wrapped_account : LoadedToken
  pub wrapped_usdc_mint : ℕ
  pub protocol_config : Loaded ProtocolConfig
  pub token_2022_program : ℕ

pub record Adjustment : Type 0 where
  pub daily_limit : Option ℕ
  pub lifetime_cap : Option ℕ
  pub min_pull_amount : Option ℕ
  pub min_pull_interval : Option ℤ
  pub services : Option (List ServiceLimitInput)

abbrev pub has_update : Adjustment → Bool
has_update a =
    is_some a.daily_limit
    || is_some a.lifetime_cap
    || is_some a.min_pull_amount
    || is_some a.min_pull_interval
    || is_some a.services

-- Active or paused.
unfoldable pub require_not_revoked : AgentMandateStatus → Result (Unit {0})
require_not_revoked AgentMandateStatus.revoked =
    err (vela VelaError.invalid_agent_mandate_status_transition)
require_not_revoked _ = ok tt

-- `iter().find(…)`: the counter and the window of the first entry of the service, or those of a new one.
unfoldable pub spent_of : List ServiceLimit → ℕ → ℤ → ℕ × ℤ
spent_of [] service now = (0, now)
spent_of (limit ∷ rest) service now =
    let later = spent_of rest service now in
    if limit.service == service then (limit.daily_spent, limit.last_reset) else later

-- The new entries, which keep what was spent.
unfoldable pub update_services :
    List ServiceLimit → List ServiceLimitInput → ℤ → Result (List ServiceLimit)
update_services current [] now = ok []
update_services current (input ∷ rest) now = do
  let (daily_spent, last_reset) = spent_of current input.service now
  require (leb daily_spent input.daily_limit) (vela VelaError.invalid_amount)
  updated ← update_services current rest now
  let limit : ServiceLimit = record {
    service = input.service;
    daily_limit = input.daily_limit;
    daily_spent = daily_spent;
    last_reset = last_reset;
  }
  ok (limit ∷ updated)

unfoldable pub adjust_daily_limit : AgentMandate → Option ℕ → Result AgentMandate
adjust_daily_limit m none = ok m
adjust_daily_limit m (some limit) = do
  require (leb m.daily_spent limit) (vela VelaError.invalid_amount)
  ok (record m { daily_limit = limit })

unfoldable pub adjust_lifetime_cap : AgentMandate → Option ℕ → Result AgentMandate
adjust_lifetime_cap m none = ok m
adjust_lifetime_cap m (some cap) = do
  require (leb m.total_spent cap) (vela VelaError.invalid_amount)
  ok (record m { lifetime_cap = cap })

abbrev pub adjust_min_amount : AgentMandate → Option ℕ → AgentMandate
adjust_min_amount m none = m
adjust_min_amount m (some amount) = record m { min_pull_amount = amount }

unfoldable pub adjust_min_interval : AgentMandate → Option ℤ → Result AgentMandate
adjust_min_interval m none = ok m
adjust_min_interval m (some interval) = do
  require (leb_ℤ (pos 0) interval) (vela VelaError.invalid_frequency)
  ok (record m { min_pull_interval = interval })

unfoldable pub adjust_services :
    AgentMandate → Option (List ServiceLimitInput) → ℤ → Result AgentMandate
adjust_services m none now = ok m
adjust_services m (some services) now = do
  check_services services
  updated ← update_services m.services services now
  ok (record m { services = updated })

-- The changes, in their order.
unfoldable pub apply_adjustment : AgentMandate → Adjustment → ℤ → Result AgentMandate
apply_adjustment m a now = do
  m1 ← adjust_daily_limit m a.daily_limit
  m2 ← adjust_lifetime_cap m1 a.lifetime_cap
  let m3 = adjust_min_amount m2 a.min_pull_amount
  m4 ← adjust_min_interval m3 a.min_pull_interval
  adjust_services m4 a.services now

module _ (rt : Runtime) where
  -- The constraints of the accounts.
  unfoldable pub check_adjust_accounts : AdjustAgentMandate → Result (Unit {0})
  check_adjust_accounts c = do
    check_agent_address rt c.agent_mandate.key c.authority c.agent
    check_owned_token c.mandate_wrapped_account c.wrapped_usdc_mint c.agent_mandate.key
        c.token_2022_program
    require (c.wrapped_usdc_mint == c.protocol_config.state.wrapped_usdc_mint)
        (anchor AnchorError.constraint_address)
    check_protocol_config rt c.protocol_config
    require_program c.token_2022_program rt.token_2022_id

  unfoldable pub adjust_agent_mandate : AdjustAgentMandate → Adjustment → ℤ → Result AgentOutcome
  adjust_agent_mandate c a now = do
    check_adjust_accounts c
    require (has_update a) (vela VelaError.no_update_provided)
    loaded ← load_own_mandate rt c.agent_mandate c.authority c.agent
    let m = into_current_agent loaded
    require_not_revoked m.status
    m' ← apply_adjustment m a now
    let event = Event.agent_mandate_adjusted (record {
      mandate = c.agent_mandate.key;
      authority = m'.authority;
      agent = m'.agent;
      daily_limit = m'.daily_limit;
      lifetime_cap = m'.lifetime_cap;
      min_pull_amount = m'.min_pull_amount;
      min_pull_interval = m'.min_pull_interval;
      daily_spent = m'.daily_spent;
      total_spent = m'.total_spent;
      remaining_balance = c.mandate_wrapped_account.state.amount;
    })
    written ← write_agent_mandate c.agent_mandate m' (is_legacy loaded)
    ok (record { mandate = written; invocations = []; events = event ∷ [] })
