-- ===== src/Agent/Handlers/Status.antt =====
-- agent_mandates/pause_agent_mandate.rs and agent_mandates/resume_agent_mandate.rs
use vela_protocol.Base.{ℕ, [], ◌∷◌}
use vela_protocol.Errors.{Result, ok, err, vela, VelaError, ◌>>=◌, ◌>>◌}
use vela_protocol.State.{AgentMandateStatus}
use vela_protocol.Runtime.{Runtime, AccountInfo, Event}
use vela_protocol.Agent.Account.{is_legacy, into_current_agent, write_agent_mandate}
use vela_protocol.Agent.Handlers.Common.{AgentOutcome, check_agent_address, load_own_mandate}

-- The accounts of `PauseAgentMandate` and of `ResumeAgentMandate`. `authority` has signed.
pub record PauseAgentMandate : Type 0 where
  pub authority : ℕ
  pub agent : ℕ
  pub agent_mandate : AccountInfo

abbrev pub ResumeAgentMandate : Type 0
ResumeAgentMandate = PauseAgentMandate

unfoldable pub require_active_agent : AgentMandateStatus → Result (Unit {0})
require_active_agent AgentMandateStatus.active = ok tt
require_active_agent _ = err (vela VelaError.invalid_agent_mandate_status_transition)

unfoldable pub require_paused_agent : AgentMandateStatus → Result (Unit {0})
require_paused_agent AgentMandateStatus.paused = ok tt
require_paused_agent _ = err (vela VelaError.invalid_agent_mandate_status_transition)

module _ (rt : Runtime) where
  unfoldable pub pause_agent_mandate : PauseAgentMandate → Result AgentOutcome
  pause_agent_mandate c = do
    check_agent_address rt c.agent_mandate.key c.authority c.agent
    loaded ← load_own_mandate rt c.agent_mandate c.authority c.agent
    let m = into_current_agent loaded
    require_active_agent m.status
    let event = Event.agent_mandate_paused (record {
      mandate = c.agent_mandate.key;
      authority = m.authority;
      agent = m.agent;
      daily_spent = m.daily_spent;
      total_spent = m.total_spent;
    })
    written ←
        write_agent_mandate c.agent_mandate (record m { status = AgentMandateStatus.paused })
          (is_legacy loaded)
    ok (record { mandate = written; invocations = []; events = event ∷ [] })

  unfoldable pub resume_agent_mandate : ResumeAgentMandate → Result AgentOutcome
  resume_agent_mandate c = do
    check_agent_address rt c.agent_mandate.key c.authority c.agent
    loaded ← load_own_mandate rt c.agent_mandate c.authority c.agent
    let m = into_current_agent loaded
    require_paused_agent m.status
    let event = Event.agent_mandate_resumed (record {
      mandate = c.agent_mandate.key;
      authority = m.authority;
      agent = m.agent;
      daily_spent = m.daily_spent;
      total_spent = m.total_spent;
    })
    written ←
        write_agent_mandate c.agent_mandate (record m { status = AgentMandateStatus.active })
          (is_legacy loaded)
    ok (record { mandate = written; invocations = []; events = event ∷ [] })
