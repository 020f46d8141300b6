-- ===== src/Agent/Step.antt =====
-- What the handlers of instructions/agent_mandates/ may do to a mandate that exists, as a relation on
-- its state: the specification that Agent/Effects.antt proves of each handler.
use vela_protocol.Base.{ℕ, some, ◌≡◌}
use vela_protocol.Base.Int.{ℤ}
use vela_protocol.Errors.{ok}
use vela_protocol.State.{AgentMandate, AgentMandateStatus}
use vela_protocol.Runtime.{Runtime, AccountInfo}
use vela_protocol.Agent.Limits.{find_service_index}
use vela_protocol.Agent.Account.{
  LoadedAgentMandate, load_agent_mandate, is_legacy, into_current_agent, write_agent_mandate,
}
use vela_protocol.Agent.Handlers.{
  NextSpent, Adjustment, reset_windows, check_limits, record_pull, require_pullable,
  require_not_revoked, require_active_agent, require_paused_agent, apply_adjustment,
}

-- At time `now`, with the signature of `signer`, `m` becomes `m'` and `paid` goes to a service.
pub data AgentStep (now : ℤ) (signer : ℕ) (m : AgentMandate) (paid : ℕ) (m' : AgentMandate)
    : Type 0 where
  pull :
      (service index : ℕ) (next : NextSpent)
      → signer ≡ m.agent
      → require_pullable m.status ≡ ok tt
      → find_service_index m.services service ≡ some index
      → check_limits (reset_windows m index now) index paid now ≡ ok next
      → record_pull (reset_windows m index now) index next now ≡ ok m'
      → AgentStep now signer m paid m'
  adjust :
      (a : Adjustment)
      → signer ≡ m.authority
      → require_not_revoked m.status ≡ ok tt
      → apply_adjustment m a now ≡ ok m'
      → paid ≡ 0
      → AgentStep now signer m paid m'
  pause_agent :
      signer ≡ m.authority
      → require_active_agent m.status ≡ ok tt
      → m' ≡ record m { status = AgentMandateStatus.paused }
      → paid ≡ 0
      → AgentStep now signer m paid m'
  resume_agent :
      signer ≡ m.authority
      → require_paused_agent m.status ≡ ok tt
      → m' ≡ record m { status = AgentMandateStatus.active }
      → paid ≡ 0
      → AgentStep now signer m paid m'
  revoke :
      signer ≡ m.authority
      → require_not_revoked m.status ≡ ok tt
      → m' ≡ record m { status = AgentMandateStatus.revoked }
      → paid ≡ 0
      → AgentStep now signer m paid m'

-- A handler that read the account `info` of the mandate of `authority` and `agent` made a step, and wrote the new
-- state in the layout that it read.
pub record AgentSteps (rt : Runtime) (info : AccountInfo) (authority agent : ℕ) (now : ℤ)
    (signer : ℕ) (written : AccountInfo) (paid : ℕ) : Type 0 where
  pub loaded : LoadedAgentMandate
  pub after : AgentMandate
  pub loads : load_agent_mandate rt info authority agent ≡ ok loaded
  pub step : AgentStep now signer (into_current_agent loaded) paid after
  pub writes : write_agent_mandate info after (is_legacy loaded) ≡ ok written
