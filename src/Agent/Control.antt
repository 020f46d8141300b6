-- ===== src/Agent/Control.antt =====
-- The handlers of the mandate's authority make steps of Agent/Step.antt.
use vela_protocol.Base.{inl, inr, ◌≡◌, refl, arith, sym}
use vela_protocol.Base.Int.{ℤ}
use vela_protocol.Errors.{ok, Result-cases}
use vela_protocol.State.{AgentMandateStatus}
use vela_protocol.Runtime.{Runtime}
use vela_protocol.Agent.Account.{into_current_agent}
use vela_protocol.Agent.Handlers.{
  AdjustAgentMandate, Adjustment, PauseAgentMandate, ResumeAgentMandate, RevokeAgentMandate,
  AgentOutcome, load_own_mandate, apply_adjustment, adjust_agent_mandate, pause_agent_mandate,
  resume_agent_mandate, withdraw, revoke_agent_mandate,
}
use vela_protocol.Agent.Step.{AgentSteps, adjust, pause_agent, resume_agent, revoke}
use vela_protocol.Agent.Effects.{load_own_mandate-loads, load_agent_mandate-parties}

-- An adjustment that succeeds is an adjust step by the authority, and writes its result in the
-- layout it read.
pub adjust_agent_mandate-AgentSteps :
    (rt : Runtime) (c : AdjustAgentMandate) (a : Adjustment) (now : ℤ) (o : AgentOutcome)
    → adjust_agent_mandate rt c a now ≡ ok o
    → AgentSteps rt c.agent_mandate c.authority c.agent now c.authority o.mandate 0
unfolding adjust_agent_mandate
adjust_agent_mandate-AgentSteps rt c a now o h =
    elim (Result-cases (load_own_mandate rt c.agent_mandate c.authority c.agent)) [
      | inr bad ↦ absurd (ground arith)
      | inl (l, e) ↦
          let loads = load_own_mandate-loads rt c.agent_mandate c.authority c.agent l e in
          let parties = load_agent_mandate-parties rt c.agent_mandate c.authority c.agent l loads in
          elim (Result-cases (apply_adjustment (into_current_agent l) a now)) [
            | inr bad ↦ absurd (ground arith)
            | inl (after, ea) ↦ record {
              loaded = l;
              after = after;
              loads = loads;
              step = adjust a (sym parties.0) (ground arith) ea refl;
              writes = ground arith;
            }
          ]
    ]

-- A pause that succeeds is a pause step by the authority.
pub pause_agent_mandate-AgentSteps :
    (rt : Runtime) (c : PauseAgentMandate) (now : ℤ) (o : AgentOutcome)
    → pause_agent_mandate rt c ≡ ok o
    → AgentSteps rt c.agent_mandate c.authority c.agent now c.authority o.mandate 0
unfolding pause_agent_mandate
pause_agent_mandate-AgentSteps rt c now o h =
    elim (Result-cases (load_own_mandate rt c.agent_mandate c.authority c.agent)) [
      | inr bad ↦ absurd (ground arith)
      | inl (l, e) ↦
          let loads = load_own_mandate-loads rt c.agent_mandate c.authority c.agent l e in
          let parties = load_agent_mandate-parties rt c.agent_mandate c.authority c.agent l loads in
          record {
            loaded = l;
            after = record (into_current_agent l) { status = AgentMandateStatus.paused };
            loads = loads;
            step = pause_agent (sym parties.0) (ground arith) refl refl;
            writes = ground arith;
          }
    ]

-- A resumption that succeeds is a resume step by the authority.
pub resume_agent_mandate-AgentSteps :
    (rt : Runtime) (c : ResumeAgentMandate) (now : ℤ) (o : AgentOutcome)
    → resume_agent_mandate rt c ≡ ok o
    → AgentSteps rt c.agent_mandate c.authority c.agent now c.authority o.mandate 0
unfolding resume_agent_mandate
resume_agent_mandate-AgentSteps rt c now o h =
    elim (Result-cases (load_own_mandate rt c.agent_mandate c.authority c.agent)) [
      | inr bad ↦ absurd (ground arith)
      | inl (l, e) ↦
          let loads = load_own_mandate-loads rt c.agent_mandate c.authority c.agent l e in
          let parties = load_agent_mandate-parties rt c.agent_mandate c.authority c.agent l loads in
          record {
            loaded = l;
            after = record (into_current_agent l) { status = AgentMandateStatus.active };
            loads = loads;
            step = resume_agent (sym parties.0) (ground arith) refl refl;
            writes = ground arith;
          }
    ]

-- A revocation that succeeds is a revoke step by the authority.
pub revoke_agent_mandate-AgentSteps :
    (rt : Runtime) (c : RevokeAgentMandate) (now : ℤ) (o : AgentOutcome)
    → revoke_agent_mandate rt c ≡ ok o
    → AgentSteps rt c.agent_mandate c.authority c.agent now c.authority o.mandate 0
unfolding revoke_agent_mandate
revoke_agent_mandate-AgentSteps rt c now o h =
    elim (Result-cases (load_own_mandate rt c.agent_mandate c.authority c.agent)) [
      | inr bad ↦ absurd (ground arith)
      | inl (l, e) ↦
          let loads = load_own_mandate-loads rt c.agent_mandate c.authority c.agent l e in
          let parties = load_agent_mandate-parties rt c.agent_mandate c.authority c.agent l loads in
          elim (Result-cases (withdraw rt c (into_current_agent l))) [
            | inr bad ↦ absurd (ground arith)
            | inl (calls, ew) ↦ record {
              loaded = l;
              after = record (into_current_agent l) { status = AgentMandateStatus.revoked };
              loads = loads;
              step = revoke (sym parties.0) (ground arith) refl refl;
              writes = ground arith;
            }
          ]
    ]
