-- ===== src/Agent/Invariant.antt =====
-- A mandate stays within its limits: the creation establishes it, every step keeps it.
use vela_protocol.Base.{ℕ, ◌+◌, ◌≤◌, inl, inr, ◌≡◌, refl, arith, length}
use vela_protocol.Base.Int.{ℤ}
use vela_protocol.Errors.{ok}
use vela_protocol.State.{AgentMandate, AgentMandateStatus, ServiceLimit}
use vela_protocol.Runtime.{Runtime, AccountData, Layout, program_id}
use vela_protocol.Agent.Account.{
  agent_seeds, agent_mandate_size, agent_data, initialize_agent_mandate,
}
use vela_protocol.Agent.Handlers.{
  CreateAgentMandate, AgentTerms, AgentOutcome, check_agent_terms, check_duplicates,
  new_agent_mandate, create_agent_mandate,
}
use vela_protocol.Agent.Services.{
  All-set, length-set, map-set, WithinLimit, check_duplicates-Distinct, new_service-names,
}
use vela_protocol.Agent.Adjusting.{WithinLimits}
use vela_protocol.Agent.Cases.{Pulled, AgentStep-cases, WindowsReset-keeps}
use vela_protocol.Agent.Step.{AgentStep}

Pulled-WithinLimits :
    (m : AgentMandate) (paid : ℕ) (now : ℤ) (m' : AgentMandate)
    → Pulled m paid now m'
    → WithinLimits m
    → WithinLimits m'
Pulled-WithinLimits m paid now m' p v =
    let c = p.charge in
    let xs = p.fresh.services in
    let entry : ServiceLimit = record c.entry { daily_spent = c.entry.daily_spent + paid } in
    let kept = WindowsReset-keeps m p.index now p.fresh p.windows in
    rw c.recorded (record {
      daily = c.daily_within;
      total = c.total_within;
      services =
          All-set WithinLimit xs p.index entry (p.windows.services v.services) c.service_within;
      count = rw (length-set xs p.index entry) (rw p.windows.count v.count);
      distinct =
          rw (map-set (λ x. x.service) xs p.index c.entry entry c.at refl)
            (rw p.windows.names v.distinct);
      versioned = ground arith;
    })

-- Every step keeps a mandate within the daily limit, the lifetime cap and the limits of at most
-- eight different services.
pub AgentStep-WithinLimits :
    {now : ℤ} {signer : ℕ} {m : AgentMandate} {paid : ℕ} {m' : AgentMandate}
    → AgentStep now signer m paid m'
    → WithinLimits m
    → WithinLimits m'
AgentStep-WithinLimits {now} {signer} {m} {paid} {m'} step v = elim (AgentStep-cases step) [
  | inl (s, active, p) ↦ Pulled-WithinLimits m paid now m' p v
  | inr k ↦ k.limits v
]

check_agent_terms-allows :
    (t : AgentTerms)
    → check_agent_terms t ≡ ok tt
    → (length t.services ≤ 8) × (check_duplicates t.services ≡ ok tt)
unfolding check_agent_terms
check_agent_terms-allows t h = ground arith

new_agent_mandate-WithinLimits :
    (authority agent : ℕ) (t : AgentTerms) (now : ℤ) (bump : ℕ)
    → check_agent_terms t ≡ ok tt
    → WithinLimits (new_agent_mandate authority agent t now bump)
new_agent_mandate-WithinLimits authority agent t now bump h =
    let allowed = check_agent_terms-allows t h in
    let names = new_service-names now t.services in
    record {
      daily = ground arith;
      total = ground arith;
      services = names.2;
      count = rw names.1 allowed.0;
      distinct = rw names.0 (check_duplicates-Distinct t.services allowed.1);
      versioned = refl;
    }

-- A creation that succeeds writes an active mandate that is within its limits and has spent
-- nothing.
pub create_agent_mandate-WithinLimits :
    (rt : Runtime) (c : CreateAgentMandate) (t : AgentTerms) (funded : ℕ) (now : ℤ)
    (o : AgentOutcome)
    → create_agent_mandate rt c t funded now ≡ ok o
    → (m : AgentMandate) × (o.mandate ≡ record c.agent_mandate {
      owner = program_id;
      contents = AccountData.agent_mandate (Layout.current m) agent_mandate_size;
    })
      × WithinLimits m
      × (m.total_spent ≡ 0)
      × (m.status ≡ AgentMandateStatus.active)
unfolding create_agent_mandate initialize_agent_mandate agent_data
create_agent_mandate-WithinLimits rt c t funded now o h =
    let bump = (rt.find_program_address (agent_seeds c.authority c.agent) program_id).1 in
    (
      new_agent_mandate c.authority c.agent t now bump,
      ground arith,
      new_agent_mandate-WithinLimits c.authority c.agent t now bump (ground arith),
      refl,
      refl,
    )
