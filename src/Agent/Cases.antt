-- ===== src/Agent/Cases.antt =====
-- The two kinds of step: pulls by the agent, and changes by the authority.
use vela_protocol.Base.{ℕ, some, inl, inr, ◌≡◌, ◌≢◌, ◌⊎◌, arith}
use vela_protocol.Base.Int.{ℤ}
use vela_protocol.Errors.{ok}
use vela_protocol.State.{AgentMandate, AgentMandateStatus}
use vela_protocol.Agent.Limits.{find_service_index}
use vela_protocol.Agent.Handlers.{
  NextSpent, reset_windows, check_limits, record_pull, require_pullable, require_not_revoked,
  require_active_agent, require_paused_agent,
}
use vela_protocol.Agent.Services.{find_service_index-finds}
use vela_protocol.Agent.Charge.{
  DayCharged, Charged, WindowsReset, check_limits-Charged, reset_windows-WindowsReset,
}
use vela_protocol.Agent.Adjusting.{WithinLimits, apply_adjustment-Keeps}
use vela_protocol.Agent.Step.{AgentStep, pull, adjust, pause_agent, resume_agent, revoke}

-- A pull: its windows and its charge.
pub record Pulled (m : AgentMandate) (paid : ℕ) (now : ℤ) (m' : AgentMandate) : Type 0 where
  pub index : ℕ
  pub fresh : AgentMandate
  pub windows : WindowsReset m index now fresh
  pub charge : Charged fresh index paid now m'

pull-Pulled :
    (m : AgentMandate) (service index : ℕ) (paid : ℕ) (now : ℤ) (next : NextSpent)
    (m' : AgentMandate)
    → find_service_index m.services service ≡ some index
    → check_limits (reset_windows m index now) index paid now ≡ ok next
    → record_pull (reset_windows m index now) index next now ≡ ok m'
    → Pulled m paid now m'
pull-Pulled m service index paid now next m' f h r =
    let found = find_service_index-finds m.services service index f in
    record {
      index = index;
      fresh = reset_windows m index now;
      windows = reset_windows-WindowsReset m index now found.0 found.1;
      charge = check_limits-Charged (reset_windows m index now) index paid now next m' h r;
    }

-- A step of the authority: it pays nothing, and keeps the counters and the limits.
pub record Controlled (signer : ℕ) (m : AgentMandate) (paid : ℕ) (m' : AgentMandate) : Type 0 where
  pub owner : signer ≡ m.authority
  pub nothing : paid ≡ 0
  pub alive : m.status ≢ AgentMandateStatus.revoked
  pub authority : m'.authority ≡ m.authority
  pub agent : m'.agent ≡ m.agent
  pub daily_spent : m'.daily_spent ≡ m.daily_spent
  pub daily_last_reset : m'.daily_last_reset ≡ m.daily_last_reset
  pub total_spent : m'.total_spent ≡ m.total_spent
  pub last_pull_at : m'.last_pull_at ≡ m.last_pull_at
  pub limits : WithinLimits m → WithinLimits m'

status-Controlled :
    (signer : ℕ) (m : AgentMandate) (paid : ℕ) (m' : AgentMandate) (status : AgentMandateStatus)
    → signer ≡ m.authority
    → m.status ≢ AgentMandateStatus.revoked
    → m' ≡ record m { status = status }
    → paid ≡ 0
    → Controlled signer m paid m'
status-Controlled signer m paid m' status s alive e z = record {
  owner = s;
  nothing = z;
  alive = alive;
  authority = ground arith;
  agent = ground arith;
  daily_spent = ground arith;
  daily_last_reset = ground arith;
  total_spent = ground arith;
  last_pull_at = ground arith;
  limits = λ v. rw e (record {
    daily = v.daily;
    total = v.total;
    services = v.services;
    count = v.count;
    distinct = v.distinct;
    versioned = v.versioned;
  });
}

-- Every step is a pull by the agent from an active mandate, or is made by the authority, pays nothing
-- and keeps the counters.
pub AgentStep-cases :
    {now : ℤ} {signer : ℕ} {m : AgentMandate} {paid : ℕ} {m' : AgentMandate}
    → AgentStep now signer m paid m'
    → ((signer ≡ m.agent) × (m.status ≡ AgentMandateStatus.active) × Pulled m paid now m')
      ⊎ Controlled signer m paid m'
unfolding require_pullable require_not_revoked require_active_agent require_paused_agent
AgentStep-cases {now} {signer} {m} {paid} {m'} (pull service i next s p f h r) =
    inl (s, ground arith, pull-Pulled m service i paid now next m' f h r)
AgentStep-cases {now} {signer} {m} {paid} {m'} (adjust a s p h z) =
    let k = apply_adjustment-Keeps m a now m' h in
    inr (record {
      owner = s;
      nothing = z;
      alive = λ e. ground arith;
      authority = k.0.authority;
      agent = k.0.agent;
      daily_spent = k.0.daily_spent;
      daily_last_reset = k.0.daily_last_reset;
      total_spent = k.0.total_spent;
      last_pull_at = k.0.last_pull_at;
      limits = k.1;
    })
AgentStep-cases {now} {signer} {m} {paid} {m'} (pause_agent s p e z) =
    inr (status-Controlled signer m paid m' AgentMandateStatus.paused s (λ r. ground arith) e z)
AgentStep-cases {now} {signer} {m} {paid} {m'} (resume_agent s p e z) =
    inr (status-Controlled signer m paid m' AgentMandateStatus.active s (λ r. ground arith) e z)
AgentStep-cases {now} {signer} {m} {paid} {m'} (revoke s p e z) =
    inr (status-Controlled signer m paid m' AgentMandateStatus.revoked s (λ r. ground arith) e z)

-- The reset and the charge of a pull, on the daily counter.
pub Pulled-DayCharged :
    (m : AgentMandate) (paid : ℕ) (now : ℤ) (m' : AgentMandate)
    → Pulled m paid now m'
    → DayCharged now m paid m'
Pulled-DayCharged m paid now m' p = elim p.windows.daily [
  | inl (over, e) ↦
      inl (over, ground (arith, e, p.charge.recorded), ground (arith, e, p.charge.recorded))
  | inr e ↦ inr (ground (arith, e, p.charge.recorded), ground (arith, e, p.charge.recorded))
]

-- What the reset before a pull keeps.
pub WindowsReset-keeps :
    (m : AgentMandate) (index : ℕ) (now : ℤ) (f : AgentMandate)
    → WindowsReset m index now f
    → (f.total_spent ≡ m.total_spent)
      × (f.lifetime_cap ≡ m.lifetime_cap)
      × (f.daily_limit ≡ m.daily_limit)
      × (f.min_pull_amount ≡ m.min_pull_amount)
      × (f.min_pull_interval ≡ m.min_pull_interval)
      × (f.last_pull_at ≡ m.last_pull_at)
      × (f.version ≡ m.version)
      × (f.status ≡ m.status)
      × (f.authority ≡ m.authority)
      × (f.agent ≡ m.agent)
WindowsReset-keeps m index now f w = elim w.daily [
  | inl (over, e) ↦ ground (arith, e)
  | inr e ↦ ground (arith, e)
]
