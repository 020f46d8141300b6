-- ===== src/Agent/Authority.antt =====
-- When a pull is allowed, and what ends a mandate.
use vela_protocol.Base.{
  ℕ, ◌+◌, ◌≤◌, ◌<◌, some, inl, inr, ◌≡◌, ◌≢◌, ◌⊎◌, arith, get_elem?, Bool-cases, ltb,
}
use vela_protocol.Base.Int.{ℤ, pos, ◌≤ℤ◌, ◌+ℤ◌, ◌-ℤ◌, -ℤ_parts, +ℤ_parts, pos_part-or-neg_part}
use vela_protocol.Base.Machine.{u64_mod}
use vela_protocol.Errors.{ok}
use vela_protocol.State.{AgentMandate, AgentMandateStatus, ServiceLimit}
use vela_protocol.Runtime.{Runtime, AccountInfo, AccountData, program_id}
use vela_protocol.Accounts.{close_program_account}
use vela_protocol.Agent.Account.{LoadedAgentMandate, into_current_agent, load_agent_mandate}
use vela_protocol.Agent.Handlers.{
  AgentPull, PullOutcome, check_limits, check_cooldown, reset_windows, require_pullable, agent_pull,
}
use vela_protocol.Agent.Services.{find_service_index-finds}
use vela_protocol.Agent.Charge.{check_limits-Charged, reset_windows-WindowsReset}
use vela_protocol.Agent.Cases.{AgentStep-cases, WindowsReset-keeps}
use vela_protocol.Agent.Effects.{agent_pull-PullRun, load_agent_mandate-parties}
use vela_protocol.Agent.Step.{AgentStep}

-- No step is made from a revoked mandate.
pub AgentStep-revoked :
    {now : ℤ} {signer : ℕ} {m : AgentMandate} {paid : ℕ} {m' : AgentMandate}
    → AgentStep now signer m paid m'
    → m.status ≢ AgentMandateStatus.revoked
AgentStep-revoked {m = m} step = elim (AgentStep-cases step) [
  | inl (s, active, p) ↦ λ e. ground arith
  | inr k ↦ k.alive
]

-- The cooldown: no pull came before, or there is no minimal interval, or it has passed since the last pull.
abbrev pub Apart : AgentMandate → ℤ → Type 0
Apart m now =
    (m.last_pull_at ≤ℤ pos 0)
    ⊎ (m.min_pull_interval ≤ℤ pos 0)
    ⊎ (m.last_pull_at +ℤ m.min_pull_interval ≤ℤ now)

check_cooldown-Apart : (m : AgentMandate) (now : ℤ) → check_cooldown m now ≡ ok tt → Apart m now
unfolding check_cooldown
check_cooldown-Apart m now h = ground (
  arith,
  -ℤ_parts now m.last_pull_at,
  +ℤ_parts m.last_pull_at m.min_pull_interval,
  pos_part-or-neg_part (now -ℤ m.last_pull_at),
)

-- A pull of `amount` is allowed: the mandate is active, the service is listed, the pull is not too
-- small, not too soon, and covered.
pub record PullAllowed (c : AgentPull) (m : AgentMandate) (amount : ℕ) (now : ℤ) : Type 0 where
  pub index : ℕ
  pub entry : ServiceLimit
  pub listed : get_elem? m.services index ≡ some entry
  pub service : entry.service ≡ c.service_wrapped_account.state.owner
  pub active : m.status ≡ AgentMandateStatus.active
  pub agent : m.agent ≡ c.agent
  pub enough : m.min_pull_amount ≤ amount
  pub apart : Apart m now
  pub covered : amount ≤ c.mandate_wrapped_account.state.amount

require_pullable-active :
    (s : AgentMandateStatus) → require_pullable s ≡ ok tt → s ≡ AgentMandateStatus.active
unfolding require_pullable
require_pullable-active s h = ground arith

-- A pull that succeeds is from an active mandate, by its agent, to a listed service, not below the
-- minimum, covered by the balance, and after the cooldown.
pub agent_pull-PullAllowed :
    (rt : Runtime) (c : AgentPull) (amount : ℕ) (now : ℤ) (o : PullOutcome)
    → agent_pull rt c amount now ≡ ok o
    → (l : LoadedAgentMandate) × (load_agent_mandate rt c.agent_mandate c.authority c.agent ≡ ok l)
      × PullAllowed c (into_current_agent l) amount now
agent_pull-PullAllowed rt c amount now o h =
    let r = agent_pull-PullRun rt c amount now o h in
    let m = into_current_agent r.loaded in
    let service = c.service_wrapped_account.state.owner in
    let found = find_service_index-finds m.services service r.index r.finds in
    let fresh = reset_windows m r.index now in
    let w = reset_windows-WindowsReset m r.index now found.0 found.1 in
    let kept = WindowsReset-keeps m r.index now fresh w in
    let charge = check_limits-Charged fresh r.index amount now r.next r.after r.limits r.records in
    let apart : Apart fresh now = check_cooldown-Apart fresh now charge.cooled in
    (
      r.loaded,
      r.loads,
      record {
        index = r.index;
        entry = found.0;
        listed = found.1;
        service = found.2;
        active = require_pullable-active m.status r.pullable;
        agent =
            (load_agent_mandate-parties rt c.agent_mandate c.authority c.agent r.loaded r.loads).1;
        enough = ground (arith, charge.enough, kept);
        apart = ground (arith, apart, kept);
        covered = ground (arith, r.covered);
      },
    )

-- An amount within the limits of the service, the day and the lifetime, not below the minimum and
-- after the cooldown, passes the limits.
pub check_limits-accepts :
    (m : AgentMandate) (index amount : ℕ) (now : ℤ) (entry : ServiceLimit)
    → get_elem? m.services index ≡ some entry
    → entry.daily_spent + amount ≤ entry.daily_limit
    → m.daily_spent + amount ≤ m.daily_limit
    → m.total_spent + amount ≤ m.lifetime_cap
    → entry.daily_limit < u64_mod
    → m.daily_limit < u64_mod
    → m.lifetime_cap < u64_mod
    → m.min_pull_amount ≤ amount
    → check_cooldown m now ≡ ok tt
    → check_limits m index amount now
      ≡ ok (record {
        service = entry.daily_spent + amount;
        daily = m.daily_spent + amount;
        total = m.total_spent + amount;
      })
unfolding check_limits
check_limits-accepts m index amount now entry at a b c d e f g k = ground arith

close_program_account-closes :
    (rt : Runtime) (account payer closed refunded : AccountInfo)
    → close_program_account rt account payer ≡ ok (closed, refunded)
    → (account.owner ≡ program_id)
      × (closed.contents ≡ AccountData.empty)
      × (closed.owner ≡ rt.system_program_id)
      × (closed.lamports ≡ 0)
      × (refunded.lamports ≡ payer.lamports + account.lamports)
unfolding close_program_account
close_program_account-closes rt account payer closed refunded h =
    elim (Bool-cases (ltb 0 account.lamports)) [
      | inl some_left ↦ ground arith
      | inr none_left ↦ ground arith
    ]

-- A pull that succeeds closes its approval: the account is empty, of the system program, and its
-- lamports are the payer's.
pub agent_pull-closes :
    (rt : Runtime) (c : AgentPull) (amount : ℕ) (now : ℤ) (o : PullOutcome)
    → agent_pull rt c amount now ≡ ok o
    → (o.granted.owner ≡ program_id)
      × (o.closed.contents ≡ AccountData.empty)
      × (o.closed.owner ≡ rt.system_program_id)
      × (o.closed.lamports ≡ 0)
      × (o.refunded.lamports ≡ c.payer.lamports + o.granted.lamports)
agent_pull-closes rt c amount now o h =
    close_program_account-closes rt o.granted c.payer o.closed o.refunded
      (agent_pull-PullRun rt c amount now o h).closes
