-- ===== src/Hook/AgentPulls.antt =====
-- The hook and agent pulls agree: the approval that a pull grants for its transfer passes the hook.
use vela_protocol.Base.{ℕ, none, some, true, inl, inr, ◌≡◌, arith, Bool, Option-cases, [], ◌∷◌, ap}
use vela_protocol.Base.Int.{ℤ, pos, ◌≤ℤ◌, +ℤ_parts}
use vela_protocol.Base.Machine.{i64_checked_add}
use vela_protocol.Errors.{ok}
use vela_protocol.State.{ProtocolConfig}
use vela_protocol.Runtime.{Runtime, Seed, AccountInfo, AccountData, program_id}
use vela_protocol.Accounts.{close_program_account}
use vela_protocol.Agent.Account.{LoadedAgentMandate, decode_agent_mandate, load_agent_mandate}
use vela_protocol.Agent.Handlers.{
  AgentPull, PullOutcome, check_pull_accounts, grant_approval, agent_approval, agent_pull,
}
use vela_protocol.Agent.Effects.{agent_pull-PullRun}
use vela_protocol.Hook.Handler.{
  TransferHook, check_period, check_approval, read_approval, check_pull_approval, check_transfer,
  touches_vault, transfer_hook,
}
use vela_protocol.Hook.Gate.{is_other, check_authority-other}

-- An agent mandate is neither a stream nor a subscription.
load_agent_mandate-is_other :
    (rt : Runtime) (info : AccountInfo) (authority agent : ℕ) (l : LoadedAgentMandate)
    → load_agent_mandate rt info authority agent ≡ ok l
    → (info.owner ≡ program_id) × (is_other info.contents ≡ true)
unfolding load_agent_mandate decode_agent_mandate
load_agent_mandate-is_other rt info authority agent l h = (ground arith, ground arith)

-- The approval is at the address of the mandate, of the program, for the mandate and the amount.
record Grant (rt : Runtime) (c : AgentPull) (amount : ℕ) (now : ℤ) (granted : AccountInfo)
    : Type 0 where
  pub bump : ℕ
  pub valid_until : ℤ
  pub address :
      granted.key
      ≡ (rt.find_program_address
          (Seed.literal "approval" ∷ Seed.pubkey c.agent_mandate.key ∷ [])
          program_id).0
  pub owned : granted.owner ≡ program_id
  pub fresh : now ≤ℤ valid_until
  pub holds :
      granted.contents
      ≡ AccountData.pull_approval
          (some (agent_approval c.agent_mandate.key amount now valid_until bump))

grant_approval-Grant :
    (rt : Runtime) (c : AgentPull) (amount : ℕ) (now : ℤ) (granted : AccountInfo)
    → check_pull_accounts rt c ≡ ok tt
    → grant_approval rt c amount now ≡ ok granted
    → granted.owner ≡ program_id
    → Grant rt c amount now granted
unfolding check_pull_accounts grant_approval
grant_approval-Grant rt c amount now granted checked h owned =
    elim (Option-cases (i64_checked_add now (pos 60))) [
      | inl bad ↦ absurd (ground arith)
      | inr (t, e) ↦ record {
        bump =
            (rt.find_program_address
              (Seed.literal "approval" ∷ Seed.pubkey c.agent_mandate.key ∷ []) program_id).1;
        valid_until = t;
        address = ground arith;
        owned = owned;
        fresh = ground (arith, +ℤ_parts now (pos 60));
        holds = ground arith;
      }
    ]

check_pull_approval-accepts :
    (rt : Runtime) (c : AgentPull) (h : TransferHook) (amount : ℕ) (now : ℤ)
    → Grant rt c amount now h.pull_approval
    → h.owner.key ≡ c.agent_mandate.key
    → check_pull_approval rt h none amount now ≡ ok tt
unfolding check_pull_approval read_approval check_approval check_period
check_pull_approval-accepts rt c h amount now g same =
    ground (arith, g.address, g.owned, g.fresh, g.holds)

close-owned :
    (rt : Runtime) (a b : AccountInfo) (r : AccountInfo × AccountInfo)
    → close_program_account rt a b ≡ ok r
    → a.owner ≡ program_id
unfolding close_program_account
close-owned rt a b r h = ground arith

agent_pull-checked :
    (rt : Runtime) (c : AgentPull) (amount : ℕ) (now : ℤ) (o : PullOutcome)
    → agent_pull rt c amount now ≡ ok o
    → check_pull_accounts rt c ≡ ok tt
unfolding agent_pull
agent_pull-checked rt c amount now o h = ground arith

-- The hook accepts the transfer of an agent pull under the approval that the pull grants.
pub transfer_hook-agent_pull :
    (rt : Runtime) (c : AgentPull) (h : TransferHook) (config : ProtocolConfig) (vault : Bool)
    (amount : ℕ) (now : ℤ) (o : PullOutcome)
    → agent_pull rt c amount now ≡ ok o
    → h.owner ≡ c.agent_mandate
    → h.pull_approval ≡ o.granted
    → check_transfer rt h ≡ ok config
    → touches_vault rt h config ≡ ok vault
    → transfer_hook rt h amount now ≡ ok tt
unfolding transfer_hook
transfer_hook-agent_pull rt c h config vault amount now o pulled owner granted checked touches =
    let r = agent_pull-PullRun rt c amount now o pulled in
    let other =
      load_agent_mandate-is_other rt c.agent_mandate c.authority c.agent r.loaded r.loads in
    let owned = close-owned rt o.granted c.payer (o.closed, o.refunded) r.closes in
    let grant =
      grant_approval-Grant rt c amount now o.granted (agent_pull-checked rt c amount now o pulled)
        r.grants owned in
    let grant_here : Grant rt c amount now h.pull_approval = rw granted grant in
    let accepts =
      check_pull_approval-accepts rt c h amount now grant_here (ap (λ a. a.key) owner) in
    let gate = check_authority-other rt h h.owner.contents amount now (rw owner other.1) in
    ground (arith, gate, accepts)
