-- ===== src/Agent/Effects.antt =====
-- Every handler of instructions/agent_mandates/ that writes a mandate makes a step of Agent/Step.antt.
use vela_protocol.Base.{
  ℕ, some, true, inl, inr, ◌≡◌, arith, List, leb, sym, ap, ◌∙◌, [], ◌∷◌, ◌++◌, Option-cases,
}
use vela_protocol.Base.Int.{ℤ}
use vela_protocol.Errors.{ok, Result-cases}
use vela_protocol.State.{AgentMandate}
use vela_protocol.Runtime.{
  Runtime, Seed, AccountInfo, AccountData, Invocation, moved, usdc_decimals,
}
use vela_protocol.Accounts.{
  TransferCheckedWithHookAccounts, invoke_transfer_checked_with_hook, close_program_account,
}
use vela_protocol.Agent.Limits.{find_service_index}
use vela_protocol.Agent.Account.{
  LoadedAgentMandate, decode_agent_mandate, load_agent_mandate, into_current_agent, is_legacy,
  write_agent_mandate, agent_seeds,
}
use vela_protocol.Agent.Handlers.{
  AgentPull, PullOutcome, NextSpent, require_pullable, load_own_mandate, reset_windows,
  check_limits, record_pull, grant_approval, pull_transfer_accounts, agent_pull,
}
use vela_protocol.Agent.Step.{AgentSteps, pull}

-- A mandate that loads is of the authority and the agent that were asked for.
decode_agent_mandate-parties :
    (d : AccountData) (authority agent : ℕ) (l : LoadedAgentMandate)
    → decode_agent_mandate d authority agent ≡ ok l
    → ((into_current_agent l).authority ≡ authority) × ((into_current_agent l).agent ≡ agent)
unfolding decode_agent_mandate into_current_agent
decode_agent_mandate-parties d authority agent l h = ground arith

pub load_agent_mandate-parties :
    (rt : Runtime) (info : AccountInfo) (authority agent : ℕ) (l : LoadedAgentMandate)
    → load_agent_mandate rt info authority agent ≡ ok l
    → ((into_current_agent l).authority ≡ authority) × ((into_current_agent l).agent ≡ agent)
unfolding load_agent_mandate
load_agent_mandate-parties rt info authority agent l h =
    decode_agent_mandate-parties info.contents authority agent l (ground arith)

pub load_own_mandate-loads :
    (rt : Runtime) (info : AccountInfo) (authority agent : ℕ) (l : LoadedAgentMandate)
    → load_own_mandate rt info authority agent ≡ ok l
    → load_agent_mandate rt info authority agent ≡ ok l
unfolding load_own_mandate
load_own_mandate-loads rt info authority agent l h = ground arith

invoke-moved :
    (rt : Runtime) (a : TransferCheckedWithHookAccounts) (amount decimals : ℕ) (seeds : List Seed)
    (call : Invocation)
    → invoke_transfer_checked_with_hook rt a amount decimals seeds ≡ ok call
    → moved a.source a.destination a.authority (call ∷ []) ≡ some amount
unfolding invoke_transfer_checked_with_hook
invoke-moved rt a amount decimals seeds call h = ground arith

-- What a pull that succeeds computed on its way.
pub record PullRun (rt : Runtime) (c : AgentPull) (amount : ℕ) (now : ℤ) (o : PullOutcome)
    : Type 0 where
  pub loaded : LoadedAgentMandate
  pub index : ℕ
  pub next : NextSpent
  pub after : AgentMandate
  pub call : Invocation
  pub loads : load_agent_mandate rt c.agent_mandate c.authority c.agent ≡ ok loaded
  pub pullable : require_pullable (into_current_agent loaded).status ≡ ok tt
  pub finds :
      find_service_index (into_current_agent loaded).services c.service_wrapped_account.state.owner
      ≡ some index
  pub limits :
      check_limits (reset_windows (into_current_agent loaded) index now) index amount now ≡ ok next
  pub covered : leb amount c.mandate_wrapped_account.state.amount ≡ true
  pub grants : grant_approval rt c amount now ≡ ok o.granted
  pub calls :
      invoke_transfer_checked_with_hook rt
        (pull_transfer_accounts c)
        amount
        usdc_decimals
        (agent_seeds c.authority c.agent ++ Seed.bump (into_current_agent loaded).bump ∷ [])
      ≡ ok call
  pub records :
      record_pull (reset_windows (into_current_agent loaded) index now) index next now ≡ ok after
  pub closes : close_program_account rt o.granted c.payer ≡ ok (o.closed, o.refunded)
  pub writes : write_agent_mandate c.agent_mandate after (is_legacy loaded) ≡ ok o.left.mandate
  pub made : o.left.invocations ≡ call ∷ []

module _ (rt : Runtime) (c : AgentPull) (amount : ℕ) (now : ℤ) (o : PullOutcome) where
  agent_pull-rest :
      (l : LoadedAgentMandate) (i : ℕ) (next : NextSpent)
      → load_agent_mandate rt c.agent_mandate c.authority c.agent ≡ ok l
      → find_service_index (into_current_agent l).services c.service_wrapped_account.state.owner
        ≡ some i
      → check_limits (reset_windows (into_current_agent l) i now) i amount now ≡ ok next
      → agent_pull rt c amount now ≡ ok o
      → PullRun rt c amount now o
  unfolding agent_pull
  agent_pull-rest l i next el ei en h =
      let m = into_current_agent l in
      let seeds = agent_seeds c.authority c.agent ++ Seed.bump m.bump ∷ [] in
      elim (Result-cases (grant_approval rt c amount now)) [
        | inr bad ↦ absurd (ground arith)
        | inl (granted, eg) ↦
            elim (Result-cases (
              invoke_transfer_checked_with_hook rt (pull_transfer_accounts c) amount usdc_decimals
                seeds)) [
                  | inr bad ↦ absurd (ground arith)
                  | inl (call, ec) ↦
                      elim (Result-cases (close_program_account rt granted c.payer)) [
                        | inr bad ↦ absurd (ground arith)
                        | inl ((closed, refunded), ex) ↦
                            elim (Result-cases (record_pull (reset_windows m i now) i next now)) [
                              | inr bad ↦ absurd (ground arith)
                              | inl (after, er) ↦ record {
                                loaded = l;
                                index = i;
                                next = next;
                                after = after;
                                call = call;
                                loads = el;
                                pullable = ground arith;
                                finds = ei;
                                limits = en;
                                covered = ground arith;
                                grants = ground arith;
                                calls = ec;
                                records = er;
                                closes = ground arith;
                                writes = ground arith;
                                made = ground arith;
                              }
                            ]
                      ]
                ]
      ]

  pub agent_pull-PullRun : agent_pull rt c amount now ≡ ok o → PullRun rt c amount now o
  unfolding agent_pull
  agent_pull-PullRun h =
      let service = c.service_wrapped_account.state.owner in
      elim (Result-cases (load_agent_mandate rt c.agent_mandate c.authority c.agent)) [
        | inr bad ↦ absurd (ground arith)
        | inl (l, el) ↦
            let m = into_current_agent l in
            elim (Option-cases (find_service_index m.services service)) [
              | inl bad ↦ absurd (ground arith)
              | inr (i, ei) ↦
                  elim (Result-cases (check_limits (reset_windows m i now) i amount now)) [
                    | inr bad ↦ absurd (ground arith)
                    | inl (next, en) ↦ agent_pull-rest l i next el ei en h
                  ]
            ]
      ]

  -- A pull that succeeds is a pull step by the agent, writes its result and moves exactly its
  -- amount from the mandate account to the service account.
  pub agent_pull-AgentSteps :
      agent_pull rt c amount now ≡ ok o
      → AgentSteps rt c.agent_mandate c.authority c.agent now c.agent o.left.mandate amount
        × (moved c.mandate_wrapped_account.key c.service_wrapped_account.key c.agent_mandate.key
              o.left.invocations
            ≡ some amount)
  agent_pull-AgentSteps h =
      let r = agent_pull-PullRun h in
      let m = into_current_agent r.loaded in
      let seeds = agent_seeds c.authority c.agent ++ Seed.bump m.bump ∷ [] in
      let parties =
        load_agent_mandate-parties rt c.agent_mandate c.authority c.agent r.loaded r.loads in
      (
        record {
          loaded = r.loaded;
          after = r.after;
          loads = r.loads;
          step =
              pull c.service_wrapped_account.state.owner r.index r.next (sym parties.1) r.pullable
                r.finds r.limits r.records;
          writes = r.writes;
        },
        ap (moved c.mandate_wrapped_account.key c.service_wrapped_account.key c.agent_mandate.key)
              r.made
            ∙ invoke-moved rt (pull_transfer_accounts c) amount usdc_decimals seeds r.call r.calls,
      )
