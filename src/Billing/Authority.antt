-- ===== src/Billing/Authority.antt =====
-- Who pulls, and under which approval: execute_pull.rs.
use vela_protocol.Base.{ℕ, ◌≤◌, some, true, ◌≡◌, ◌⊎◌, arith, ==_iff, [], ◌∷◌}
use vela_protocol.Base.Int.{ℤ, ◌≤ℤ◌, eq_ℤ-eq}
use vela_protocol.Errors.{ok}
use vela_protocol.State.{VelaMandate, PullApproval}
use vela_protocol.Runtime.{Runtime, Seed, AccountInfo, AccountData, program_id, moved}
use vela_protocol.Accounts.{
  LoadedKeeperConfig, LoadedProtocolConfig, LoadedMandateAccount, LoadedPlanAccount,
  load_keeper_config, keeper_authority, load_mandate_account, into_current_mandate,
  mandate_billing_period, is_legacy_mandate,
}
use vela_protocol.Billing.Pull.{
  ExecutePull, BillingOutcome, check_pull, load_pull_approval, decode_pull_approval,
  check_approval_terms, base_charge, use_credit, execute_pull,
}
use vela_protocol.Billing.Effects.{execute_pull-PullRun, pay_charge-moved}

check_pull-signer :
    (c : ExecutePull) (keeper : ℕ) (config : LoadedProtocolConfig) (plan : LoadedPlanAccount)
    (m : VelaMandate)
    → check_pull c keeper config plan m ≡ ok tt
    → (c.payer.key ≡ keeper) ⊎ (c.payer.key ≡ m.subscriber)
unfolding check_pull
check_pull-signer c keeper config plan m h =
    ground (arith, ==_iff c.payer.key keeper, ==_iff c.payer.key m.subscriber)

-- The approval of a mandate for a period, at its address and still valid.
pub record Valid (rt : Runtime) (info : AccountInfo) (mandate : ℕ) (period : ℤ × ℤ) (now : ℤ)
    (a : PullApproval) : Type 0 where
  pub address :
      info.key
      ≡ (rt.find_program_address (Seed.literal "approval" ∷ Seed.pubkey mandate ∷ []) program_id).0
  pub owned : info.owner ≡ program_id
  pub holds : info.contents ≡ AccountData.pull_approval (some a)
  pub approved : a.approved ≡ true
  pub is_for : a.mandate ≡ mandate
  pub start : a.period_start ≡ period.0
  pub end : a.period_end ≡ period.1
  pub fresh : now ≤ℤ a.valid_until

pub load-Valid :
    (rt : Runtime) (info : AccountInfo) (mandate : ℕ) (period : ℤ × ℤ) (now : ℤ) (a : PullApproval)
    → load_pull_approval rt info mandate ≡ ok a
    → check_approval_terms a mandate period now ≡ ok tt
    → Valid rt info mandate period now a
unfolding load_pull_approval decode_pull_approval check_approval_terms
load-Valid rt info mandate period now a h terms = record {
  address = ground arith;
  owned = ground arith;
  holds = ground arith;
  approved = ground arith;
  is_for = ground arith;
  start = eq_ℤ-eq a.period_start period.0 (ground arith);
  end = eq_ℤ-eq a.period_end period.1 (ground arith);
  fresh = ground arith;
}

pub charge-granted :
    (plan : LoadedPlanAccount) (b : VelaMandate) (approved base : ℕ)
    → base_charge plan b.amount approved ≡ ok base
    → (use_credit b base).1 ≤ approved
unfolding base_charge use_credit
charge-granted plan b approved base h = ground arith

-- The signer and the approval of a pull.
pub record Granted (rt : Runtime) (c : ExecutePull) (now : ℤ) (o : BillingOutcome) : Type 0 where
  pub keeper : LoadedKeeperConfig
  pub loaded : LoadedMandateAccount
  pub period : ℤ × ℤ
  pub approval : PullApproval
  pub paid : ℕ
  pub keeps : load_keeper_config rt c.keeper_config ≡ ok keeper
  pub loads : load_mandate_account c.mandate ≡ ok loaded
  pub signer :
      (c.payer.key ≡ keeper_authority keeper)
      ⊎ (c.payer.key ≡ (into_current_mandate loaded).subscriber)
  pub bills : mandate_billing_period (into_current_mandate loaded) ≡ ok period
  pub valid : Valid rt c.pull_approval c.mandate.key period now approval
  pub moves :
      moved c.subscriber_wrapped_account.key c.merchant_wrapped_account.key c.mandate.key
        o.invocations
      ≡ some paid
  pub within : paid ≤ approval.approved_amount

-- A pull that succeeds was signed by the keeper of the configuration or by the subscriber. It moves
-- no more than what the approval grants that stands at the address of the mandate, is for the
-- period of the next payment of the mandate, and is still valid.
pub execute_pull-Granted :
    (rt : Runtime) (c : ExecutePull) (now : ℤ) (o : BillingOutcome)
    → execute_pull rt c now ≡ ok o
    → Granted rt c now o
execute_pull-Granted rt c now o h =
    let r = execute_pull-PullRun rt c now o h in
    let b = r.due.billed in
    let m = into_current_mandate r.due.loaded in
    record {
      keeper = r.opened.keeper;
      loaded = r.due.loaded;
      period = r.due.period;
      approval = r.approved.approval;
      paid = (use_credit b.mandate r.base).1;
      keeps = r.opened.keeps;
      loads = r.opened.loads;
      signer =
          check_pull-signer c (keeper_authority r.opened.keeper) r.due.config r.opened.plan m
            r.opened.checked;
      bills = r.opened.period;
      valid =
          load-Valid rt c.pull_approval c.mandate.key r.due.period now r.approved.approval
            r.approved.holds r.approved.terms;
      moves =
          pay_charge-moved rt c (use_credit b.mandate r.base).0 (is_legacy_mandate r.due.loaded)
            (use_credit b.mandate r.base).1 r.settles.pays;
      within =
          charge-granted b.active_plan b.mandate r.approved.approval.approved_amount r.base
            r.approved.charges;
    }
