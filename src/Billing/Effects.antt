-- ===== src/Billing/Effects.antt =====
-- What a pull that succeeds has checked and does: execute_pull.rs.
use vela_protocol.Base.{ℕ, some, inl, inr, ◌≡◌, arith, Bool, List}
use vela_protocol.Base.Int.{ℤ}
use vela_protocol.Errors.{ok, Result-cases}
use vela_protocol.State.{VelaMandate, PullApproval}
use vela_protocol.Runtime.{Runtime, Invocation, moved}
use vela_protocol.Accounts.{
  invoke_transfer_checked_with_hook, LoadedKeeperConfig, LoadedPlanAccount, load_keeper_config,
  keeper_authority, load_plan_account, load_mandate_account, into_current_mandate,
  is_legacy_mandate, mandate_billing_period, write_mandate,
}
use vela_protocol.Billing.Pull.{
  ExecutePull, BillingOutcome, Due, check_pull, check_due, usage_report_info, apply_pending,
  load_pull_approval, check_approval_terms, base_charge, use_credit, record_pull, pay_charge,
  invoke_billing_transfer, open_pull, approved_charge, settle_pull, execute_pull,
}

-- What a pull finds before it asks for the approval.
pub record Opened (rt : Runtime) (c : ExecutePull) (now : ℤ) (due : Due) : Type 0 where
  pub keeper : LoadedKeeperConfig
  pub plan : LoadedPlanAccount
  pub keeps : load_keeper_config rt c.keeper_config ≡ ok keeper
  pub planned : load_plan_account rt c.plan ≡ ok plan
  pub loads : load_mandate_account c.mandate ≡ ok due.loaded
  pub checked :
      check_pull c (keeper_authority keeper) due.config plan (into_current_mandate due.loaded)
      ≡ ok tt
  pub is_due : check_due (into_current_mandate due.loaded) now ≡ ok tt
  pub period : mandate_billing_period (into_current_mandate due.loaded) ≡ ok due.period
  pub reports : usage_report_info c (into_current_mandate due.loaded).billing_type ≡ ok due.report
  pub applies :
      apply_pending rt (into_current_mandate due.loaded) plan c.remaining_accounts due.report now
      ≡ ok due.billed

pub open_pull-Opened :
    (rt : Runtime) (c : ExecutePull) (now : ℤ) (due : Due)
    → open_pull rt c now ≡ ok due
    → Opened rt c now due
unfolding open_pull
open_pull-Opened rt c now due h = elim (Result-cases (load_keeper_config rt c.keeper_config)) [
  | inr bad ↦ absurd (ground arith)
  | inl (k, ek) ↦ elim (Result-cases (load_plan_account rt c.plan)) [
    | inr bad ↦ absurd (ground arith)
    | inl (p, ep) ↦ record {
      keeper = k;
      plan = p;
      keeps = ek;
      planned = ep;
      loads = ground arith;
      checked = ground arith;
      is_due = ground arith;
      period = ground arith;
      reports = ground arith;
      applies = ground arith;
    }
  ]
]

-- The approval that a pull has found, and the charge before credit.
pub record Approved (rt : Runtime) (c : ExecutePull) (due : Due) (now : ℤ) (base : ℕ) : Type 0 where
  pub approval : PullApproval
  pub holds : load_pull_approval rt c.pull_approval c.mandate.key ≡ ok approval
  pub terms : check_approval_terms approval c.mandate.key due.period now ≡ ok tt
  pub charges :
      base_charge due.billed.active_plan due.billed.mandate.amount approval.approved_amount
      ≡ ok base

approved_charge-Approved :
    (rt : Runtime) (c : ExecutePull) (due : Due) (now : ℤ) (base : ℕ)
    → approved_charge rt c due now ≡ ok base
    → Approved rt c due now base
unfolding approved_charge
approved_charge-Approved rt c due now base h =
    elim (Result-cases (load_pull_approval rt c.pull_approval c.mandate.key)) [
      | inr bad ↦ absurd (ground arith)
      | inl (a, e) ↦ record {
        approval = a;
        holds = e;
        terms = ground arith;
        charges = ground arith;
      }
    ]

-- The transfer of a pull and the mandate that it writes.
pub record Settles (rt : Runtime) (c : ExecutePull) (due : Due) (base : ℕ) (now : ℤ)
    (o : BillingOutcome) : Type 0 where
  pub pulled : VelaMandate
  pub pays :
      pay_charge rt c
        (use_credit due.billed.mandate base).0
        (is_legacy_mandate due.loaded)
        (use_credit due.billed.mandate base).1
      ≡ ok o.invocations
  pub records : record_pull (use_credit due.billed.mandate base).0 now ≡ ok pulled
  pub writes : o.mandate ≡ write_mandate c.mandate pulled (is_legacy_mandate due.loaded)

settle_pull-Settles :
    (rt : Runtime) (c : ExecutePull) (due : Due) (base : ℕ) (now : ℤ) (o : BillingOutcome)
    → settle_pull rt c due base now ≡ ok o
    → Settles rt c due base now o
unfolding settle_pull
settle_pull-Settles rt c due base now o h =
    elim (Result-cases (record_pull (use_credit due.billed.mandate base).0 now)) [
      | inr bad ↦ absurd (ground arith)
      | inl (m, e) ↦ record { pulled = m; pays = ground arith; records = e; writes = ground arith }
    ]

-- All that a pull that succeeds has found and done.
pub record PullRun (rt : Runtime) (c : ExecutePull) (now : ℤ) (o : BillingOutcome) : Type 0 where
  pub due : Due
  pub base : ℕ
  pub opened : Opened rt c now due
  pub approved : Approved rt c due now base
  pub settles : Settles rt c due base now o

pub execute_pull-PullRun :
    (rt : Runtime) (c : ExecutePull) (now : ℤ) (o : BillingOutcome)
    → execute_pull rt c now ≡ ok o
    → PullRun rt c now o
unfolding execute_pull
execute_pull-PullRun rt c now o h = elim (Result-cases (open_pull rt c now)) [
  | inr bad ↦ absurd (ground arith)
  | inl (due, ed) ↦ elim (Result-cases (approved_charge rt c due now)) [
    | inr bad ↦ absurd (ground arith)
    | inl (base, eb) ↦ record {
      due = due;
      base = base;
      opened = open_pull-Opened rt c now due ed;
      approved = approved_charge-Approved rt c due now base eb;
      settles = settle_pull-Settles rt c due base now o (ground arith);
    }
  ]
]

-- The transfer moves the charge.
pub pay_charge-moved :
    (rt : Runtime) (c : ExecutePull) (m : VelaMandate) (legacy : Bool) (n : ℕ)
    {calls : List Invocation}
    → pay_charge rt c m legacy n ≡ ok calls
    → moved c.subscriber_wrapped_account.key c.merchant_wrapped_account.key c.mandate.key calls
      ≡ some n
unfolding pay_charge invoke_billing_transfer invoke_transfer_checked_with_hook
pay_charge-moved rt c m legacy n h = ground arith
