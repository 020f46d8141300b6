-- ===== src/Billing/Payment.antt =====
-- What a pull does to the mandate: execute_pull.rs.
use vela_protocol.Base.{
  ℕ, ◌+◌, ◌-◌, ◌≤◌, ◌<◌, true, false, inl, inr, ◌≡◌, ◌⊎◌, ap, ◌∙◌, arith, Bool, Bool-cases,
  Option-cases, Option, get_elem?, leb, if◌then◌else◌, some,
}
use vela_protocol.Base.Int.{ℤ, pos, ◌+ℤ◌, ◌≤ℤ◌, ◌<ℤ◌}
use vela_protocol.Errors.{ok, Result-cases}
use vela_protocol.State.{VelaMandate, MandateStatus, BillingType, is_plan_active}
use vela_protocol.Runtime.{Runtime, AccountInfo, moved}
use vela_protocol.Accounts.{
  LoadedProtocolConfig, LoadedMandateAccount, LoadedPlanAccount, load_mandate_account,
  into_current_mandate, is_legacy_mandate, write_mandate, is_flat, load_plan_account, plan_merchant,
  plan_status, plan_billing_type, same_billing_type, require_plan_billing_type, keeper_authority,
}
use vela_protocol.Billing.Pull.{
  ExecutePull, BillingOutcome, Billed, check_pull, check_due, apply_pending, apply_pending_plan,
  base_charge, use_credit, record_pull, execute_pull, is_usage, change_is_due, take_plan_terms,
  pending_plan_index,
}
use vela_protocol.Billing.Effects.{execute_pull-PullRun, pay_charge-moved}

-- The mandate can be pulled now.
pub record Pullable (m : VelaMandate) (now : ℤ) : Type 0 where
  pub active : m.status ≡ MandateStatus.active
  pub room : m.pulls_executed < m.max_pulls
  pub due : m.next_payment_due ≤ℤ now
  pub unexpired : (m.expiry ≤ℤ pos 0) ⊎ (now <ℤ m.expiry)

check_pull-active :
    (c : ExecutePull) (keeper : ℕ) (config : LoadedProtocolConfig) (plan : LoadedPlanAccount)
    (m : VelaMandate)
    → check_pull c keeper config plan m ≡ ok tt
    → m.status ≡ MandateStatus.active
unfolding check_pull
check_pull-active c keeper config plan m h = ground arith

pub checks-Pullable :
    (m : VelaMandate) (now : ℤ)
    → m.status ≡ MandateStatus.active
    → check_due m now ≡ ok tt
    → Pullable m now
unfolding check_due
checks-Pullable m now on h = record {
  active = on;
  room = ground arith;
  due = ground arith;
  unexpired = ground arith;
}

-- From `b`, the mandate with the terms that are charged for, to `next`: `base` is charged, of which
-- `paid` in tokens and the rest in credit.
pub record Payment (b : VelaMandate) (flat : Bool) (now : ℤ) (base paid : ℕ) (next : VelaMandate)
    : Type 0 where
  pub within : base ≤ b.amount
  pub exact : flat ≡ true → base ≡ b.amount
  pub credit : next.credit_balance ≡ b.credit_balance - base
  pub charge : paid ≡ base - b.credit_balance
  pub pulls : next.pulls_executed ≡ b.pulls_executed + 1
  pub due : next.next_payment_due ≡ b.next_payment_due +ℤ pos b.frequency
  pub after : next ≡ record b {
    credit_balance = next.credit_balance;
    pulls_executed = next.pulls_executed;
    next_payment_due = next.next_payment_due;
    last_pull_at = now;
    last_billing_recorded_pull =
        if is_usage b.billing_type then next.pulls_executed else b.last_billing_recorded_pull;
    status = if leb b.max_pulls next.pulls_executed then MandateStatus.expired else b.status;
  }

base_charge-bounds :
    (plan : LoadedPlanAccount) (amount approved base : ℕ)
    → base_charge plan amount approved ≡ ok base
    → (base ≤ amount) × (base ≤ approved) × (is_flat plan ≡ true → base ≡ amount)
unfolding base_charge
base_charge-bounds plan amount approved base h = (ground arith, ground arith, λ flat. ground arith)

record_pull-Payment :
    (plan : LoadedPlanAccount) (b : VelaMandate) (approved base : ℕ) (now : ℤ) (next : VelaMandate)
    → base_charge plan b.amount approved ≡ ok base
    → record_pull (use_credit b base).0 now ≡ ok next
    → Payment b (is_flat plan) now base (use_credit b base).1 next
unfolding record_pull use_credit
record_pull-Payment plan b approved base now next charged h =
    let (within, granted, exact) = base_charge-bounds plan b.amount approved base charged in
    record {
      within = within;
      exact = exact;
      credit = ground arith;
      charge = omega arith;
      pulls = ground arith;
      due = ground arith;
      after = ground arith;
    }

-- The terms that are charged for: the mandate's own, or those of the scheduled plan, which is due, of
-- the same merchant and kind, and active.
pub data Terms (rt : Runtime) (c : ExecutePull) (m : VelaMandate) (now : ℤ) (b : Billed)
    : Type 0 where
  kept : change_is_due m now ≡ false → b.mandate ≡ m → Terms rt c m now b
  changed :
      (info : AccountInfo)
      → change_is_due m now ≡ true
      → info.key ≡ m.pending_new_plan
      → load_plan_account rt info ≡ ok b.active_plan
      → plan_merchant b.active_plan ≡ m.merchant
      → is_plan_active (plan_status b.active_plan) ≡ true
      → plan_billing_type b.active_plan ≡ m.billing_type
      → b.mandate ≡ take_plan_terms m m.pending_new_plan b.active_plan
      → Terms rt c m now b

same_billing_type-eq : (a b : BillingType) → same_billing_type a b ≡ true → a ≡ b
same_billing_type-eq a b h = ground arith

apply_pending_plan-Terms :
    (rt : Runtime) (c : ExecutePull) (m : VelaMandate) (plan : LoadedPlanAccount)
    (info : AccountInfo) (now : ℤ) (b : Billed)
    → change_is_due m now ≡ true
    → apply_pending_plan rt m plan info now ≡ ok b
    → Terms rt c m now b
unfolding apply_pending_plan require_plan_billing_type
apply_pending_plan-Terms rt c m plan info now b is_due h =
    elim (Result-cases (load_plan_account rt info)) [
      | inr bad ↦ absurd (ground arith)
      | inl (p, e) ↦
          changed info is_due (ground arith) (ground arith) (ground arith) (ground arith)
            (same_billing_type-eq (plan_billing_type b.active_plan) m.billing_type (ground arith))
            (ground arith)
    ]

apply_pending-Terms :
    (rt : Runtime) (c : ExecutePull) (m : VelaMandate) (plan : LoadedPlanAccount)
    (report : Option AccountInfo) (now : ℤ) (b : Billed)
    → apply_pending rt m plan c.remaining_accounts report now ≡ ok b
    → Terms rt c m now b
unfolding apply_pending
apply_pending-Terms rt c m plan report now b h = elim (Bool-cases (change_is_due m now)) [
  | inr never ↦ kept never (ground arith)
  | inl is_due ↦ elim (Option-cases (get_elem? c.remaining_accounts (pending_plan_index report))) [
    | inl e ↦ absurd (ground arith)
    | inr (info, e) ↦ apply_pending_plan-Terms rt c m plan info now b is_due (ground arith)
  ]
]

require_plan_billing_type-eq :
    (plan : LoadedPlanAccount) (t : BillingType)
    → require_plan_billing_type plan t ≡ ok tt
    → plan_billing_type plan ≡ t
unfolding require_plan_billing_type
require_plan_billing_type-eq plan t h =
    same_billing_type-eq (plan_billing_type plan) t (ground arith)

pub check_pull-kind :
    (c : ExecutePull) (keeper : ℕ) (config : LoadedProtocolConfig) (plan : LoadedPlanAccount)
    (m : VelaMandate)
    → check_pull c keeper config plan m ≡ ok tt
    → plan_billing_type plan ≡ m.billing_type
unfolding check_pull
check_pull-kind c keeper config plan m h =
    require_plan_billing_type-eq plan m.billing_type (ground arith)

-- The plan that is charged for is of the mandate's kind.
pub apply_pending-kind :
    (rt : Runtime) (c : ExecutePull) (m : VelaMandate) (plan : LoadedPlanAccount)
    (report : Option AccountInfo) (now : ℤ) (b : Billed)
    → plan_billing_type plan ≡ m.billing_type
    → apply_pending rt m plan c.remaining_accounts report now ≡ ok b
    → plan_billing_type b.active_plan ≡ m.billing_type
unfolding apply_pending
apply_pending-kind rt c m plan report now b same h =
    elim (apply_pending-Terms rt c m plan report now b h) [
      | kept never e ↦ ap plan_billing_type (ground arith) ∙ same
      | changed info is_due at loads merchant active kind e ↦ kind
    ]

-- What a pull has done: the tokens moved, and the mandate that was loaded and written.
pub record Pulled (rt : Runtime) (c : ExecutePull) (now : ℤ) (o : BillingOutcome) : Type 0 where
  pub loaded : LoadedMandateAccount
  pub billed : Billed
  pub base : ℕ
  pub paid : ℕ
  pub next : VelaMandate
  pub loads : load_mandate_account c.mandate ≡ ok loaded
  pub pullable : Pullable (into_current_mandate loaded) now
  pub terms : Terms rt c (into_current_mandate loaded) now billed
  pub payment : Payment billed.mandate (is_flat billed.active_plan) now base paid next
  pub moves :
      moved c.subscriber_wrapped_account.key c.merchant_wrapped_account.key c.mandate.key
        o.invocations
      ≡ some paid
  pub writes : o.mandate ≡ write_mandate c.mandate next (is_legacy_mandate loaded)

pub execute_pull-Pulled :
    (rt : Runtime) (c : ExecutePull) (now : ℤ) (o : BillingOutcome)
    → execute_pull rt c now ≡ ok o
    → Pulled rt c now o
execute_pull-Pulled rt c now o h =
    let r = execute_pull-PullRun rt c now o h in
    let m = into_current_mandate r.due.loaded in
    let b = r.due.billed in
    record {
      loaded = r.due.loaded;
      billed = b;
      base = r.base;
      paid = (use_credit b.mandate r.base).1;
      next = r.settles.pulled;
      loads = r.opened.loads;
      pullable =
          checks-Pullable m now
            (check_pull-active c (keeper_authority r.opened.keeper) r.due.config r.opened.plan m
              r.opened.checked)
            r.opened.is_due;
      terms = apply_pending-Terms rt c m r.opened.plan r.due.report now b r.opened.applies;
      payment =
          record_pull-Payment b.active_plan b.mandate r.approved.approval.approved_amount r.base now
            r.settles.pulled r.approved.charges r.settles.records;
      moves =
          pay_charge-moved rt c (use_credit b.mandate r.base).0 (is_legacy_mandate r.due.loaded)
            (use_credit b.mandate r.base).1 r.settles.pays;
      writes = r.settles.writes;
    }
