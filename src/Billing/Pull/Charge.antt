-- ===== src/Billing/Pull/Charge.antt =====
-- billing/execute_pull.rs: the charge of a pull, the credit that it uses, and the mandate after it.
use vela_protocol.Base.{ℕ, ◌-◌, min, leb, if◌then◌else◌}
use vela_protocol.Base.Int.{ℤ}
use vela_protocol.Base.Machine.{u64_checked_add, i64_of_u64, i64_checked_add}
use vela_protocol.Errors.{Result, ok, vela, VelaError, ◌>>=◌, ◌>>◌, require, ok_or}
use vela_protocol.State.{VelaMandate, MandateStatus}
use vela_protocol.Accounts.{LoadedPlanAccount, is_flat}
use vela_protocol.Billing.Pull.Accounts.{is_usage}

-- `base_charge_amount`
unfoldable pub base_charge : LoadedPlanAccount → (amount approved_amount : ℕ) → Result ℕ
base_charge plan amount approved_amount =
    if is_flat plan
    then (do
      require (leb amount approved_amount) (vela VelaError.amount_exceeds_plan_amount)
      ok amount)
    else (do
      require (leb approved_amount amount) (vela VelaError.amount_exceeds_plan_amount)
      ok approved_amount)

-- The credit that is used, what is left to charge, and the mandate with the credit that remains.
unfoldable pub use_credit : VelaMandate → (base_charge_amount : ℕ) → VelaMandate × ℕ
use_credit mandate base_charge_amount =
    let credit_used = min base_charge_amount mandate.credit_balance in
    (
      record mandate { credit_balance = mandate.credit_balance - credit_used },
      base_charge_amount - credit_used,
    )

-- The mandate after a pull.
unfoldable pub record_pull : VelaMandate → ℤ → Result VelaMandate
record_pull mandate now = do
  mandate_frequency ← ok_or (i64_of_u64 mandate.frequency) (vela VelaError.overflow)
  pulls ← ok_or (u64_checked_add mandate.pulls_executed 1) (vela VelaError.overflow)
  due ← ok_or (i64_checked_add mandate.next_payment_due mandate_frequency) (vela VelaError.overflow)
  ok (record mandate {
    pulls_executed = pulls;
    next_payment_due = due;
    last_pull_at = now;
    last_billing_recorded_pull =
        if is_usage mandate.billing_type then pulls else mandate.last_billing_recorded_pull;
    status = if leb mandate.max_pulls pulls then MandateStatus.expired else mandate.status;
  })
