-- ===== src/Billing/Computation/UsageCallback.antt =====
-- billing/usage_computation_callback.rs
use vela_protocol.Base.{ℕ, true, not, leb, [], ◌∷◌, ◌++◌}
use vela_protocol.Base.Int.{ℤ}
use vela_protocol.Base.Machine.{i64_checked_add}
use vela_protocol.Errors.{
  Result, ok, err, vela, VelaError, ◌>>=◌, ◌>>◌, require, require_keys_eq, ok_or,
}
use vela_protocol.State.{VelaMandate, PullApproval, UsageReport}
use vela_protocol.Runtime.{
  Runtime, Seed, Loaded, Event, program_id, require_created, pull_approval_ttl_seconds,
}
use vela_protocol.Accounts.{mandate_billing_period}
use vela_protocol.Arcium.Request.{ArciumRequestFlow, complete_arcium_request}
use vela_protocol.Arcium.Accounts.{ArciumProgram, i64_bits, validate_static_callback_accounts}
use vela_protocol.Arcium.Callback.{CallbackAccounts, open_callback, approval_seeds, find}
use vela_protocol.Billing.Pull.{is_mandate_active, is_usage}
use vela_protocol.Billing.Computation.Common.{
  CallbackOutcome, period_approval, check_callback_accounts,
}
use vela_protocol.Billing.Computation.Report.{report_seeds, check_report_period}
use vela_protocol.Billing.Computation.Usage.{usage_charge_circuit, tiered_pricing_circuit}

-- `mandate`, `usage_report` and `pull_approval` are accounts that Anchor has loaded.
pub record UsageComputationCallback : Type 0 where
  pub callback : CallbackAccounts ℕ
  pub pull_approval : Loaded PullApproval
  pub mandate : Loaded VelaMandate
  pub usage_report : Loaded UsageReport

-- `.or_else(…)`
abbrev or_else : Result (Unit {0}) → Result (Unit {0}) → Result (Unit {0})
or_else (ok u) other = ok u
or_else (err e) other = other

module _ (rt : Runtime) (ar : ArciumProgram) where
  unfoldable pub validate_usage_callback_accounts :
      (mxe_account comp_def_account mxe_program_id : ℕ) → Result (Unit {0})
  validate_usage_callback_accounts mxe_account comp_def_account mxe_program_id =
      or_else
        (validate_static_callback_accounts rt ar mxe_account comp_def_account usage_charge_circuit
          mxe_program_id)
        (validate_static_callback_accounts rt ar mxe_account comp_def_account tiered_pricing_circuit
          mxe_program_id)

  -- The checks of the report, the mandate and the charge.
  unfoldable pub check_usage_charge :
      UsageComputationCallback → (computed_charge : ℕ) → Result (ℤ × ℤ)
  check_usage_charge c computed_charge = do
    let mandate = c.mandate.state
    let report = c.usage_report.state
    require_keys_eq report.mandate c.mandate.key (vela VelaError.billing_type_mismatch)
    require_keys_eq report.merchant mandate.merchant (vela VelaError.billing_type_mismatch)
    require (is_mandate_active mandate.status) (vela VelaError.mandate_not_active)
    require (is_usage mandate.billing_type) (vela VelaError.billing_type_mismatch)
    require (not report.settled) (vela VelaError.usage_report_already_settled)
    period ← mandate_billing_period mandate
    check_report_period report period
    require (leb computed_charge mandate.amount) (vela VelaError.amount_exceeds_plan_amount)
    ok period

  unfoldable pub usage_charge_callback : UsageComputationCallback → ℤ → Result CallbackOutcome
  usage_charge_callback c now = do
    let mandate = c.mandate.state
    let report = c.usage_report.state
    let bumped_report =
        report_seeds rt c.mandate.key report.period_start ++ Seed.bump report.bump ∷ []
    check_callback_accounts rt ar c.callback "usage" c.mandate.key (Seed.i64_le report.period_start)
        c.pull_approval.key
    require_created (rt.create_program_address bumped_report program_id) c.usage_report.key
    computed_charge ←
        open_callback rt ar c.callback
          (validate_usage_callback_accounts c.callback.mxe_account c.callback.comp_def_account)
          c.mandate.key ArciumRequestFlow.usage_computation (i64_bits report.period_start)
    period ← check_usage_charge c computed_charge
    valid_until ← ok_or (i64_checked_add now pull_approval_ttl_seconds) (vela VelaError.overflow)
    completed ← complete_arcium_request c.callback.request_state.state now
    ok (record {
      pull_approval = record {
        key = c.pull_approval.key;
        state =
            period_approval c.mandate.key period now valid_until true computed_charge
              (find rt (approval_seeds rt c.mandate.key)).1;
      };
      request_state = record { key = c.callback.request_state.key; state = completed };
      events =
          Event.usage_computation_complete
            (record { mandate = c.mandate.key; approved_amount = computed_charge; timestamp = now })
          ∷ [];
    })
