-- ===== src/Plans/Updating.antt =====
-- What a change of the plan does: update_mandate_plan.rs.
use vela_protocol.Base.{ℕ, false, ◌≡◌, ◌⊎◌}
use vela_protocol.Base.Int.{ℤ}
use vela_protocol.Errors.{ok}
use vela_protocol.State.{VelaMandate}
use vela_protocol.Runtime.{Runtime}
use vela_protocol.Accounts.{LoadedPlanAccount, load_plan_account, mandate_amount, write_mandate}
use vela_protocol.Billing.Pull.{take_plan_terms}
use vela_protocol.Runtime.{moved}
use vela_protocol.Base.{◌+◌, some, []}
use vela_protocol.Base.Int.{pos_part, neg_part}
use vela_protocol.Plans.Proration.{PreciseNumber, compute_proration}
use vela_protocol.Plans.Delta.{UpdateMandatePlan, elapsed_in_period}
use vela_protocol.Plans.Update.{UpdateOutcome}
use vela_protocol.Plans.Consent.{Consented, Loads}

-- What the change to another plan does: `delta` is the proration.
pub record Changed (math : PreciseNumber) (c : UpdateMandatePlan) (m : VelaMandate)
    (new_plan : LoadedPlanAccount) (now : ℤ) (o : UpdateOutcome) : Type 0 where
  pub elapsed : ℕ
  pub delta : ℤ
  pub within : elapsed_in_period m now ≡ ok elapsed
  pub prorates :
      compute_proration math m.amount (mandate_amount new_plan) elapsed m.frequency ≡ ok delta
  pub moves :
      moved c.subscriber_wrapped_account.key c.merchant_wrapped_account.key c.mandate.key
        o.invocations
      ≡ some (pos_part delta)
  pub writes :
      o.mandate
      ≡ write_mandate c.mandate
          (take_plan_terms
            (record m { credit_balance = m.credit_balance + neg_part delta })
            c.new_plan.key
            new_plan)
          false

-- What a change of the plan has found and done.
pub record Updated (math : PreciseNumber) (rt : Runtime) (c : UpdateMandatePlan) (now : ℤ)
    (o : UpdateOutcome) : Type 0 where
  pub mandate : VelaMandate
  pub new_plan : LoadedPlanAccount
  pub loads : Loads c.mandate mandate
  pub planned : load_plan_account rt c.new_plan ≡ ok new_plan
  pub consent : Consented c.authority.key (mandate_amount new_plan) mandate
  pub effect :
      ((mandate.plan ≡ c.new_plan.key) × (o.mandate ≡ c.mandate) × (o.invocations ≡ []))
      ⊎ Changed math c mandate new_plan now o
