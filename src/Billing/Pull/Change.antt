-- ===== src/Billing/Pull/Change.antt =====
-- billing/execute_pull.rs: the scheduled change of the plan, which a pull applies.
use vela_protocol.Base.{
  ℕ, Bool, Option, none, some, not, ◌==◌, ◌&&◌, if◌then◌else◌, get_elem?, is_some, List,
}
use vela_protocol.Base.Int.{ℤ, leb_ℤ}
use vela_protocol.Errors.{Result, ok, vela, VelaError, ◌>>=◌, ◌>>◌, require, require_keys_eq, ok_or}
use vela_protocol.State.{VelaMandate, is_plan_active, clear_pending}
use vela_protocol.Runtime.{Runtime, AccountInfo, default_pubkey, current_account_version}
use vela_protocol.Accounts.{
  LoadedPlanAccount, load_plan_account, plan_status, plan_billing_mint, plan_billing_type,
  plan_merchant, plan_max_pulls, mandate_amount, mandate_frequency, require_plan_billing_type,
}

-- `auto_applied_change`
pub record PlanChange : Type 0 where
  pub old_plan : ℕ
  pub new_plan : ℕ
  pub applied_at : ℤ

-- `mandate`, `active_plan` and `auto_applied_change` as the pull goes on.
pub record Billed : Type 0 where
  pub mandate : VelaMandate
  pub active_plan : LoadedPlanAccount
  pub change : Option PlanChange

-- The terms of a new plan, as they are written into a mandate here and in update_mandate_plan.rs.
unfoldable pub take_plan_terms : VelaMandate → (key : ℕ) → LoadedPlanAccount → VelaMandate
unfolding clear_pending
take_plan_terms mandate key plan = clear_pending (record mandate {
  plan = key;
  amount = mandate_amount plan;
  frequency = mandate_frequency plan;
  max_pulls = plan_max_pulls plan;
  billing_type = plan_billing_type plan;
  version = current_account_version;
})

-- The billing mints of two plans agree where both have one.
unfoldable pub check_mint_kept : (active pending : ℕ) → Result (Unit {0})
check_mint_kept active pending =
    if not (active == default_pubkey) && not (pending == default_pubkey)
    then require_keys_eq pending active (vela VelaError.token_change_not_supported)
    else ok tt

-- The pending plan stands in the remaining accounts behind the usage report.
abbrev pub pending_plan_index : Option AccountInfo → ℕ
pending_plan_index report = if is_some report then 1 else 0

abbrev pub change_is_due : VelaMandate → ℤ → Bool
change_is_due mandate now =
    mandate.pending_change_type == 2 && leb_ℤ mandate.pending_effective_at now

module _ (rt : Runtime) where
  unfoldable pub apply_pending_plan :
      VelaMandate → LoadedPlanAccount → AccountInfo → ℤ → Result Billed
  unfolding take_plan_terms
  apply_pending_plan mandate current_plan pending_plan_info now = do
    require_keys_eq pending_plan_info.key mandate.pending_new_plan
        (vela VelaError.pending_plan_account_missing)
    pending_plan ← load_plan_account rt pending_plan_info
    require_keys_eq (plan_merchant pending_plan) mandate.merchant
        (vela VelaError.unauthorized_upgrade)
    require (is_plan_active (plan_status pending_plan)) (vela VelaError.plan_not_active)
    require_plan_billing_type pending_plan mandate.billing_type
    check_mint_kept (plan_billing_mint current_plan) (plan_billing_mint pending_plan)
    ok (record {
      mandate = take_plan_terms mandate mandate.pending_new_plan pending_plan;
      active_plan = pending_plan;
      change = some (record {
        old_plan = mandate.plan;
        new_plan = mandate.pending_new_plan;
        applied_at = now;
      });
    })

  unfoldable pub apply_pending :
      VelaMandate
      → LoadedPlanAccount
      → (remaining_accounts : List AccountInfo) → (report : Option AccountInfo) → ℤ
      → Result Billed
  unfolding apply_pending_plan
  apply_pending mandate current_plan remaining_accounts report now =
      if change_is_due mandate now
      then (do
        info ←
            ok_or (get_elem? remaining_accounts (pending_plan_index report))
              (vela VelaError.pending_plan_account_missing)
        apply_pending_plan mandate current_plan info now)
      else ok (record { mandate = mandate; active_plan = current_plan; change = none })
