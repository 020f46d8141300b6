-- ===== src/Accounts/Plan.antt =====
-- accounts/plan_account.rs: what a plan says of the mandates that subscribe to it.
use vela_protocol.Base.{ℕ, Bool, true, false, ◌-◌, Option, none, some, ltb, ◌==◌, if◌then◌else◌}
use vela_protocol.Base.Int.{ℤ, pos}
use vela_protocol.Base.Machine.{
  u64_mod, u64_checked_add, u64_checked_mul, i64_of_u64, i64_checked_add,
}
use vela_protocol.Errors.{Result, ok, vela, VelaError, ◌>>=◌, require, ok_or}
use vela_protocol.State.{VelaPlan, VelaPlanV1, UsagePlan, UsagePlanV1, PlanStatus, BillingType}
use vela_protocol.Runtime.{default_pubkey}

pub data LoadedPlanAccount : Type 0 where
  flat : VelaPlan → LoadedPlanAccount
  usage : UsagePlan → LoadedPlanAccount
  legacy_flat : VelaPlanV1 → LoadedPlanAccount
  legacy_usage : UsagePlanV1 → LoadedPlanAccount

-- The accessors of `impl LoadedPlanAccount`.
unfoldable pub plan_billing_type : LoadedPlanAccount → BillingType
plan_billing_type (LoadedPlanAccount.flat p) = BillingType.flat
plan_billing_type (LoadedPlanAccount.legacy_flat p) = BillingType.flat
plan_billing_type (LoadedPlanAccount.usage p) = BillingType.usage
plan_billing_type (LoadedPlanAccount.legacy_usage p) = BillingType.usage

unfoldable pub plan_merchant : LoadedPlanAccount → ℕ
plan_merchant (LoadedPlanAccount.flat p) = p.merchant
plan_merchant (LoadedPlanAccount.usage p) = p.merchant
plan_merchant (LoadedPlanAccount.legacy_flat p) = p.merchant
plan_merchant (LoadedPlanAccount.legacy_usage p) = p.merchant

unfoldable pub plan_credential_mint : LoadedPlanAccount → ℕ
plan_credential_mint (LoadedPlanAccount.flat p) = p.credential_mint
plan_credential_mint (LoadedPlanAccount.usage p) = p.credential_mint
plan_credential_mint (LoadedPlanAccount.legacy_flat p) = p.credential_mint
plan_credential_mint (LoadedPlanAccount.legacy_usage p) = p.credential_mint

unfoldable pub plan_billing_mint : LoadedPlanAccount → ℕ
plan_billing_mint (LoadedPlanAccount.flat p) = p.billing_mint
plan_billing_mint (LoadedPlanAccount.usage p) = p.billing_mint
plan_billing_mint _ = default_pubkey

unfoldable pub plan_status : LoadedPlanAccount → PlanStatus
plan_status (LoadedPlanAccount.flat p) = p.status
plan_status (LoadedPlanAccount.usage p) = p.status
plan_status (LoadedPlanAccount.legacy_flat p) = p.status
plan_status (LoadedPlanAccount.legacy_usage p) = p.status

unfoldable pub mandate_amount : LoadedPlanAccount → ℕ
mandate_amount (LoadedPlanAccount.flat p) = p.amount
mandate_amount (LoadedPlanAccount.usage p) = p.max_charge_per_period
mandate_amount (LoadedPlanAccount.legacy_flat p) = p.amount
mandate_amount (LoadedPlanAccount.legacy_usage p) = p.max_charge_per_period

unfoldable pub mandate_frequency : LoadedPlanAccount → ℕ
mandate_frequency (LoadedPlanAccount.flat p) = p.frequency
mandate_frequency (LoadedPlanAccount.usage p) = p.settlement_frequency
mandate_frequency (LoadedPlanAccount.legacy_flat p) = p.frequency
mandate_frequency (LoadedPlanAccount.legacy_usage p) = p.settlement_frequency

unfoldable pub plan_max_pulls : LoadedPlanAccount → ℕ
plan_max_pulls (LoadedPlanAccount.flat p) = p.max_pulls
plan_max_pulls (LoadedPlanAccount.legacy_flat p) = p.max_pulls
plan_max_pulls _ = u64_mod - 1

unfoldable pub plan_id : LoadedPlanAccount → ℕ
plan_id (LoadedPlanAccount.flat p) = p.plan_id
plan_id (LoadedPlanAccount.usage p) = p.plan_id
plan_id (LoadedPlanAccount.legacy_flat p) = p.plan_id
plan_id (LoadedPlanAccount.legacy_usage p) = p.plan_id

unfoldable pub plan_bump : LoadedPlanAccount → ℕ
plan_bump (LoadedPlanAccount.flat p) = p.bump
plan_bump (LoadedPlanAccount.usage p) = p.bump
plan_bump (LoadedPlanAccount.legacy_flat p) = p.bump
plan_bump (LoadedPlanAccount.legacy_usage p) = p.bump

unfoldable pub is_flat : LoadedPlanAccount → Bool
is_flat (LoadedPlanAccount.flat p) = true
is_flat (LoadedPlanAccount.legacy_flat p) = true
is_flat _ = false

unfoldable pub add_delay : (start_timestamp : ℤ) (delay : ℕ) → Result ℤ
add_delay start_timestamp delay = do
  delay_i64 ← ok_or (i64_of_u64 delay) (vela VelaError.overflow)
  ok_or (i64_checked_add start_timestamp delay_i64) (vela VelaError.overflow)

unfoldable pub compute_flat_expiry :
    (trial_period frequency max_pulls : ℕ) (start_timestamp : ℤ) → Result ℤ
compute_flat_expiry trial_period frequency max_pulls start_timestamp =
    if trial_period == 0 then ok (pos 0) else (do
      paid ← ok_or (u64_checked_mul frequency max_pulls) (vela VelaError.overflow)
      total_duration ← ok_or (u64_checked_add trial_period paid) (vela VelaError.overflow)
      duration_i64 ← ok_or (i64_of_u64 total_duration) (vela VelaError.overflow)
      ok_or (i64_checked_add start_timestamp duration_i64) (vela VelaError.overflow))

unfoldable pub plan_expiry : LoadedPlanAccount → ℤ → Result ℤ
unfolding compute_flat_expiry
plan_expiry (LoadedPlanAccount.flat p) start =
    compute_flat_expiry p.trial_period p.frequency p.max_pulls start
plan_expiry (LoadedPlanAccount.legacy_flat p) start =
    compute_flat_expiry p.trial_period p.frequency p.max_pulls start
plan_expiry _ start = ok (pos 0)

unfoldable pub initial_next_payment_due : LoadedPlanAccount → ℤ → Result ℤ
unfolding add_delay
initial_next_payment_due (LoadedPlanAccount.flat p) start =
    add_delay start (if ltb 0 p.trial_period then p.trial_period else p.frequency)
initial_next_payment_due (LoadedPlanAccount.legacy_flat p) start =
    add_delay start (if ltb 0 p.trial_period then p.trial_period else p.frequency)
initial_next_payment_due (LoadedPlanAccount.usage p) start = add_delay start p.settlement_frequency
initial_next_payment_due (LoadedPlanAccount.legacy_usage p) start =
    add_delay start p.settlement_frequency

abbrev pub same_billing_type : BillingType → BillingType → Bool
same_billing_type BillingType.flat BillingType.flat = true
same_billing_type BillingType.usage BillingType.usage = true
same_billing_type _ _ = false

unfoldable pub require_plan_billing_type : LoadedPlanAccount → BillingType → Result (Unit {0})
unfolding plan_billing_type
require_plan_billing_type plan expected =
    require (same_billing_type (plan_billing_type plan) expected)
      (vela VelaError.billing_type_mismatch)

-- `usage_tier_count`
unfoldable pub usage_tier_count : LoadedPlanAccount → Option ℕ
usage_tier_count (LoadedPlanAccount.usage p) = some p.tier_count
usage_tier_count (LoadedPlanAccount.legacy_usage p) = some p.tier_count
usage_tier_count _ = none
