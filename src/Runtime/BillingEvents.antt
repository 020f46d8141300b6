-- ===== src/Runtime/BillingEvents.antt =====
-- The events of instructions/billing/ and instructions/plans/.
use vela_protocol.Base.{ℕ, Bool, String}
use vela_protocol.Base.Int.{ℤ}

-- The fields of `MandateUpgradeInitiated` and of `MandateUpgradeCancelled`.
pub record MandateUpgradeInitiated : Type 0 where
  pub schema_version : ℕ
  pub mandate : ℕ
  pub mint : ℕ
  pub token_symbol : String
  pub old_plan : ℕ
  pub new_plan : ℕ
  pub proration_amount : ℤ
  pub change_type : ℕ
  pub signer : ℕ
  pub applied_at : ℤ
  pub timestamp : ℤ

pub record MandateUpgradeFinalized : Type 0 where
  pub schema_version : ℕ
  pub mandate : ℕ
  pub mint : ℕ
  pub token_symbol : String
  pub old_plan : ℕ
  pub new_plan : ℕ
  pub proration_amount : ℤ
  pub change_type : ℕ
  pub applied_at : ℤ
  pub timestamp : ℤ

pub record ValidationCompleteEvent : Type 0 where
  pub mandate : ℕ
  pub approved : Bool
  pub timestamp : ℤ

pub record UsageComputationCompleteEvent : Type 0 where
  pub mandate : ℕ
  pub approved_amount : ℕ
  pub timestamp : ℤ

pub record BillingEventCreatedEvent : Type 0 where
  pub mandate : ℕ
  pub merchant : ℕ
  pub subscriber : ℕ
  pub pulls_executed : ℕ
  pub timestamp : ℤ

pub record MandateCreditAdded : Type 0 where
  pub schema_version : ℕ
  pub mandate : ℕ
  pub mint : ℕ
  pub token_symbol : String
  pub old_plan : ℕ
  pub new_plan : ℕ
  pub credit_amount : ℕ
  pub new_credit_balance : ℕ
  pub applied_at : ℤ
  pub timestamp : ℤ

pub record PlanUpdated : Type 0 where
  pub plan : ℕ
  pub merchant : ℕ
  pub plan_id : ℕ
  pub old_amount : ℕ
  pub new_amount : ℕ
  pub old_frequency : ℕ
  pub new_frequency : ℕ
  pub old_trial_period : ℕ
  pub new_trial_period : ℕ
  pub old_max_pulls : ℕ
  pub new_max_pulls : ℕ

pub record UsagePlanUpdated : Type 0 where
  pub plan : ℕ
  pub merchant : ℕ
  pub plan_id : ℕ
  pub old_max_charge_per_period : ℕ
  pub new_max_charge_per_period : ℕ
  pub old_settlement_frequency : ℕ
  pub new_settlement_frequency : ℕ
  pub old_tier_count : ℕ
  pub new_tier_count : ℕ
