-- ===== src/State/Plan.antt =====
-- state/plan.rs, state/usage_plan.rs and state/usage_report.rs, and the legacy layouts of
-- accounts/plan_account.rs. The name of a unit is a number; the padding of a tier and the encrypted
-- usage of a report, which the modelled handlers do not read, have no field.
use vela_protocol.Base.{ℕ, Bool, true, false, List}
use vela_protocol.Base.Int.{ℤ}

pub data PlanStatus : Type 0 where
  active inactive : PlanStatus

pub record VelaPlan : Type 0 where
  pub merchant : ℕ
  pub plan_id : ℕ
  pub amount : ℕ
  pub frequency : ℕ
  pub trial_period : ℕ
  pub max_pulls : ℕ
  pub status : PlanStatus
  pub credential_mint : ℕ
  pub billing_mint : ℕ
  pub bump : ℕ
  pub version : ℕ

pub record VelaPlanV1 : Type 0 where
  pub merchant : ℕ
  pub plan_id : ℕ
  pub amount : ℕ
  pub frequency : ℕ
  pub trial_period : ℕ
  pub max_pulls : ℕ
  pub status : PlanStatus
  pub credential_mint : ℕ
  pub bump : ℕ

-- `up_to` is zero where the tier has no upper bound.
pub record PricingTier : Type 0 where
  pub up_to : ℕ
  pub rate_per_unit : ℕ

-- `tiers` has five entries, of which `tier_count` count.
pub record UsagePlan : Type 0 where
  pub merchant : ℕ
  pub plan_id : ℕ
  pub unit_name : ℕ
  pub tiers : List PricingTier
  pub tier_count : ℕ
  pub max_charge_per_period : ℕ
  pub settlement_frequency : ℕ
  pub credential_mint : ℕ
  pub billing_mint : ℕ
  pub status : PlanStatus
  pub bump : ℕ
  pub version : ℕ

pub record UsagePlanV1 : Type 0 where
  pub merchant : ℕ
  pub plan_id : ℕ
  pub unit_name : ℕ
  pub tiers : List PricingTier
  pub tier_count : ℕ
  pub max_charge_per_period : ℕ
  pub settlement_frequency : ℕ
  pub credential_mint : ℕ
  pub status : PlanStatus
  pub bump : ℕ

-- A ciphertext and the key are the numbers of their 32 bytes.
pub record UsageReport : Type 0 where
  pub mandate : ℕ
  pub merchant : ℕ
  pub period_start : ℤ
  pub period_end : ℤ
  pub computation_ciphertext : List ℕ
  pub ciphertext_count : ℕ
  pub nonce : ℕ
  pub pub_key : ℕ
  pub settled : Bool
  pub created_at : ℤ
  pub bump : ℕ

abbrev pub is_plan_active : PlanStatus → Bool
is_plan_active PlanStatus.active = true
is_plan_active _ = false
