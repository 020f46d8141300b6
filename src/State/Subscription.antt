-- ===== src/State/Subscription.antt =====
-- state/mandate.rs, state/billing_type.rs, state/pull_approval.rs and the account of
-- state/billing_event.rs, and the legacy layout of accounts/mandate_account.rs.
use vela_protocol.Base.{ℕ, Bool, List}
use vela_protocol.Base.Int.{ℤ, pos}

pub data BillingType : Type 0 where
  flat usage : BillingType

pub data MandateStatus : Type 0 where
  active cancelled expired : MandateStatus

pub record VelaMandateV1 : Type 0 where
  pub subscriber : ℕ
  pub plan : ℕ
  pub merchant : ℕ
  pub amount : ℕ
  pub frequency : ℕ
  pub start_date : ℤ
  pub expiry : ℤ
  pub max_pulls : ℕ
  pub pulls_executed : ℕ
  pub next_payment_due : ℤ
  pub last_pull_at : ℤ
  pub last_billing_recorded_pull : ℕ
  pub validation_request_nonce : ℕ
  pub billing_request_nonce : ℕ
  pub status : MandateStatus
  pub bump : ℕ
  pub billing_type : BillingType

pub record VelaMandate : Type 0 where
  pub subscriber : ℕ
  pub plan : ℕ
  pub merchant : ℕ
  pub amount : ℕ
  pub frequency : ℕ
  pub start_date : ℤ
  pub expiry : ℤ
  pub max_pulls : ℕ
  pub pulls_executed : ℕ
  pub next_payment_due : ℤ
  pub last_pull_at : ℤ
  pub last_billing_recorded_pull : ℕ
  pub validation_request_nonce : ℕ
  pub billing_request_nonce : ℕ
  pub status : MandateStatus
  pub bump : ℕ
  pub billing_type : BillingType
  pub mandate_index : ℕ
  pub version : ℕ
  pub credit_balance : ℕ
  pub pending_new_plan : ℕ
  pub pending_effective_at : ℤ
  pub pending_change_type : ℕ
  pub pending_nonce_short : ℕ

-- `clear_pending`
unfoldable pub clear_pending : VelaMandate → VelaMandate
clear_pending m = record m {
  pending_new_plan = 0;
  pending_effective_at = pos 0;
  pending_change_type = 0;
  pending_nonce_short = 0;
}

pub record PullApproval : Type 0 where
  pub mandate : ℕ
  pub period_start : ℤ
  pub period_end : ℤ
  pub valid_until : ℤ
  pub approved : Bool
  pub approved_amount : ℕ
  pub created_at : ℤ
  pub bump : ℕ

-- `encrypted_blob` has ten entries, each the number of its 32 bytes.
pub record BillingEvent : Type 0 where
  pub mandate : ℕ
  pub merchant : ℕ
  pub subscriber : ℕ
  pub plan_id : ℕ
  pub encrypted_blob : List ℕ
  pub nonce : ℕ
  pub created_at : ℤ
  pub bump : ℕ
