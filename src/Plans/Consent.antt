-- ===== src/Plans/Consent.antt =====
-- Who may change the plan of a mandate, and what a scheduling does: schedule_plan_change.rs.
use vela_protocol.Base.{ℕ, ◌≤◌, false, inl, inr, ◌≡◌, ◌⊎◌, arith, Bool-cases, ◌==◌}
use vela_protocol.Errors.{ok, Result-cases}
use vela_protocol.State.{VelaMandate}
use vela_protocol.Runtime.{Runtime, AccountInfo}
use vela_protocol.Accounts.{
  LoadedMandateAccount, LoadedPlanAccount, load_plan_account, mandate_amount, load_mandate_account,
  into_current_mandate, is_legacy_mandate, write_mandate,
}
use vela_protocol.Plans.Change.{
  SchedulePlanChange, ChangeOutcome, check_change_signer, scheduled_mandate, open_change,
}

-- The subscriber has signed, or the merchant for a plan that is not dearer.
abbrev pub Consented : (authority new_amount : ℕ) → VelaMandate → Type 0
Consented authority new_amount m =
    (authority ≡ m.subscriber) ⊎ ((authority ≡ m.merchant) × (new_amount ≤ m.amount))

pub check_change_signer-Consented :
    (authority new_amount : ℕ) (m : VelaMandate)
    → check_change_signer authority new_amount m ≡ ok tt
    → Consented authority new_amount m
unfolding check_change_signer
check_change_signer-Consented authority new_amount m h =
    elim (Bool-cases (authority == m.subscriber)) [
      | inl own ↦ inl (ground arith)
      | inr other ↦ inr (ground arith, ground arith)
    ]

-- The mandate that a change has loaded.
pub record Loads (info : AccountInfo) (m : VelaMandate) : Type 0 where
  pub loaded : LoadedMandateAccount
  pub loads : load_mandate_account info ≡ ok loaded
  pub layout : is_legacy_mandate loaded ≡ false
  pub current : into_current_mandate loaded ≡ m

pub open_change-Loads :
    (rt : Runtime) (info : AccountInfo) (m : VelaMandate)
    → open_change rt info ≡ ok m
    → Loads info m
unfolding open_change
open_change-Loads rt info m h = elim (Result-cases (load_mandate_account info)) [
  | inr bad ↦ absurd (ground arith)
  | inl (l, e) ↦ record { loaded = l; loads = e; layout = ground arith; current = ground arith }
]

-- What a scheduling has found and done.
pub record Scheduled (rt : Runtime) (c : SchedulePlanChange) (slot : ℕ) (o : ChangeOutcome)
    : Type 0 where
  pub mandate : VelaMandate
  pub new_plan : LoadedPlanAccount
  pub loads : Loads c.mandate mandate
  pub planned : load_plan_account rt c.new_plan ≡ ok new_plan
  pub consent : Consented c.authority (mandate_amount new_plan) mandate
  pub writes :
      (o.mandate ≡ c.mandate)
      ⊎ (o.mandate ≡ write_mandate c.mandate (scheduled_mandate mandate c.new_plan.key slot) false)
