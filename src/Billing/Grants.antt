-- ===== src/Billing/Grants.antt =====
-- The callback of the validation and the pull that follows it: validation_callback.rs and
-- execute_pull.rs.
use vela_protocol.Base.{
  ℕ, true, none, some, inl, inr, ◌≡◌, refl, arith, Bool, leb, if◌then◌else◌, sym, ◌∙◌, ap, ==_refl,
}
use vela_protocol.Base.Int.{ℤ, pos, ◌+ℤ◌, ◌≤ℤ◌, eq_ℤ-refl}
use vela_protocol.Errors.{Result, ok, err, vela, VelaError, Result-cases}
use vela_protocol.State.{BillingType, MandateStatus}
use vela_protocol.Runtime.{Runtime, AccountData, program_id}
use vela_protocol.Accounts.{
  keeper_authority, into_current_mandate, mandate_billing_period, is_flat, plan_billing_type,
  LoadedPlanAccount,
}
use vela_protocol.Arcium.Request.{
  ArciumRequestFlow, ArciumRequestStatus, is_pending, validate_pending_arcium_request,
  complete_arcium_request,
}
use vela_protocol.Arcium.Accounts.{ArciumProgram, i64_bits, validate_static_callback_accounts}
use vela_protocol.Arcium.Callback.{CallbackAccounts, open_callback, verified_output, approval_seeds}
use vela_protocol.Billing.Pull.{
  ExecutePull, Due, open_pull, approved_charge, load_pull_approval, check_approval_terms,
  base_charge, decode_pull_approval, check_reported, usage_report_info,
}
use vela_protocol.Billing.Payment.{check_pull-kind, apply_pending-kind}
use vela_protocol.Billing.Effects.{Opened, open_pull-Opened}
use vela_protocol.Billing.Computation.{
  ValidateMandateCallback, CallbackOutcome, check_callback_accounts, validate_mandate_callback,
  period_approval,
}

-- What an answer to a validation has found and done.
pub record Answered (rt : Runtime) (v : ValidateMandateCallback) (now : ℤ) (o : CallbackOutcome)
    : Type 0 where
  pub result : Bool
  pub period : ℤ × ℤ
  pub valid_until : ℤ
  pub verified : v.callback.verified ≡ some result
  pub pending : is_pending v.callback.request_state.state.status ≡ true
  pub asked : v.callback.request_state.state.mandate ≡ v.mandate.key
  pub about : v.callback.request_state.state.subject ≡ i64_bits v.mandate.state.next_payment_due
  pub active : v.mandate.state.status ≡ MandateStatus.active
  pub kind : v.mandate.state.billing_type ≡ BillingType.flat
  pub bills : mandate_billing_period v.mandate.state ≡ ok period
  pub hour : valid_until ≡ now +ℤ pos 3600
  pub at :
      o.pull_approval.key ≡ (rt.find_program_address (approval_seeds rt v.mandate.key) program_id).0
  pub grants :
      o.pull_approval.state
      ≡ period_approval v.mandate.key period now valid_until result v.mandate.state.amount
          (rt.find_program_address (approval_seeds rt v.mandate.key) program_id).1
  pub completes : o.request_state.state ≡ record v.callback.request_state.state {
    status = ArciumRequestStatus.completed;
    completed_at = now;
  }

-- What a callback has found of the output and of the request.
record Heard {A : Type 0} (c : CallbackAccounts A) (mandate subject : ℕ) (output : A) : Type 0 where
  pub verified : c.verified ≡ some output
  pub pending : is_pending c.request_state.state.status ≡ true
  pub asked : c.request_state.state.mandate ≡ mandate
  pub about : c.request_state.state.subject ≡ subject

verified_output-some :
    {A : Type 0} (c : CallbackAccounts A) (output : A)
    → verified_output c ≡ ok output
    → c.verified ≡ some output
unfolding verified_output
verified_output-some c output h = ground arith

open_callback-Heard :
    {A : Type 0} (rt : Runtime) (ar : ArciumProgram) (c : CallbackAccounts A)
    (static_checks : ℕ → Result (Unit {0})) (mandate : ℕ) (flow : ArciumRequestFlow) (subject : ℕ)
    (output : A)
    → open_callback rt ar c static_checks mandate flow subject ≡ ok output
    → Heard c mandate subject output
unfolding open_callback validate_pending_arcium_request
open_callback-Heard rt ar c static_checks mandate flow subject output h = record {
  verified = verified_output-some c output (ground arith);
  pending = ground arith;
  asked = ground arith;
  about = ground arith;
}

pub validate_mandate_callback-Answered :
    (rt : Runtime) (ar : ArciumProgram) (v : ValidateMandateCallback) (now : ℤ)
    (o : CallbackOutcome)
    → validate_mandate_callback rt ar v now ≡ ok o
    → Answered rt v now o
unfolding validate_mandate_callback check_callback_accounts complete_arcium_request
validate_mandate_callback-Answered rt ar v now o h =
    elim (Result-cases (
      open_callback rt ar v.callback
        (validate_static_callback_accounts rt ar v.callback.mxe_account v.callback.comp_def_account
          "validate_mandate_v2")
        v.mandate.key ArciumRequestFlow.validation (i64_bits v.mandate.state.next_payment_due))) [
          | inr bad ↦ absurd (ground arith)
          | inl (result, er) ↦ elim (Result-cases (mandate_billing_period v.mandate.state)) [
            | inr bad ↦ absurd (ground arith)
            | inl (p, ep) ↦
                let heard =
                  open_callback-Heard rt ar v.callback
                    (validate_static_callback_accounts rt ar v.callback.mxe_account
                      v.callback.comp_def_account "validate_mandate_v2")
                    v.mandate.key ArciumRequestFlow.validation
                    (i64_bits v.mandate.state.next_payment_due) result er in
                record {
                  result = result;
                  period = p;
                  valid_until = now +ℤ pos 3600;
                  verified = heard.verified;
                  pending = heard.pending;
                  asked = heard.asked;
                  about = heard.about;
                  active = ground arith;
                  kind = ground arith;
                  bills = ep;
                  hour = refl;
                  at = ground arith;
                  grants = ground arith;
                  completes = ground arith;
                }
          ]
        ]

-- A mandate that is not metered has no report.
open_pull-unreported :
    (rt : Runtime) (c : ExecutePull) (now : ℤ) (due : Due)
    → Opened rt c now due
    → (into_current_mandate due.loaded).billing_type ≡ BillingType.flat
    → due.report ≡ none
unfolding usage_report_info
open_pull-unreported rt c now due opened flat = ground (arith, opened.reports)

is_flat-kind :
    (plan : LoadedPlanAccount) → plan_billing_type plan ≡ BillingType.flat → is_flat plan ≡ true
unfolding plan_billing_type is_flat
is_flat-kind plan h = ground arith

-- A flat mandate is charged for a flat plan.
open_pull-flat :
    (rt : Runtime) (c : ExecutePull) (now : ℤ) (due : Due)
    → Opened rt c now due
    → (into_current_mandate due.loaded).billing_type ≡ BillingType.flat
    → is_flat due.billed.active_plan ≡ true
open_pull-flat rt c now due opened flat =
    let m = into_current_mandate due.loaded in
    let kind =
      check_pull-kind c (keeper_authority opened.keeper) due.config opened.plan m opened.checked in
    is_flat-kind due.billed.active_plan
      (apply_pending-kind rt c m opened.plan due.report now due.billed kind opened.applies ∙ flat)

-- The account holds the approval that the callback has written.
pub record Stored (v : ValidateMandateCallback) (o : CallbackOutcome) (c : ExecutePull)
    : Type 0 where
  pub key : c.pull_approval.key ≡ o.pull_approval.key
  pub owner : c.pull_approval.owner ≡ program_id
  pub contents : c.pull_approval.contents ≡ AccountData.pull_approval (some o.pull_approval.state)
  pub mandate : c.mandate.key ≡ v.mandate.key

load_pull_approval-Stored :
    (rt : Runtime) (v : ValidateMandateCallback) (granted : ℤ) (o : CallbackOutcome)
    (c : ExecutePull)
    → Answered rt v granted o
    → Stored v o c
    → load_pull_approval rt c.pull_approval c.mandate.key ≡ ok o.pull_approval.state
unfolding load_pull_approval decode_pull_approval
load_pull_approval-Stored rt v granted o c a s =
    ground (arith, a.at, s.key, s.owner, s.contents, s.mandate)

check_approval_terms-Stored :
    (rt : Runtime) (v : ValidateMandateCallback) (granted now : ℤ) (o : CallbackOutcome)
    (c : ExecutePull)
    → (a : Answered rt v granted o) → Stored v o c
    → a.result ≡ true
    → now ≤ℤ granted +ℤ pos 3600
    → check_approval_terms o.pull_approval.state c.mandate.key a.period now ≡ ok tt
unfolding check_approval_terms period_approval
check_approval_terms-Stored rt v granted now o c a s said fresh = rw a.grants (
    ground
      (arith, eq_ℤ-refl a.period.0, eq_ℤ-refl a.period.1, ==_refl v.mandate.key, s.mandate, a.hour))

-- On the approval that a positive callback has written within the last hour, and if the mandate is
-- as it was at the callback, a pull charges the amount of the plan that is due, if that is no more
-- than the amount of the mandate was at the callback, and otherwise fails with
-- AmountExceedsPlanAmount.
pub approved_charge-validated :
    (rt : Runtime) (ar : ArciumProgram) (v : ValidateMandateCallback) (granted now : ℤ)
    (o : CallbackOutcome) (c : ExecutePull) (due : Due)
    → validate_mandate_callback rt ar v granted ≡ ok o
    → v.callback.verified ≡ some true
    → Stored v o c
    → open_pull rt c now ≡ ok due
    → into_current_mandate due.loaded ≡ v.mandate.state
    → now ≤ℤ granted +ℤ pos 3600
    → approved_charge rt c due now ≡ (
        if leb due.billed.mandate.amount v.mandate.state.amount
        then ok due.billed.mandate.amount
        else err (vela VelaError.amount_exceeds_plan_amount))
unfolding approved_charge base_charge check_reported period_approval
approved_charge-validated rt ar v granted now o c due answers said stored opens same fresh =
    let a = validate_mandate_callback-Answered rt ar v granted o answers in
    let opened = open_pull-Opened rt c now due opens in
    let result : a.result ≡ true = cc (a.verified, said) in
    let kind : (into_current_mandate due.loaded).billing_type ≡ BillingType.flat =
      ap (λ m. m.billing_type) same ∙ a.kind in
    let period : a.period ≡ due.period = cc (a.bills, opened.period, same) in
    let terms : check_approval_terms o.pull_approval.state c.mandate.key due.period now ≡ ok tt =
      rw (sym period) (check_approval_terms-Stored rt v granted now o c a stored result fresh) in
    let holds = load_pull_approval-Stored rt v granted o c a stored in
    let unreported = open_pull-unreported rt c now due opened kind in
    let flat = open_pull-flat rt c now due opened kind in
    let amount : o.pull_approval.state.approved_amount ≡ v.mandate.state.amount =
      ap (λ x. x.approved_amount) a.grants in
    ground (arith, terms, holds, unreported, flat, amount)
