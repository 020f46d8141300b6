-- ===== src/Billing/Computation/Report.antt =====
-- billing/submit_usage_report.rs
use vela_protocol.Base.{
  ℕ, false, zero, suc, ltb, leb, ◌==◌, ◌&&◌, List, [], ◌∷◌, length, take, get_elem?,
}
use vela_protocol.Base.Int.{ℤ, ltb_ℤ, leb_ℤ, eq_ℤ}
use vela_protocol.Errors.{
  Result, ok, err, vela, VelaError, ◌>>=◌, ◌>>◌, require, require_keys_eq, ok_or,
}
use vela_protocol.State.{VelaMandate, PricingTier, UsageReport, BillingType, is_plan_active}
use vela_protocol.Runtime.{Runtime, Seed, AccountInfo, Loaded, require_program}
use vela_protocol.Accounts.{
  LoadedPlanAccount, load_plan_account, plan_status, plan_merchant, require_plan_billing_type,
  usage_terms_hash, usage_tier_count, load_mandate_account, validate_loaded_mandate_address,
  into_current_mandate, mandate_billing_period,
}
use vela_protocol.Pricing.Tiers.{validate_usage_pricing_bounds}
use vela_protocol.Arcium.Callback.{require_found, find}
use vela_protocol.Billing.Pull.{is_mandate_active, is_usage}

-- `merchant` has signed; `usage_report` is the account that Anchor has created.
pub record SubmitUsageReport : Type 0 where
  pub merchant : ℕ
  pub mandate : AccountInfo
  pub usage_plan : AccountInfo
  pub usage_report : ℕ
  pub system_program : ℕ

unfoldable pub check_tiers :
    (tiers : List PricingTier) (tier_count max_charge_per_period : ℕ) → Result (Unit {0})
check_tiers tiers tier_count max_charge_per_period = do
  require (ltb 0 tier_count && leb tier_count 5) (vela VelaError.invalid_tier_count)
  validate_usage_pricing_bounds (take tier_count tiers) max_charge_per_period

unfoldable pub validate_loaded_usage_pricing_bounds : LoadedPlanAccount → Result (Unit {0})
unfolding check_tiers
validate_loaded_usage_pricing_bounds (LoadedPlanAccount.usage p) =
    check_tiers p.tiers p.tier_count p.max_charge_per_period
validate_loaded_usage_pricing_bounds (LoadedPlanAccount.legacy_usage p) =
    check_tiers p.tiers p.tier_count p.max_charge_per_period
validate_loaded_usage_pricing_bounds _ = err (vela VelaError.billing_type_mismatch)

abbrev zeros : ℕ → List ℕ
zeros zero = []
zeros (suc n) = 0 ∷ zeros n

-- The units' ciphertext and the hash of the plan's terms, in an array of thirteen.
abbrev report_ciphertexts : (units terms_hash : ℕ) → List ℕ
report_ciphertexts units terms_hash = units ∷ terms_hash ∷ zeros 11

-- The checks of the signer, the mandate and the plan's address.
unfoldable pub check_report : SubmitUsageReport → VelaMandate → Result (Unit {0})
check_report c mandate = do
  require (c.merchant == mandate.merchant) (vela VelaError.unauthorized_keeper)
  require (is_usage mandate.billing_type) (vela VelaError.billing_type_mismatch)
  require (is_mandate_active mandate.status) (vela VelaError.mandate_not_active)
  require_keys_eq c.usage_plan.key mandate.plan (vela VelaError.plan_not_active)

-- The checks of the plan and of the number of ciphertexts.
unfoldable pub check_report_plan :
    LoadedPlanAccount → (merchant : ℕ) (computation_ciphertext : List ℕ) → Result (Unit {0})
check_report_plan plan merchant computation_ciphertext = do
  require_plan_billing_type plan BillingType.usage
  require (is_plan_active (plan_status plan)) (vela VelaError.plan_not_active)
  require_keys_eq (plan_merchant plan) merchant (vela VelaError.billing_type_mismatch)
  tier_count ← ok_or (usage_tier_count plan) (vela VelaError.billing_type_mismatch)
  require (ltb 0 tier_count && leb tier_count 5) (vela VelaError.invalid_tier_count)
  validate_loaded_usage_pricing_bounds plan
  require (length computation_ciphertext == 1) (vela VelaError.invalid_ciphertext_input)

-- The report is for the period.
unfoldable pub check_report_period : UsageReport → (period : ℤ × ℤ) → Result (Unit {0})
check_report_period report period =
    require (eq_ℤ report.period_start period.0 && eq_ℤ report.period_end period.1)
      (vela VelaError.period_mismatch)

module _ (rt : Runtime) where
  abbrev pub report_seeds : (mandate : ℕ) (period_start : ℤ) → List Seed
  report_seeds mandate period_start =
      Seed.literal "usage_report" ∷ Seed.pubkey mandate ∷ Seed.i64_le period_start ∷ []

  unfoldable pub submit_usage_report :
      SubmitUsageReport
      → (period_start period_end : ℤ) (computation_ciphertext : List ℕ) (nonce pub_key : ℕ)
        (now : ℤ)
      → Result (Loaded UsageReport)
  submit_usage_report c period_start period_end computation_ciphertext nonce pub_key now = do
    require_found rt (report_seeds c.mandate.key period_start) c.usage_report
    require_program c.system_program rt.system_program_id
    loaded ← load_mandate_account c.mandate
    validate_loaded_mandate_address rt c.mandate.key loaded
    let mandate = into_current_mandate loaded
    check_report c mandate
    plan ← load_plan_account rt c.usage_plan
    check_report_plan plan mandate.merchant computation_ciphertext
    period ← mandate_billing_period mandate
    require (ltb_ℤ period_start period_end) (vela VelaError.invalid_period)
    require (eq_ℤ period_start period.0 && eq_ℤ period_end period.1)
        (vela VelaError.period_mismatch)
    require (leb_ℤ period_end now) (vela VelaError.pull_too_early)
    units ← ok_or (get_elem? computation_ciphertext 0) (vela VelaError.invalid_ciphertext_input)
    terms_hash ← usage_terms_hash rt plan c.usage_plan.key
    ok (record {
      key = c.usage_report;
      state = record {
        mandate = c.mandate.key;
        merchant = mandate.merchant;
        period_start = period_start;
        period_end = period_end;
        computation_ciphertext = report_ciphertexts units terms_hash;
        ciphertext_count = 1;
        nonce = nonce;
        pub_key = pub_key;
        settled = false;
        created_at = now;
        bump = (find rt (report_seeds c.mandate.key period_start)).1;
      };
    })
