-- ===== src/Billing/Computation/Usage.antt =====
-- billing/request_usage_computation.rs
use vela_protocol.Base.{
  ℕ, String, true, false, not, ◌==◌, if◌then◌else◌, List, [], ◌∷◌, ◌++◌, map, get_elem?, take,
}
use vela_protocol.Base.Int.{ℤ, leb_ℤ}
use vela_protocol.Base.Machine.{u64_checked_add}
use vela_protocol.Errors.{Result, ok, vela, VelaError, ◌>>=◌, ◌>>◌, require, require_keys_eq, ok_or}
use vela_protocol.State.{VelaMandate, PullApproval, PricingTier, UsagePlan, UsageReport}
use vela_protocol.Runtime.{Runtime, Seed, AccountInfo, Loaded, program_id, require_created}
use vela_protocol.Accounts.{
  load_mandate_account, validate_loaded_mandate_address, is_legacy_mandate, into_current_mandate,
  mandate_billing_period, write_mandate, usage_plan_terms_hash_from_parts,
}
use vela_protocol.Arcium.Request.{ArciumRequestState, ArciumRequestFlow, start_arcium_request}
use vela_protocol.Arcium.Accounts.{
  ArciumProgram, Argument, Queued, QueueAccounts, i64_bits, derive_usage_computation_offset,
  validate_queue_accounts, build_callback_instruction,
}
use vela_protocol.Arcium.Callback.{
  load_arcium_config, check_offset, request_seeds, approval_seeds, require_found, find,
  reset_approval,
}
use vela_protocol.Billing.Pull.{is_mandate_active, is_usage}
use vela_protocol.Billing.Computation.Common.{
  RequestOutcome, check_no_approval, check_request_accounts,
}
use vela_protocol.Billing.Computation.Report.{check_tiers, report_seeds, check_report_period}

-- `pull_approval` and `request_state` are zero where Anchor has just created them.
pub record RequestUsageComputation : Type 0 where
  pub config : AccountInfo
  pub queue : QueueAccounts
  pub sign_pda_account : ℕ
  pub usage_plan : Loaded UsagePlan
  pub mandate : AccountInfo
  pub usage_report : Loaded UsageReport
  pub pull_approval : Loaded PullApproval
  pub request_state : Loaded ArciumRequestState
  pub system_program : ℕ
  pub arcium_program : ℕ

abbrev pub usage_charge_circuit : String
usage_charge_circuit = "usage_charge_v2"

abbrev pub tiered_pricing_circuit : String
tiered_pricing_circuit = "tiered_pricing_v2"

unfoldable pub circuit_name : (tier_count : ℕ) → String
circuit_name tier_count = if tier_count == 1 then usage_charge_circuit else tiered_pricing_circuit

abbrev first_rate : List PricingTier → ℕ
first_rate [] = 0
first_rate (tier ∷ rest) = tier.rate_per_unit

-- The plan's terms among the arguments.
unfoldable pub term_arguments : UsagePlan → List Argument
term_arguments plan =
    if plan.tier_count == 1
    then (Argument.plaintext_u64 (first_rate plan.tiers)
        ∷ Argument.plaintext_u64 plan.max_charge_per_period
        ∷ [])
    else (map (λ (tier : PricingTier). Argument.plaintext_u64 tier.up_to) plan.tiers
        ++ map (λ (tier : PricingTier). Argument.plaintext_u64 tier.rate_per_unit) plan.tiers
        ++ Argument.plaintext_u8 plan.tier_count
          ∷ Argument.plaintext_u64 plan.max_charge_per_period
          ∷ [])

-- The arguments that the builder is given: the encrypted units, and the plan's terms.
unfoldable pub usage_arguments : UsageReport → UsagePlan → List Argument
unfolding term_arguments
usage_arguments report plan =
    Argument.x25519_pubkey report.pub_key
      ∷ Argument.plaintext_u128 report.nonce
      ∷ map Argument.encrypted_u64 (take 1 report.computation_ciphertext)
    ++ term_arguments plan

-- The checks of the mandate and the report.
unfoldable pub check_usage_request : RequestUsageComputation → VelaMandate → Result (Unit {0})
check_usage_request c mandate = do
  let report = c.usage_report.state
  require (is_usage mandate.billing_type) (vela VelaError.billing_type_mismatch)
  require_keys_eq c.usage_plan.key mandate.plan (vela VelaError.plan_not_active)
  require (is_mandate_active mandate.status) (vela VelaError.mandate_not_active)
  require (not report.settled) (vela VelaError.usage_report_already_settled)
  require_keys_eq report.mandate c.mandate.key (vela VelaError.billing_type_mismatch)
  require_keys_eq report.merchant mandate.merchant (vela VelaError.billing_type_mismatch)

module _ (rt : Runtime) (ar : ArciumProgram) where
  -- The constraints that stand at the accounts' declarations.
  unfoldable pub check_usage_request_accounts : RequestUsageComputation → Result (Unit {0})
  check_usage_request_accounts c = do
    let plan = c.usage_plan.state
    let report = c.usage_report.state
    let plan_seeds =
        Seed.literal "usage_plan"
        ∷ Seed.pubkey plan.merchant
        ∷ Seed.u64_le plan.plan_id
        ∷ Seed.bump plan.bump
        ∷ []
    let bumped_report =
        report_seeds rt c.mandate.key report.period_start ++ Seed.bump report.bump ∷ []
    let state_seeds = request_seeds "usage" c.mandate.key (Seed.i64_le report.period_start)
    check_request_accounts rt ar c.config c.sign_pda_account c.system_program c.arcium_program
    require_created (rt.create_program_address plan_seeds program_id) c.usage_plan.key
    require_created (rt.create_program_address bumped_report program_id) c.usage_report.key
    require_found rt (approval_seeds rt c.mandate.key) c.pull_approval.key
    require_found rt state_seeds c.request_state.key

  -- The checks of the report's ciphertexts against the plan.
  unfoldable pub check_usage_terms : (plan_key : ℕ) → UsagePlan → UsageReport → Result (Unit {0})
  check_usage_terms plan_key plan report = do
    require (report.ciphertext_count == 1) (vela VelaError.invalid_ciphertext_input)
    check_tiers plan.tiers plan.tier_count plan.max_charge_per_period
    let expected_terms_hash =
        usage_plan_terms_hash_from_parts rt plan_key plan.merchant plan.plan_id plan.tiers
          plan.tier_count plan.max_charge_per_period plan.settlement_frequency
    reported ←
        ok_or (get_elem? report.computation_ciphertext 1) (vela VelaError.invalid_ciphertext_input)
    require (reported == expected_terms_hash) (vela VelaError.invalid_ciphertext_input)

  unfoldable pub request_usage_computation :
      RequestUsageComputation → (requested_computation_offset : ℕ) (now : ℤ) → Result RequestOutcome
  request_usage_computation c requested_computation_offset now = do
    let plan = c.usage_plan.state
    let report = c.usage_report.state
    let state_seeds = request_seeds "usage" c.mandate.key (Seed.i64_le report.period_start)
    let circuit = circuit_name plan.tier_count
    check_usage_request_accounts c
    loaded ← load_mandate_account c.mandate
    validate_loaded_mandate_address rt c.mandate.key loaded
    let mandate = into_current_mandate loaded
    check_usage_request c mandate
    period ← mandate_billing_period mandate
    check_report_period report period
    require (leb_ℤ period.1 now) (vela VelaError.pull_too_early)
    (config, mxe_program_id) ← load_arcium_config rt ar c.config
    next_nonce ←
        ok_or (u64_checked_add mandate.validation_request_nonce 1) (vela VelaError.overflow)
    let computation_offset =
        derive_usage_computation_offset rt ar c.mandate.key report.period_start next_nonce
    check_offset config c.queue.cluster_account requested_computation_offset computation_offset
    check_usage_terms c.usage_plan.key plan report
    validate_queue_accounts rt ar c.queue config.cluster_offset computation_offset circuit
        mxe_program_id
    check_no_approval c.pull_approval.state c.mandate.key period now
    started ← start_arcium_request c.request_state.state (record {
      mandate = c.mandate.key;
      flow = ArciumRequestFlow.usage_computation;
      subject = i64_bits report.period_start;
      computation_offset = computation_offset;
      request_nonce = next_nonce;
      bump = (find rt state_seeds).1;
      now = now;
    })
    callback ←
        build_callback_instruction rt ar (201 ∷ 76 ∷ 6 ∷ 25 ∷ 189 ∷ 59 ∷ 96 ∷ 63 ∷ [])
          computation_offset config.cluster_offset circuit mxe_program_id
          (record { pubkey = c.request_state.key; is_writable = true }
            ∷ record { pubkey = c.pull_approval.key; is_writable = true }
            ∷ record { pubkey = c.config.key; is_writable = false }
            ∷ record { pubkey = c.mandate.key; is_writable = false }
            ∷ record { pubkey = c.usage_report.key; is_writable = true }
            ∷ [])
    let queued : Queued = record {
      computation_offset = computation_offset;
      args = usage_arguments report plan;
      callback = callback;
    }
    ar.queue_computation queued
    ok (record {
      mandate =
          write_mandate c.mandate (record mandate { validation_request_nonce = next_nonce })
            (is_legacy_mandate loaded);
      pull_approval = record {
        key = c.pull_approval.key;
        state = reset_approval (find rt (approval_seeds rt c.mandate.key)).1;
      };
      request_state = record { key = c.request_state.key; state = started };
      queued = queued;
    })
