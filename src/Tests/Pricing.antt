-- ===== src/Tests/Pricing.antt =====
-- Metered plans, and what they charge.
use vela_protocol.Base.{◌≡◌, refl, List, [], ◌∷◌, some, none, length, min, arith}
use vela_protocol.Errors.{ok}
use vela_protocol.State.{UsagePlan, PricingTier, PlanStatus}
use vela_protocol.Runtime.{Seed, AccountInfo, AccountData, program_id}
use vela_protocol.Accounts.{
  LoadedPlanAccount, load_plan_account, decode_plan, load_usage_plan_inner, validate_plan_address,
  plan_merchant, is_flat, write_usage_plan, merchant_seeds, into_current_merchant,
  decode_merchant_state, write_merchant_state, validate_merchant_state_address, load_merchant_state,
  resolve_merchant_credential_mint, resize_merchant_state_account, ensure_merchant_state,
}
use vela_protocol.Pricing.Tiers.{
  check_tier_boundaries, validate_usage_tier_boundaries, check_tier_bounds,
  validate_usage_pricing_bounds, fill_tiers,
}
use vela_protocol.Pricing.Circuits.{price_tiers, tiered_pricing_plaintext_model}
use vela_protocol.Pricing.Units.{charge_by_unit}
use vela_protocol.Pricing.Agreement.{tiered_pricing-eq-unit}
use vela_protocol.Plans.Flat.{check_plan_token, check_merchant_credential, resize_plan, PlanOutcome}
use vela_protocol.Plans.Metered.{
  CreateUsagePlan, UsagePlanCreated, UpdateUsagePlan, usage_plan_seeds, check_new_usage_terms,
  current_usage_plan, update_tiers, positive_update, check_kept_tiers, update_usage_terms,
  check_create_usage_accounts, create_usage_plan, update_usage_plan,
}
use vela_protocol.Plans.Priced.{
  Priced, create_usage_plan-Priced, HoldsPlan, update_usage_plan-Priced,
}
use vela_protocol.Tests.Fixture.{runtime, from_ok, address, token_config, token_config_account}

-- The first hundred units cost 5 each, the others 3.
abbrev tiers : List PricingTier
tiers = record { up_to = 100; rate_per_unit = 5 } ∷ record { up_to = 0; rate_per_unit = 3 } ∷ []

tiers_run :
    (validate_usage_tier_boundaries tiers ≡ ok tt)
    × (validate_usage_pricing_bounds tiers 600 ≡ ok tt)
unfolding check_tier_boundaries validate_usage_tier_boundaries check_tier_bounds
    validate_usage_pricing_bounds
tiers_run = (refl, refl)

tiered_pricing-eq-unit_example :
    (price_tiers 150 (fill_tiers 5 tiers) (length tiers) 600 ≡ min (charge_by_unit tiers 150) 600)
    × (tiered_pricing_plaintext_model 150 (fill_tiers 5 tiers) (length tiers) 600
        ≡ min (charge_by_unit tiers 150) 600)
tiered_pricing-eq-unit_example =
    tiered_pricing-eq-unit tiers 150 600 600 tiers_run.0 tiers_run.1 (ground arith)

abbrev pub merchant_account : AccountInfo
merchant_account = record {
  key = address (merchant_seeds 12);
  owner = program_id;
  lamports = 2000;
  contents = AccountData.merchant_state (record {
    current = some (record {
      merchant = 12;
      plan_count = 1;
      bump = 255;
      credential_mint = 41;
      mandate_counter = 0;
      stream_mandate_counter = 0;
      version = 1;
    });
    legacy = none;
  });
}

abbrev creating : CreateUsagePlan
creating = record {
  merchant = 12;
  merchant_state = merchant_account;
  usage_plan = address (usage_plan_seeds 12 7);
  credential_mint = address (Seed.literal "usage_credential" ∷ Seed.pubkey 12 ∷ Seed.u64_le 7 ∷ []);
  billing_mint = 14;
  token_config = record { key = token_config_account.key; state = token_config };
  system_program = 103;
  token_2022_program = 101;
}

abbrev metered : UsagePlan
metered = record {
  merchant = 12;
  plan_id = 7;
  unit_name = 9;
  tiers = fill_tiers 5 tiers;
  tier_count = 2;
  max_charge_per_period = 600;
  settlement_frequency = 3600;
  credential_mint = 41;
  billing_mint = 14;
  status = PlanStatus.active;
  bump = 255;
  version = 1;
}

abbrev created : UsagePlanCreated
created =
    from_ok
      (record {
        usage_plan = record { key = 0; state = metered };
        merchant_state = merchant_account;
        invocations = [];
      })
      (create_usage_plan runtime creating 7 9 tiers 600 3600)

create_usage_plan_runs : create_usage_plan runtime creating 7 9 tiers 600 3600 ≡ ok created
unfolding check_tier_boundaries validate_usage_tier_boundaries check_tier_bounds
    validate_usage_pricing_bounds fill_tiers into_current_merchant decode_merchant_state
    write_merchant_state validate_merchant_state_address load_merchant_state
    resolve_merchant_credential_mint resize_merchant_state_account ensure_merchant_state
    check_plan_token check_merchant_credential check_new_usage_terms check_create_usage_accounts
    create_usage_plan
create_usage_plan_runs = refl

create_usage_plan-Priced_example : Priced created.usage_plan.state
create_usage_plan-Priced_example =
    create_usage_plan-Priced runtime creating 7 9 tiers 600 3600 created create_usage_plan_runs

-- The largest charge becomes 900.
abbrev updating : UpdateUsagePlan
updating = record {
  merchant = 12;
  usage_plan = record {
    key = address (usage_plan_seeds 12 7);
    owner = program_id;
    lamports = 4000;
    contents = AccountData.usage_plan (record { current = some metered; legacy = none });
  };
  plan_data_len = 316;
  system_program = 103;
}

abbrev updated : PlanOutcome
updated =
    from_ok (record { plan = updating.usage_plan; invocations = []; events = [] })
      (update_usage_plan runtime updating none (some 900) none)

update_usage_plan_runs :
    (update_usage_plan runtime updating none (some 900) none ≡ ok updated)
    × (load_plan_account runtime updating.usage_plan ≡ ok (LoadedPlanAccount.usage metered))
    × (current_usage_plan (LoadedPlanAccount.usage metered) ≡ ok metered)
unfolding check_tier_boundaries validate_usage_tier_boundaries check_tier_bounds
    validate_usage_pricing_bounds fill_tiers load_plan_account decode_plan load_usage_plan_inner
    validate_plan_address plan_merchant is_flat write_usage_plan resize_plan current_usage_plan
    update_tiers positive_update check_kept_tiers update_usage_terms update_usage_plan
update_usage_plan_runs = (refl, refl, refl)

metered-Priced : Priced metered
metered-Priced = record {
  tiers = tiers;
  stored = refl;
  count = refl;
  shape = tiers_run.0;
  safe = tiers_run.1;
  charge = ground arith;
  frequency = ground arith;
}

update_usage_plan-Priced_example : (next : UsagePlan) × HoldsPlan updated.plan next × Priced next
update_usage_plan-Priced_example =
    update_usage_plan-Priced runtime updating none (some 900) none updated
      (LoadedPlanAccount.usage metered) metered update_usage_plan_runs.0 update_usage_plan_runs.1
      update_usage_plan_runs.2 metered-Priced
