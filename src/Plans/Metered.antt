-- ===== src/Plans/Metered.antt =====
-- plans/create_usage_plan.rs and plans/update_usage_plan.rs
use vela_protocol.Base.{
  ℕ, Option, none, some, not, ltb, ◌==◌, ◌||◌, List, [], ◌∷◌, length, take, is_some,
}
use vela_protocol.Errors.{
  Result, ok, err, vela, anchor, VelaError, AnchorError, ◌>>=◌, ◌>>◌, require, require_keys_eq,
}
use vela_protocol.State.{UsagePlan, PricingTier, PlanStatus, TokenConfig}
use vela_protocol.Runtime.{
  Runtime, Seed, AccountInfo, Loaded, Invocation, Event, default_pubkey, current_account_version,
  require_program,
}
use vela_protocol.Accounts.{
  LoadedPlanAccount, load_plan_account, plan_merchant, is_flat, write_usage_plan, merchant_seeds,
  ensure_merchant_state, resolve_merchant_credential_mint,
}
use vela_protocol.Arcium.Callback.{require_found, find}
use vela_protocol.Pricing.Tiers.{
  validate_usage_tier_boundaries, validate_usage_pricing_bounds, fill_tiers,
}
use vela_protocol.Plans.Flat.{
  PlanOutcome, check_plan_token, check_merchant_credential, updated, require_token_config,
  resize_plan,
}

-- `merchant` has signed; `usage_plan` is the account that Anchor has created.
pub record CreateUsagePlan : Type 0 where
  pub merchant : ℕ
  pub merchant_state : AccountInfo
  pub usage_plan : ℕ
  pub credential_mint : ℕ
  pub billing_mint : ℕ
  pub token_config : Loaded TokenConfig
  pub system_program : ℕ
  pub token_2022_program : ℕ

pub record UsagePlanCreated : Type 0 where
  pub usage_plan : Loaded UsagePlan
  pub merchant_state : AccountInfo
  pub invocations : List Invocation

-- `merchant` has signed; `plan_data_len` is the length of the plan's data.
pub record UpdateUsagePlan : Type 0 where
  pub merchant : ℕ
  pub usage_plan : AccountInfo
  pub plan_data_len : ℕ
  pub system_program : ℕ

-- `UsagePlan::SIZE`
abbrev pub usage_plan_size : ℕ
usage_plan_size = 316

abbrev pub usage_plan_seeds : (merchant plan_id : ℕ) → List Seed
usage_plan_seeds merchant plan_id =
    Seed.literal "usage_plan" ∷ Seed.pubkey merchant ∷ Seed.u64_le plan_id ∷ []

-- The checks of the terms at the creation.
unfoldable pub check_new_usage_terms :
    List PricingTier → (max_charge_per_period settlement_frequency : ℕ) → Result (Unit {0})
check_new_usage_terms tiers max_charge_per_period settlement_frequency = do
  validate_usage_tier_boundaries tiers
  require (ltb 0 max_charge_per_period) (vela VelaError.invalid_amount)
  require (ltb 0 settlement_frequency) (vela VelaError.invalid_frequency)
  validate_usage_pricing_bounds tiers max_charge_per_period

-- The usage plan of an account that loads as one, in the current layout.
unfoldable pub current_usage_plan : LoadedPlanAccount → Result UsagePlan
current_usage_plan (LoadedPlanAccount.usage p) = ok p
current_usage_plan (LoadedPlanAccount.legacy_usage p) = ok (record {
  merchant = p.merchant;
  plan_id = p.plan_id;
  unit_name = p.unit_name;
  tiers = p.tiers;
  tier_count = p.tier_count;
  max_charge_per_period = p.max_charge_per_period;
  settlement_frequency = p.settlement_frequency;
  credential_mint = p.credential_mint;
  billing_mint = default_pubkey;
  status = p.status;
  bump = p.bump;
  version = current_account_version;
})
current_usage_plan _ = err (vela VelaError.billing_type_mismatch)

-- `if let Some(new_tiers) = tiers { … }`
unfoldable pub update_tiers :
    UsagePlan → Option (List PricingTier) → (next_max_charge : ℕ) → Result UsagePlan
update_tiers plan none next_max_charge = ok plan
update_tiers plan (some tiers) next_max_charge = do
  validate_usage_tier_boundaries tiers
  validate_usage_pricing_bounds tiers next_max_charge
  ok (record plan { tiers = fill_tiers 5 tiers; tier_count = length tiers })

-- `if let Some(value) = update { require!(value > 0, error); … }`
unfoldable pub positive_update : (old : ℕ) → Option ℕ → VelaError → Result ℕ
positive_update old none error = ok old
positive_update old (some value) error = do require (ltb 0 value) (vela error); ok value

-- `if next_tiers_vec.is_none() { … }`
unfoldable pub check_kept_tiers : UsagePlan → Option (List PricingTier) → Result (Unit {0})
check_kept_tiers plan (some tiers) = ok tt
check_kept_tiers plan none =
    validate_usage_pricing_bounds (take plan.tier_count plan.tiers) plan.max_charge_per_period

-- The updates of a plan, in their order.
unfoldable pub update_usage_terms :
    UsagePlan
    → Option (List PricingTier)
    → (max_charge_per_period settlement_frequency : Option ℕ) → Result UsagePlan
unfolding update_tiers positive_update check_kept_tiers
update_usage_terms plan tiers max_charge_per_period settlement_frequency = do
  let next_max_charge = updated plan.max_charge_per_period max_charge_per_period
  tiered ← update_tiers plan tiers next_max_charge
  max_charge ←
      positive_update plan.max_charge_per_period max_charge_per_period VelaError.invalid_amount
  let charged = record tiered { max_charge_per_period = max_charge }
  check_kept_tiers charged tiers
  frequency ←
      positive_update plan.settlement_frequency settlement_frequency VelaError.invalid_frequency
  ok (record charged { settlement_frequency = frequency })

module _ (rt : Runtime) where
  -- The constraints that stand at the accounts' declarations.
  unfoldable pub check_create_usage_accounts : CreateUsagePlan → (plan_id : ℕ) → Result (Unit {0})
  check_create_usage_accounts c plan_id = do
    let credential_seeds =
        Seed.literal "usage_credential" ∷ Seed.pubkey c.merchant ∷ Seed.u64_le plan_id ∷ []
    require_found rt (merchant_seeds c.merchant) c.merchant_state.key
    require_found rt (usage_plan_seeds c.merchant plan_id) c.usage_plan
    require_found rt credential_seeds c.credential_mint
    require_token_config rt c.billing_mint c.token_config
    require_program c.system_program rt.system_program_id

  unfoldable pub create_usage_plan :
      CreateUsagePlan
      → (plan_id unit_name : ℕ) (tiers : List PricingTier)
        (max_charge_per_period settlement_frequency : ℕ)
      → Result UsagePlanCreated
  create_usage_plan c plan_id unit_name tiers max_charge_per_period settlement_frequency = do
    check_create_usage_accounts c plan_id
    check_new_usage_terms tiers max_charge_per_period settlement_frequency
    require_keys_eq c.token_2022_program rt.token_2022_id
        (anchor AnchorError.require_keys_eq_violated)
    (state, state_info, calls) ←
        ensure_merchant_state rt c.merchant c.merchant_state c.merchant
          (find rt (merchant_seeds c.merchant)).1
    let resolved = resolve_merchant_credential_mint rt state_info c.merchant c.credential_mint
    check_merchant_credential state resolved
    check_plan_token c.token_config.state c.billing_mint
    ok (record {
      usage_plan = record {
        key = c.usage_plan;
        state = record {
          merchant = c.merchant;
          plan_id = plan_id;
          unit_name = unit_name;
          tiers = fill_tiers 5 tiers;
          tier_count = length tiers;
          max_charge_per_period = max_charge_per_period;
          settlement_frequency = settlement_frequency;
          credential_mint = resolved;
          billing_mint = c.billing_mint;
          status = PlanStatus.active;
          bump = (find rt (usage_plan_seeds c.merchant plan_id)).1;
          version = current_account_version;
        };
      };
      merchant_state = state_info;
      invocations = calls;
    })

  unfoldable pub update_usage_plan :
      UpdateUsagePlan
      → Option (List PricingTier)
      → (max_charge_per_period settlement_frequency : Option ℕ) → Result PlanOutcome
  update_usage_plan c tiers max_charge_per_period settlement_frequency = do
    require_program c.system_program rt.system_program_id
    require (is_some tiers || is_some max_charge_per_period || is_some settlement_frequency)
        (vela VelaError.no_update_provided)
    loaded ← load_plan_account rt c.usage_plan
    require (not (is_flat loaded)) (vela VelaError.billing_type_mismatch)
    require (plan_merchant loaded == c.merchant) (vela VelaError.unauthorized_cancel)
    old ← current_usage_plan loaded
    plan ← update_usage_terms old tiers max_charge_per_period settlement_frequency
    (resized, calls) ← resize_plan rt c.merchant c.plan_data_len usage_plan_size c.usage_plan
    let event = Event.usage_plan_updated (record {
      plan = c.usage_plan.key;
      merchant = c.merchant;
      plan_id = plan.plan_id;
      old_max_charge_per_period = old.max_charge_per_period;
      new_max_charge_per_period = plan.max_charge_per_period;
      old_settlement_frequency = old.settlement_frequency;
      new_settlement_frequency = plan.settlement_frequency;
      old_tier_count = old.tier_count;
      new_tier_count = plan.tier_count;
    })
    ok (record { plan = write_usage_plan resized plan; invocations = calls; events = event ∷ [] })
