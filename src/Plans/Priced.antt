-- ===== src/Plans/Priced.antt =====
-- The usage plans that are stored can be priced: create_usage_plan.rs and update_usage_plan.rs.
use vela_protocol.Base.{
  ℕ, zero, suc, ◌≤◌, ◌<◌, Option, none, some, ◌≡◌, refl, ap, ◌∙◌, arith, inl, inr, List, [], ◌∷◌,
  length, take, min,
}
use vela_protocol.Errors.{ok, VelaError, Result-cases}
use vela_protocol.State.{UsagePlan, PricingTier}
use vela_protocol.Runtime.{Runtime, AccountInfo, AccountData}
use vela_protocol.Accounts.{LoadedPlanAccount, load_plan_account, write_usage_plan}
use vela_protocol.Pricing.Tiers.{
  validate_usage_tier_boundaries, validate_usage_pricing_bounds, fill_tiers, max_safe_usage_units,
}
use vela_protocol.Pricing.Circuits.{price_tiers}
use vela_protocol.Pricing.Units.{charge_by_unit}
use vela_protocol.Pricing.Agreement.{tiered_pricing-eq-unit}
use vela_protocol.Plans.Flat.{PlanOutcome, updated}
use vela_protocol.Plans.Metered.{
  CreateUsagePlan, UsagePlanCreated, UpdateUsagePlan, check_new_usage_terms, current_usage_plan,
  positive_update, update_usage_terms, create_usage_plan, update_usage_plan,
}

-- The tiers that count stand at the beginning of the array and pass the checks, and the terms are
-- not zero.
pub record Priced (p : UsagePlan) : Type 0 where
  pub tiers : List PricingTier
  pub stored : p.tiers ≡ fill_tiers 5 tiers
  pub count : p.tier_count ≡ length tiers
  pub shape : validate_usage_tier_boundaries tiers ≡ ok tt
  pub safe : validate_usage_pricing_bounds tiers p.max_charge_per_period ≡ ok tt
  pub charge : 0 < p.max_charge_per_period
  pub frequency : 0 < p.settlement_frequency

take-fill_tiers :
    (n : ℕ) (tiers : List PricingTier)
    → length tiers ≤ n
    → take (length tiers) (fill_tiers n tiers) ≡ tiers
unfolding fill_tiers
take-fill_tiers n [] few = refl
take-fill_tiers zero (tier ∷ rest) few = absurd (omega arith)
take-fill_tiers (suc n) (tier ∷ rest) few =
    ap (λ tiers. tier ∷ tiers) (take-fill_tiers n rest (omega arith))

shape-few :
    (tiers : List PricingTier) → validate_usage_tier_boundaries tiers ≡ ok tt → length tiers ≤ 5
unfolding validate_usage_tier_boundaries
shape-few tiers h = ground arith

-- A creation of a usage plan that succeeds writes a plan that can be priced: its array holds tiers
-- that pass the checks of boundaries and bounds, and its charge and frequency are positive.
pub create_usage_plan-Priced :
    (rt : Runtime) (c : CreateUsagePlan) (plan_id unit_name : ℕ) (tiers : List PricingTier)
    (max_charge frequency : ℕ) (o : UsagePlanCreated)
    → create_usage_plan rt c plan_id unit_name tiers max_charge frequency ≡ ok o
    → Priced o.usage_plan.state
unfolding create_usage_plan check_new_usage_terms
create_usage_plan-Priced rt c plan_id unit_name tiers max_charge frequency o h = record {
  tiers = tiers;
  stored = ground arith;
  count = ground arith;
  shape = ground arith;
  safe = ground arith;
  charge = ground arith;
  frequency = ground arith;
}

positive_update-updated :
    (old : ℕ) (update : Option ℕ) (error : VelaError) (value : ℕ)
    → positive_update old update error ≡ ok value
    → 0 < old
    → (value ≡ updated old update) × (0 < value)
unfolding positive_update
positive_update-updated old none error value h positive = (ground arith, ground arith)
positive_update-updated old (some v) error value h positive = (ground arith, ground arith)

-- The two numbers of a plan after an update.
record Numbers (p next : UsagePlan) (max_charge : Option ℕ) : Type 0 where
  pub same : next.max_charge_per_period ≡ updated p.max_charge_per_period max_charge
  pub charge : 0 < next.max_charge_per_period
  pub frequency : 0 < next.settlement_frequency

update_usage_terms-Numbers :
    (p next : UsagePlan) (tiers : Option (List PricingTier)) (max_charge frequency : Option ℕ)
    → update_usage_terms p tiers max_charge frequency ≡ ok next
    → Priced p
    → Numbers p next max_charge
unfolding update_usage_terms
update_usage_terms-Numbers p next tiers max_charge frequency h old =
    elim (Result-cases
      (positive_update p.max_charge_per_period max_charge VelaError.invalid_amount)) [
        | inr bad ↦ absurd (ground arith)
        | inl (m, em) ↦
            elim (Result-cases
              (positive_update p.settlement_frequency frequency VelaError.invalid_frequency)) [
                | inr bad ↦ absurd (ground arith)
                | inl (f, ef) ↦
                    let (same, charge) =
                      positive_update-updated p.max_charge_per_period max_charge
                        VelaError.invalid_amount m em old.charge in
                    let (same_frequency, positive) =
                      positive_update-updated p.settlement_frequency frequency
                        VelaError.invalid_frequency f ef old.frequency in
                    let is_m : next.max_charge_per_period ≡ m = ground arith in
                    let is_f : next.settlement_frequency ≡ f = ground arith in
                    record {
                      same = is_m ∙ same;
                      charge = rw is_m charge;
                      frequency = rw is_f positive;
                    }
              ]
      ]

update_usage_terms-Priced :
    (p next : UsagePlan) (tiers : Option (List PricingTier)) (max_charge frequency : Option ℕ)
    → update_usage_terms p tiers max_charge frequency ≡ ok next
    → Priced p
    → Priced next
unfolding update_usage_terms
update_usage_terms-Priced p next (some tiers) max_charge frequency h old =
    let n = update_usage_terms-Numbers p next (some tiers) max_charge frequency h old in
    record {
      tiers = tiers;
      stored = ground arith;
      count = ground arith;
      shape = ground arith;
      safe = rw n.same (ground arith);
      charge = n.charge;
      frequency = n.frequency;
    }
update_usage_terms-Priced p next none max_charge frequency h old =
    let n = update_usage_terms-Numbers p next none max_charge frequency h old in
    let kept : take p.tier_count p.tiers ≡ old.tiers =
      rw old.stored (rw old.count (take-fill_tiers 5 old.tiers (shape-few old.tiers old.shape))) in
    let checked : validate_usage_pricing_bounds (take p.tier_count p.tiers)
          next.max_charge_per_period
        ≡ ok tt =
      ground arith in
    record {
      tiers = old.tiers;
      stored = ground (arith, old.stored);
      count = ground (arith, old.count);
      shape = old.shape;
      safe = rw kept at checked;
      charge = n.charge;
      frequency = n.frequency;
    }

-- The account holds the usage plan.
abbrev pub HoldsPlan : AccountInfo → UsagePlan → Type 0
HoldsPlan info p =
    info.contents ≡ AccountData.usage_plan (record { current = some p; legacy = none })

-- An update of a usage plan that could be priced leaves a plan that can be priced.
pub update_usage_plan-Priced :
    (rt : Runtime) (c : UpdateUsagePlan) (tiers : Option (List PricingTier))
    (max_charge frequency : Option ℕ) (o : PlanOutcome) (loaded : LoadedPlanAccount)
    (old : UsagePlan)
    → update_usage_plan rt c tiers max_charge frequency ≡ ok o
    → load_plan_account rt c.usage_plan ≡ ok loaded
    → current_usage_plan loaded ≡ ok old
    → Priced old
    → (next : UsagePlan) × HoldsPlan o.plan next × Priced next
unfolding update_usage_plan write_usage_plan
update_usage_plan-Priced rt c tiers max_charge frequency o loaded old h loads current priced =
    elim (Result-cases (update_usage_terms old tiers max_charge frequency)) [
      | inr bad ↦ absurd (ground arith)
      | inl (next, e) ↦ (
        next,
        ground arith,
        update_usage_terms-Priced old next tiers max_charge frequency e priced,
      )
    ]

-- For a safe number of units the circuit charges on such a plan the price unit by unit, up to the
-- plan's maximum.
pub Priced-charge :
    (p : UsagePlan) (priced : Priced p) (units : ℕ)
    → units ≤ max_safe_usage_units
    → price_tiers units p.tiers p.tier_count p.max_charge_per_period
      ≡ min (charge_by_unit priced.tiers units) p.max_charge_per_period
Priced-charge p priced units small = rw priced.stored (
    rw priced.count
      (tiered_pricing-eq-unit priced.tiers units p.max_charge_per_period p.max_charge_per_period
        priced.shape priced.safe small).0)
