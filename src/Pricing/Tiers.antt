-- ===== src/Pricing/Tiers.antt =====
-- The checks of tiers in plans/create_usage_plan.rs, and the bounds of constants.rs.
use vela_protocol.Base.{
  ℕ, suc, zero, ◌≡◌, refl, Bool, true, false, not, ◌-◌, ◌*◌, ◌/◌, Option, none, some, ltb, leb,
  ◌==◌, ◌&&◌, if◌then◌else◌, List, [], ◌∷◌, length,
}
use vela_protocol.Base.Machine.{u64_mod}
use vela_protocol.Errors.{Result, ok, vela, VelaError, ◌>>◌, require}
use vela_protocol.State.{PricingTier}

abbrev pub max_safe_usage_units : ℕ
max_safe_usage_units = 1_000_000_000_000

-- `u64::MAX / MAX_SAFE_USAGE_UNITS / 5`
abbrev pub max_safe_usage_rate_per_unit : ℕ
max_safe_usage_rate_per_unit = 3_689_348

abbrev pub max_safe_usage_charge : ℕ
max_safe_usage_charge = max_safe_usage_units * max_safe_usage_rate_per_unit

max_safe_usage_rate_per_unit_lem :
    (u64_mod - 1) / max_safe_usage_units / 5 ≡ max_safe_usage_rate_per_unit
max_safe_usage_rate_per_unit_lem = refl

abbrev is_nil {ℓ} : {A : Type ℓ} → List A → Bool
is_nil [] = true
is_nil (x ∷ xs) = false

-- The loop over the tiers; `previous` is the bound of the tier before, if there is one.
unfoldable pub check_tier_boundaries : Option ℕ → List PricingTier → Result (Unit {0})
check_tier_boundaries previous [] = ok tt
check_tier_boundaries previous (tier ∷ rest) = do
  if tier.up_to == 0
      then require (is_nil rest) (vela VelaError.invalid_tier_boundary)
      else elim previous [
        | none ↦ ok tt
        | some bound ↦ require (ltb bound tier.up_to) (vela VelaError.invalid_tier_boundary)
      ]
  check_tier_boundaries (some tier.up_to) rest

unfoldable pub validate_usage_tier_boundaries : List PricingTier → Result (Unit {0})
validate_usage_tier_boundaries tiers = do
  require (not (is_nil tiers) && leb (length tiers) 5) (vela VelaError.invalid_tier_count)
  check_tier_boundaries none tiers

unfoldable pub check_tier_bounds : List PricingTier → Result (Unit {0})
check_tier_bounds [] = ok tt
check_tier_bounds (tier ∷ rest) = do
  require (leb tier.rate_per_unit max_safe_usage_rate_per_unit)
      (vela VelaError.usage_pricing_overflow_risk)
  if tier.up_to == 0
      then ok tt
      else require (leb tier.up_to max_safe_usage_units)
          (vela VelaError.usage_pricing_overflow_risk)
  check_tier_bounds rest

unfoldable pub validate_usage_pricing_bounds : List PricingTier → ℕ → Result (Unit {0})
validate_usage_pricing_bounds tiers max_charge_per_period = do
  require (leb max_charge_per_period max_safe_usage_charge)
      (vela VelaError.usage_pricing_overflow_risk)
  check_tier_bounds tiers

-- `PricingTier::default()`
abbrev pub no_tier : PricingTier
no_tier = record { up_to = 0; rate_per_unit = 0 }

-- The array of `size` entries with the tiers copied to its beginning.
unfoldable pub fill_tiers : (size : ℕ) → List PricingTier → List PricingTier
fill_tiers zero tiers = []
fill_tiers (suc n) [] = no_tier ∷ fill_tiers n []
fill_tiers (suc n) (tier ∷ rest) = tier ∷ fill_tiers n rest
