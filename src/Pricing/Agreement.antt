-- ===== src/Pricing/Agreement.antt =====
-- The circuit, the plaintext model and the price by unit agree on the tiers that a plan may have.
use vela_protocol.Base.{
  ℕ, suc, zero, ◌+◌, ◌-◌, ◌*◌, ◌≤◌, min, ◌≡◌, inl, inr, ◌==◌, if◌then◌else◌, arith, none, some,
  List, [], ◌∷◌, All, length, Bool-cases,
}
use vela_protocol.Errors.{ok}
use vela_protocol.State.{PricingTier}
use vela_protocol.Pricing.Tiers.{
  max_safe_usage_units, max_safe_usage_charge, check_tier_boundaries,
  validate_usage_tier_boundaries, check_tier_bounds, validate_usage_pricing_bounds, fill_tiers,
}
use vela_protocol.Pricing.Circuits.{
  price_tiers, saturate, plaintext_loop, tiered_pricing_plaintext_model,
}
use vela_protocol.Pricing.Units.{
  upper_of, charge_by_unit, charge_by_tier, Ascending, charge_by_tier-eq-unit,
}
use vela_protocol.Pricing.Exact.{SafeRate, within, circuit-exact}

-- What the checks of a plan's tiers establish.
rising :
    (previous : ℕ) (tiers : List PricingTier)
    → check_tier_boundaries (some previous) tiers ≡ ok tt
    → Ascending previous tiers
unfolding check_tier_boundaries
rising previous [] h = tt
rising previous (tier ∷ []) h = ground arith
rising previous (tier ∷ next ∷ rest) h = elim (Bool-cases (tier.up_to == 0)) [
  | inl open_ended ↦ absurd (ground arith)
  | inr bounded ↦ inr (ground arith, rising tier.up_to (next ∷ rest) (ground arith))
]

ascending :
    (tiers : List PricingTier) → check_tier_boundaries none tiers ≡ ok tt → Ascending 0 tiers
unfolding check_tier_boundaries
ascending [] h = tt
ascending (tier ∷ []) h = ground arith
ascending (tier ∷ next ∷ rest) h = elim (Bool-cases (tier.up_to == 0)) [
  | inl open_ended ↦ absurd (ground arith)
  | inr bounded ↦ inr (ground arith, rising tier.up_to (next ∷ rest) (ground arith))
]

safe_rates : (tiers : List PricingTier) → check_tier_bounds tiers ≡ ok tt → All SafeRate tiers
unfolding check_tier_bounds
safe_rates [] h = tt
safe_rates (tier ∷ rest) h = (ground arith, safe_rates rest (ground arith))

unsaturated :
    (total step : ℕ)
    → step ≤ max_safe_usage_charge
    → total + step ≤ 5 * max_safe_usage_charge
    → saturate (total + saturate step) ≡ total + step
unsaturated total step h k = ground arith

plaintext_loop-exact :
    (size : ℕ) (tiers : List PricingTier) (units previous total : ℕ)
    → units ≤ max_safe_usage_units
    → All SafeRate tiers
    → Ascending previous tiers
    → length tiers ≤ size
    → total + length tiers * max_safe_usage_charge ≤ 5 * max_safe_usage_charge
    → plaintext_loop (length tiers) units (fill_tiers size tiers) previous total
      ≡ total + charge_by_tier previous tiers units
unfolding plaintext_loop fill_tiers charge_by_tier
plaintext_loop-exact size [] units previous total small rates h few bound = ground arith
plaintext_loop-exact zero (tier ∷ rest) units previous total small rates h few bound =
    absurd (ground arith)
plaintext_loop-exact (suc n) (tier ∷ rest) units previous total small (r, rates)
      (inl (open_ended, last)) few bound =
    let cost = within previous units tier small r in rw last (ground arith)
plaintext_loop-exact (suc n) (tier ∷ rest) units previous total small (r, rates) (inr (above, h))
      few bound =
    let cost = within previous units tier small r in
    let step = (upper_of tier units - previous) * tier.rate_per_unit in
    let later =
      plaintext_loop-exact n rest units tier.up_to (total + step) small rates h (ground arith)
        (ground arith) in
    let exact : saturate (total + saturate step) ≡ total + step =
      unsaturated total step cost (ground arith) in
    let next : (if tier.up_to == 0 then previous else tier.up_to) ≡ tier.up_to = ground arith in
    rw (exact, next) (rw later (omega arith))

-- If the tiers of a plan pass the checks of the plan, the circuit and the plaintext model, on the
-- array of five tiers, charge for a safe number of units the price unit by unit, up to the maximum.
pub tiered_pricing-eq-unit :
    (tiers : List PricingTier) (units max_charge limit : ℕ)
    → validate_usage_tier_boundaries tiers ≡ ok tt
    → validate_usage_pricing_bounds tiers limit ≡ ok tt
    → units ≤ max_safe_usage_units
    → (price_tiers units (fill_tiers 5 tiers) (length tiers) max_charge
        ≡ min (charge_by_unit tiers units) max_charge)
      × (tiered_pricing_plaintext_model units (fill_tiers 5 tiers) (length tiers) max_charge
          ≡ min (charge_by_unit tiers units) max_charge)
unfolding validate_usage_tier_boundaries validate_usage_pricing_bounds
    tiered_pricing_plaintext_model
tiered_pricing-eq-unit [] units max_charge limit shape safe small = absurd (ground arith)
tiered_pricing-eq-unit (tier ∷ rest) units max_charge limit shape safe small =
    let tiers = tier ∷ rest in
    let few : length tiers ≤ 5 = ground arith in
    let h : Ascending 0 tiers = ascending tiers (ground arith) in
    let rates : All SafeRate tiers = safe_rates tiers (ground arith) in
    let same = charge_by_tier-eq-unit tiers units h in
    let circuit = circuit-exact tiers units max_charge small rates few (λ e. cc) in
    let loop = plaintext_loop-exact 5 tiers units 0 0 small rates h few (omega arith) in
    let rounds : min (length tiers) 5 ≡ length tiers = omega arith in
    (rw same at circuit, rw (rounds, loop) (ground (arith, same)))
