-- ===== src/Pricing/Exact.antt =====
-- The circuit of tiered pricing on tiers with safe rates, where nothing wraps around.
use vela_protocol.Base.{
  ℕ, suc, true, false, ◌+◌, ◌-◌, ◌*◌, ◌≤◌, min, ◌≡◌, ◌≢◌, Bool, refl, ltb, if◌then◌else◌, arith,
  List, [], ◌∷◌, All, length,
}
use vela_protocol.State.{PricingTier}
use vela_protocol.Pricing.Tiers.{
  max_safe_usage_units, max_safe_usage_rate_per_unit, max_safe_usage_charge, fill_tiers, no_tier,
}
use vela_protocol.Pricing.Circuits.{
  wrap64, tier_upper, first_tier_charge, tier_charge, tiered_pricing, price_tiers,
}
use vela_protocol.Pricing.Units.{upper_of, charge_by_tier}

abbrev pub SafeRate : PricingTier → Type 0
SafeRate tier = tier.rate_per_unit ≤ max_safe_usage_rate_per_unit

-- No tier costs more than the safe charge.
mul_mono : (a b c d : ℕ) → a ≤ c → b ≤ d → a * b ≤ c * d
mul_mono a b c d p q = grind arith

pub within :
    (previous units : ℕ) (tier : PricingTier)
    → units ≤ max_safe_usage_units
    → SafeRate tier
    → (upper_of tier units - previous) * tier.rate_per_unit ≤ max_safe_usage_charge
within previous units tier small rate =
    let less : upper_of tier units - previous ≤ max_safe_usage_units = ground arith in
    mul_mono (upper_of tier units - previous) tier.rate_per_unit max_safe_usage_units
      max_safe_usage_rate_per_unit less rate

first_tier_charge-exact :
    (units : ℕ) (tier : PricingTier)
    → units ≤ max_safe_usage_units
    → SafeRate tier
    → first_tier_charge true tier.up_to tier.rate_per_unit units
      ≡ (upper_of tier units - 0) * tier.rate_per_unit
unfolding first_tier_charge tier_upper
first_tier_charge-exact units tier small rate = ground (arith, within 0 units tier small rate)

tier_charge-exact :
    (previous units : ℕ) (tier : PricingTier)
    → units ≤ max_safe_usage_units
    → SafeRate tier
    → tier_charge true previous tier.up_to tier.rate_per_unit units
      ≡ (upper_of tier units - previous) * tier.rate_per_unit
unfolding tier_charge tier_upper
tier_charge-exact previous units tier small rate =
    ground (arith, within previous units tier small rate)

idle : (previous boundary rate units : ℕ) → tier_charge false previous boundary rate units ≡ 0
unfolding tier_charge
idle previous boundary rate units = refl

-- Nothing wraps around in the sum of five charges.
capped :
    (c0 c1 c2 c3 c4 max_charge : ℕ)
    → c0 ≤ max_safe_usage_charge
    → c1 ≤ max_safe_usage_charge
    → c2 ≤ max_safe_usage_charge
    → c3 ≤ max_safe_usage_charge
    → c4 ≤ max_safe_usage_charge
    → let total = wrap64 (wrap64 (wrap64 (wrap64 (wrap64 (0 + c0) + c1) + c2) + c3) + c4) in
      (if ltb max_charge total then max_charge else total)
      ≡ min (c0 + (c1 + (c2 + (c3 + c4)))) max_charge
capped c0 c1 c2 c3 c4 max_charge h0 h1 h2 h3 h4 = ground arith

-- The charge of a tier that may be missing.
abbrev charge_at : (active : Bool) (previous : ℕ) → PricingTier → ℕ → ℕ
charge_at active previous tier units =
    if active then (upper_of tier units - previous) * tier.rate_per_unit else 0

later_charge :
    (active : Bool) (previous units : ℕ) (tier : PricingTier)
    → units ≤ max_safe_usage_units
    → SafeRate tier
    → (tier_charge active previous tier.up_to tier.rate_per_unit units
        ≡ charge_at active previous tier units)
      × (charge_at active previous tier units ≤ max_safe_usage_charge)
later_charge true previous units tier small rate =
    (tier_charge-exact previous units tier small rate, within previous units tier small rate)
later_charge false previous units tier small rate =
    (idle previous tier.up_to tier.rate_per_unit units, omega arith)

-- The circuit on five tiers with safe rates, of which at least one counts.
tiered_pricing-exact :
    (units : ℕ) (t0 t1 t2 t3 t4 : PricingTier) (n max_charge : ℕ)
    → units ≤ max_safe_usage_units
    → All SafeRate (t0 ∷ t1 ∷ t2 ∷ t3 ∷ t4 ∷ [])
    → tiered_pricing units t0 t1 t2 t3 t4 (suc n) max_charge
      ≡ min
          (charge_at true 0 t0 units
            + (charge_at (ltb 1 (suc n)) t0.up_to t1 units
                + (charge_at (ltb 2 (suc n)) t1.up_to t2 units
                    + (charge_at (ltb 3 (suc n)) t2.up_to t3 units
                        + charge_at (ltb 4 (suc n)) t3.up_to t4 units))))
          max_charge
unfolding tiered_pricing
tiered_pricing-exact units t0 t1 t2 t3 t4 n max_charge small (r0, (r1, (r2, (r3, (r4, _))))) =
    let (e1, b1) = later_charge (ltb 1 (suc n)) t0.up_to units t1 small r1 in
    let (e2, b2) = later_charge (ltb 2 (suc n)) t1.up_to units t2 small r2 in
    let (e3, b3) = later_charge (ltb 3 (suc n)) t2.up_to units t3 small r3 in
    let (e4, b4) = later_charge (ltb 4 (suc n)) t3.up_to units t4 small r4 in
    let e0 = first_tier_charge-exact units t0 small r0 in
    let active : ltb 0 (suc n) ≡ true = ground arith in
    rw (active, e0, e1, e2, e3, e4)
      (capped (charge_at true 0 t0 units) (charge_at (ltb 1 (suc n)) t0.up_to t1 units)
        (charge_at (ltb 2 (suc n)) t1.up_to t2 units) (charge_at (ltb 3 (suc n)) t2.up_to t3 units)
        (charge_at (ltb 4 (suc n)) t3.up_to t4 units) max_charge (within 0 units t0 small r0) b1 b2
        b3 b4)

abbrev idle_rate : SafeRate no_tier
idle_rate = omega arith

-- The circuit computes the sum over the tiers of a plan.
pub circuit-exact :
    (tiers : List PricingTier) (units max_charge : ℕ)
    → units ≤ max_safe_usage_units
    → All SafeRate tiers
    → length tiers ≤ 5
    → tiers ≢ []
    → price_tiers units (fill_tiers 5 tiers) (length tiers) max_charge
      ≡ min (charge_by_tier 0 tiers units) max_charge
unfolding price_tiers fill_tiers charge_by_tier
circuit-exact [] units max_charge small rates few some_tier = absurd (some_tier refl)
circuit-exact (t0 ∷ []) units max_charge small (r0, _) few some_tier = ground (
  arith,
  tiered_pricing-exact units t0 no_tier no_tier no_tier no_tier 0 max_charge small
      (r0, (idle_rate, (idle_rate, (idle_rate, (idle_rate, tt))))),
)
circuit-exact (t0 ∷ t1 ∷ []) units max_charge small (r0, (r1, _)) few some_tier = ground (
  arith,
  tiered_pricing-exact units t0 t1 no_tier no_tier no_tier 1 max_charge small
      (r0, (r1, (idle_rate, (idle_rate, (idle_rate, tt))))),
)
circuit-exact (t0 ∷ t1 ∷ t2 ∷ []) units max_charge small (r0, (r1, (r2, _))) few some_tier =
    ground (
      arith,
      tiered_pricing-exact units t0 t1 t2 no_tier no_tier 2 max_charge small
          (r0, (r1, (r2, (idle_rate, (idle_rate, tt))))),
    )
circuit-exact (t0 ∷ t1 ∷ t2 ∷ t3 ∷ []) units max_charge small (r0, (r1, (r2, (r3, _)))) few
      some_tier =
    ground (
      arith,
      tiered_pricing-exact units t0 t1 t2 t3 no_tier 3 max_charge small
          (r0, (r1, (r2, (r3, (idle_rate, tt))))),
    )
circuit-exact (t0 ∷ t1 ∷ t2 ∷ t3 ∷ t4 ∷ []) units max_charge small (r0, (r1, (r2, (r3, (r4, _)))))
      few some_tier =
    ground (
      arith,
      tiered_pricing-exact units t0 t1 t2 t3 t4 4 max_charge small (r0, (r1, (r2, (r3, (r4, tt))))),
    )
circuit-exact (t0 ∷ t1 ∷ t2 ∷ t3 ∷ t4 ∷ t5 ∷ rest) units max_charge small rates few some_tier =
    absurd (ground arith)
