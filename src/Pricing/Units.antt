-- ===== src/Pricing/Units.antt =====
-- What usage costs, unit by unit, and the sum over the tiers that the circuits compute.
use vela_protocol.Base.{
  ℕ, suc, zero, ◌+◌, ◌-◌, ◌*◌, ◌<◌, min, ◌≡◌, refl, ◌⊎◌, inl, inr, ltb, ◌==◌, if◌then◌else◌, arith,
  List, [], ◌∷◌,
}
use vela_protocol.State.{PricingTier}

-- The price of the unit with a number, from zero on: the rate of the first tier that it is below.
abbrev pub unit_rate : List PricingTier → ℕ → ℕ
unit_rate [] u = 0
unit_rate (tier ∷ rest) u =
    if tier.up_to == 0
    then tier.rate_per_unit
    else if ltb u tier.up_to
    then tier.rate_per_unit
    else unit_rate rest u

-- The price of so many units.
unfoldable pub charge_by_unit : List PricingTier → (units : ℕ) → ℕ
charge_by_unit tiers zero = 0
charge_by_unit tiers (suc n) = charge_by_unit tiers n + unit_rate tiers n

abbrev pub upper_of : PricingTier → ℕ → ℕ
upper_of tier units = if tier.up_to == 0 then units else min units tier.up_to

-- The sum over the tiers, the first of which begins at `previous`.
unfoldable pub charge_by_tier : (previous : ℕ) → List PricingTier → (units : ℕ) → ℕ
charge_by_tier previous [] units = 0
charge_by_tier previous (tier ∷ rest) units =
    (upper_of tier units - previous) * tier.rate_per_unit + charge_by_tier tier.up_to rest units

-- The bounds rise from `previous` on, and at most the last tier has none.
abbrev pub Ascending : (previous : ℕ) → List PricingTier → Type 0
Ascending previous [] = Unit
Ascending previous (tier ∷ rest) =
    ((tier.up_to ≡ 0) × (rest ≡ [])) ⊎ ((previous < tier.up_to) × Ascending tier.up_to rest)

mul_step : (a b r : ℕ) → a ≡ suc b → a * r ≡ b * r + r
mul_step a b r e = rw e (grind arith)

charge_by_tier-suc :
    (previous : ℕ) (tiers : List PricingTier) (n : ℕ)
    → Ascending previous tiers
    → charge_by_tier previous tiers (suc n)
      ≡ charge_by_tier previous tiers n + (if ltb n previous then 0 else unit_rate tiers n)
unfolding charge_by_tier
charge_by_tier-suc previous [] n h = ground arith
charge_by_tier-suc previous (tier ∷ rest) n (inl (open_ended, last)) =
    rw last (ground (arith, mul_step (suc n - previous) (n - previous) tier.rate_per_unit))
charge_by_tier-suc previous (tier ∷ rest) n (inr (above, rising)) = ground (
  arith,
  charge_by_tier-suc tier.up_to rest n rising,
  mul_step (suc n - previous) (n - previous) tier.rate_per_unit,
)

charge_by_tier-zero :
    (previous : ℕ) (tiers : List PricingTier) → charge_by_tier previous tiers 0 ≡ 0
unfolding charge_by_tier
charge_by_tier-zero previous [] = refl
charge_by_tier-zero previous (tier ∷ rest) = ground (arith, charge_by_tier-zero tier.up_to rest)

pub charge_by_tier-eq-unit :
    (tiers : List PricingTier) (units : ℕ)
    → Ascending 0 tiers
    → charge_by_tier 0 tiers units ≡ charge_by_unit tiers units
unfolding charge_by_unit
charge_by_tier-eq-unit tiers zero h = charge_by_tier-zero 0 tiers
charge_by_tier-eq-unit tiers (suc n) h =
    ground (arith, charge_by_tier-suc 0 tiers n h, charge_by_tier-eq-unit tiers n h)
