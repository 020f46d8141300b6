-- ===== src/Pricing/Circuits.antt =====
-- encrypted-ixs/src/lib.rs, on plain values. Arithmetic on u64 wraps around; where nothing overflows,
-- as Pricing/Agreement shows, the way in which the circuits overflow does not matter.
use vela_protocol.Base.{
  ℕ, suc, zero, ◌+◌, ◌-◌, ◌*◌, ◌%◌, min, Bool, true, false, ltb, leb, ◌==◌, ◌&&◌, if◌then◌else◌,
  List, [], ◌∷◌,
}
use vela_protocol.Base.Int.{ℤ, pos, leb_ℤ, ltb_ℤ}
use vela_protocol.Base.Machine.{u64_mod}
use vela_protocol.State.{PricingTier}

abbrev pub wrap64 : ℕ → ℕ
wrap64 n = n % u64_mod

pub record MandateValidationInput : Type 0 where
  pub mandate_amount : ℕ
  pub plan_amount : ℕ
  pub subscriber_balance : ℕ
  pub current_timestamp : ℤ
  pub next_payment_due : ℤ
  pub expiry : ℤ
  pub pulls_executed : ℕ
  pub max_pulls : ℕ

abbrev is_zero_time : ℤ → Bool
is_zero_time (pos n) = n == 0
is_zero_time _ = false

unfoldable pub validate_mandate : MandateValidationInput → Bool
validate_mandate v =
    let amount_valid = v.mandate_amount == v.plan_amount in
    let balance_sufficient = leb v.plan_amount v.subscriber_balance in
    let timing_valid = leb_ℤ v.next_payment_due v.current_timestamp in
    let not_expired = if is_zero_time v.expiry then true else ltb_ℤ v.current_timestamp v.expiry in
    let pulls_remaining = ltb v.pulls_executed v.max_pulls in
    amount_valid && balance_sufficient && timing_valid && not_expired && pulls_remaining

unfoldable pub usage_charge : (units rate_per_unit max_charge : ℕ) → ℕ
usage_charge units rate_per_unit max_charge =
    let charge = wrap64 (units * rate_per_unit) in
    if ltb max_charge charge then max_charge else charge

-- The upper bound of the units in a tier, and the charge for the first and for a later tier.
unfoldable pub tier_upper : (active : Bool) (boundary units : ℕ) → ℕ
tier_upper active boundary units =
    if active && boundary == 0 then units else if ltb boundary units then boundary else units

unfoldable pub first_tier_charge : (active : Bool) (boundary rate units : ℕ) → ℕ
unfolding tier_upper
first_tier_charge active boundary rate units =
    if active then wrap64 (tier_upper active boundary units * rate) else 0

unfoldable pub tier_charge : (active : Bool) (previous boundary rate units : ℕ) → ℕ
unfolding tier_upper
tier_charge active previous boundary rate units =
    let upper = tier_upper active boundary units in
    let units_in_tier = if ltb previous upper then upper - previous else 0 in
    if active then wrap64 (units_in_tier * rate) else 0

unfoldable pub tiered_pricing :
    (units : ℕ) (t0 t1 t2 t3 t4 : PricingTier) (tier_count max_charge : ℕ) → ℕ
tiered_pricing units t0 t1 t2 t3 t4 tier_count max_charge =
    let c0 = first_tier_charge (ltb 0 tier_count) t0.up_to t0.rate_per_unit units in
    let c1 = tier_charge (ltb 1 tier_count) t0.up_to t1.up_to t1.rate_per_unit units in
    let c2 = tier_charge (ltb 2 tier_count) t1.up_to t2.up_to t2.rate_per_unit units in
    let c3 = tier_charge (ltb 3 tier_count) t2.up_to t3.up_to t3.rate_per_unit units in
    let c4 = tier_charge (ltb 4 tier_count) t3.up_to t4.up_to t4.rate_per_unit units in
    let total_charge = wrap64 (wrap64 (wrap64 (wrap64 (wrap64 (0 + c0) + c1) + c2) + c3) + c4) in
    if ltb max_charge total_charge then max_charge else total_charge

-- The arguments that the circuit gets from an array of five tiers.
unfoldable pub price_tiers : (units : ℕ) → List PricingTier → (tier_count max_charge : ℕ) → ℕ
unfolding tiered_pricing
price_tiers units (t0 ∷ t1 ∷ t2 ∷ t3 ∷ t4 ∷ rest) tier_count max_charge =
    tiered_pricing units t0 t1 t2 t3 t4 tier_count max_charge
price_tiers units _ tier_count max_charge = 0

-- `saturating_mul` and `saturating_add` on u64.
abbrev pub saturate : ℕ → ℕ
saturate n = min n (u64_mod - 1)

-- The loop of `tiered_pricing_plaintext_model`, on the boundaries and rates from the current index on.
unfoldable pub plaintext_loop :
    (rounds usage_units : ℕ) → List PricingTier → (previous_bound total_charge : ℕ) → ℕ
plaintext_loop zero usage_units tiers previous_bound total_charge = total_charge
plaintext_loop (suc rounds) usage_units [] previous_bound total_charge = total_charge
plaintext_loop (suc rounds) usage_units (tier ∷ rest) previous_bound total_charge =
    let upper = if tier.up_to == 0 then usage_units else min usage_units tier.up_to in
    let units_in_tier = upper - previous_bound in
    let total = saturate (total_charge + saturate (units_in_tier * tier.rate_per_unit)) in
    plaintext_loop rounds usage_units rest (if tier.up_to == 0 then previous_bound else tier.up_to)
      total

unfoldable pub tiered_pricing_plaintext_model :
    (usage_units : ℕ) → List PricingTier → (tier_count max_charge : ℕ) → ℕ
unfolding plaintext_loop
tiered_pricing_plaintext_model usage_units tiers tier_count max_charge =
    min (plaintext_loop (min tier_count 5) usage_units tiers 0 0) max_charge
