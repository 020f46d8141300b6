-- ===== src/Plans/Proration.antt =====
-- instructions/proration.rs. `PreciseNumber` is a number of spl_math, a parameter here.
use vela_protocol.Base.{ℕ, Option, Bool, ltb, leb, ◌^◌, if◌then◌else◌}
use vela_protocol.Base.Int.{ℤ, pos, sub_ℕ}
use vela_protocol.Errors.{Result, ok, vela, VelaError, ◌>>=◌, ◌>>◌, require, ok_or}

-- `spl_math::precise_number::PreciseNumber`
pub record PreciseNumber : Type 1 where
  pub Number : Type 0
  pub new : ℕ → Option Number
  pub checked_mul : Number → Number → Option Number
  pub checked_div : Number → Number → Option Number
  pub checked_sub : Number → Number → Option Number
  pub floor : Number → Option Number
  pub to_imprecise : Number → Option ℕ
  pub greater_than_or_equal : Number → Number → Bool

module _ (math : PreciseNumber) where
  abbrev precise : ℕ → Result math.Number
  precise value = ok_or (math.new value) (vela VelaError.math_overflow)

  abbrev checked_mul : math.Number → math.Number → Result math.Number
  checked_mul lhs rhs = ok_or (math.checked_mul lhs rhs) (vela VelaError.math_overflow)

  abbrev checked_div : math.Number → math.Number → Result math.Number
  checked_div lhs rhs = ok_or (math.checked_div lhs rhs) (vela VelaError.math_overflow)

  -- Every call of `checked_sub` has this error code.
  abbrev checked_sub : math.Number → math.Number → Result math.Number
  checked_sub lhs rhs = ok_or (math.checked_sub lhs rhs) (vela VelaError.math_underflow)

  unfoldable pub floor_to_u128 : math.Number → Result ℕ
  floor_to_u128 value = do
    floored ← ok_or (math.floor value) (vela VelaError.math_overflow)
    ok_or (math.to_imprecise floored) (vela VelaError.math_overflow)

  -- What the old plan leaves unused, and what the new plan costs for the rest of the period.
  unfoldable pub prorated :
      (plan_amount_old plan_amount_new elapsed_seconds period_total_seconds : ℕ)
      → Result (math.Number × math.Number)
  prorated plan_amount_old plan_amount_new elapsed_seconds period_total_seconds = do
    old ← precise plan_amount_old
    new_amount ← precise plan_amount_new
    elapsed ← precise elapsed_seconds
    total ← precise period_total_seconds
    remaining ← checked_sub total elapsed
    old_elapsed ← checked_mul old elapsed
    used_old ← checked_div old_elapsed total
    unused_old ← checked_sub old used_old
    new_remaining ← checked_mul new_amount remaining
    new_for_remaining ← checked_div new_remaining total
    ok (unused_old, new_for_remaining)

  -- The i128 as an integer.
  unfoldable pub compute_proration :
      (plan_amount_old plan_amount_new elapsed_seconds period_total_seconds : ℕ) → Result ℤ
  unfolding prorated floor_to_u128
  compute_proration plan_amount_old plan_amount_new elapsed_seconds period_total_seconds = do
    require (ltb 0 period_total_seconds) (vela VelaError.math_div_by_zero)
    require (leb elapsed_seconds period_total_seconds) (vela VelaError.invalid_elapsed)
    (unused_old, new_for_remaining) ←
        prorated plan_amount_old plan_amount_new elapsed_seconds period_total_seconds
    let is_charge = math.greater_than_or_equal new_for_remaining unused_old
    signed_delta ←
        if is_charge
        then checked_sub new_for_remaining unused_old
        else checked_sub unused_old new_for_remaining
    raw ← floor_to_u128 signed_delta
    require (ltb raw (2 ^ 127)) (vela VelaError.math_overflow)
    ok (if is_charge then pos raw else sub_ℕ 0 raw)
