-- ===== src/Base/Machine.antt =====
-- Rust's checked and saturating arithmetic on u64, u128 and i64. A u64 or u128 is the number it
-- stands for, an i64 an integer; a checked operation is `none` where the result leaves the type.
use Prim.Native.Nat.{ℕ, ◌+◌, ◌-◌, ◌*◌, ◌^◌}
use mathlib.Core.Bool.{Bool, ◌&&◌}
use mathlib.Core.Option.{Option, none, some}
use vela_protocol.Base.Tests.{ltb, leb, if◌then◌else◌}
use vela_protocol.Base.Int.{ℤ, pos, negsuc, pos_part, neg_part, ◌-ℤ◌, ◌+ℤ◌}

abbrev pub u64_mod : ℕ
u64_mod = 2 ^ 64

abbrev pub u128_mod : ℕ
u128_mod = 2 ^ 128

abbrev pub i64_bound : ℕ
i64_bound = 2 ^ 63

abbrev pub in_i64 : ℤ → Bool
in_i64 z = ltb (pos_part z) i64_bound && leb (neg_part z) i64_bound

-- `n` if it is below the type's modulus.
abbrev pub narrow : ℕ → ℕ → Option ℕ
narrow modulus n = if ltb n modulus then some n else none

abbrev pub u64_checked_add : ℕ → ℕ → Option ℕ
u64_checked_add a b = narrow u64_mod (a + b)

abbrev pub u64_checked_mul : ℕ → ℕ → Option ℕ
u64_checked_mul a b = narrow u64_mod (a * b)

abbrev pub u128_checked_mul : ℕ → ℕ → Option ℕ
u128_checked_mul a b = narrow u128_mod (a * b)

abbrev pub checked_sub : ℕ → ℕ → Option ℕ
checked_sub a b = if leb b a then some (a - b) else none

abbrev pub u64_of_u128 : ℕ → Option ℕ
u64_of_u128 = narrow u64_mod

-- `u64::try_from` of an i64.
abbrev pub u64_of_i64 : ℤ → Option ℕ
u64_of_i64 (pos n) = some n
u64_of_i64 (negsuc n) = none

-- `i64::try_from` of a u64.
abbrev pub i64_of_u64 : ℕ → Option ℤ
i64_of_u64 n = if ltb n i64_bound then some (pos n) else none

abbrev pub fit_i64 : ℤ → Option ℤ
fit_i64 z = if in_i64 z then some z else none

abbrev pub i64_checked_sub : ℤ → ℤ → Option ℤ
i64_checked_sub a b = fit_i64 (a -ℤ b)

abbrev pub i64_checked_add : ℤ → ℤ → Option ℤ
i64_checked_add a b = fit_i64 (a +ℤ b)

abbrev pub clamp_i64 : ℤ → ℤ
clamp_i64 z =
    if leb i64_bound (pos_part z)
    then pos (i64_bound - 1)
    else if ltb i64_bound (neg_part z)
    then negsuc (i64_bound - 1)
    else z

-- `i64::saturating_sub`.
abbrev pub i64_saturating_sub : ℤ → ℤ → ℤ
i64_saturating_sub a b = clamp_i64 (a -ℤ b)
