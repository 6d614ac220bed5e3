-- ===== src/Common/Number.antt =====
-- Arithmetic and comparison of finite JavaScript numbers, which are exact here.
use Prim.Native.Nat.{ℕ, ◌+◌, ◌-◌, ◌*◌, ◌/◌, ◌^◌}
use mathlib.Core.Path.{◌≡◌, refl}
use native.Mathlib.Omega.{arith}
use mathlib.Core.Bool.{Bool, true, false, not, ◌&&◌, ◌||◌}
use swamp_extensions.Common.Tests.{ltb, nat_beq, if◌then◌else◌}
use swamp_extensions.Common.Json.{Number, nan, infinite, finite}

-- A whole number.
abbrev pub whole : ℕ → Number
whole n = finite false n 0

pub is_finite : Number → Bool
is_finite (finite _ _ _) = true
is_finite _ = false

same_sign : Bool → Bool → Bool
same_sign true true = true
same_sign false false = true
same_sign _ _ = false

-- `a === b`: zero has no sign, and NaN equals nothing.
unfoldable pub same_number : Number → Number → Bool
unfolding same_sign
same_number (finite a m s) (finite b n t) =
    nat_beq (m * 2 ^ t) (n * 2 ^ s) && (same_sign a b || nat_beq m 0)
same_number (infinite a) (infinite b) = same_sign a b
same_number _ _ = false

-- `a < b` of finite numbers, by sign.
less : Bool → ℕ → Bool → ℕ → Bool
less false m false n = ltb m n
less false m true n = false
less true m false n = ltb 0 (m + n)
less true m true n = ltb n m

less_self : (a : Bool) (m : ℕ) → less a m a m ≡ false
unfolding less
less_self true m = ground arith
less_self false m = ground arith

unfoldable pub less_than : Number → Number → Bool
unfolding less
less_than (finite a m s) (finite b n t) = less a (m * 2 ^ t) b (n * 2 ^ s)
less_than (infinite true) (finite _ _ _) = true
less_than (finite _ _ _) (infinite false) = true
less_than (infinite true) (infinite false) = true
less_than _ _ = false

pub less_than_self : (x : Number) → less_than x x ≡ false
unfolding less_than
less_than_self nan = refl
less_than_self (infinite true) = refl
less_than_self (infinite false) = refl
less_than_self (finite a m s) = less_self a (m * 2 ^ s)

-- `Math.round(x * k)` for a whole `k`: a half goes up.
unfoldable pub rounded : Number → ℕ → Number
rounded (finite false m s) k = finite false ((2 * (m * k) + 2 ^ s) / 2 ^ (s + 1)) 0
rounded (finite true m s) k = finite true ((2 * (m * k) + 2 ^ s - 1) / 2 ^ (s + 1)) 0
rounded x k = x

-- The sum of two magnitudes with signs, over one scale.
signed_sum : Bool → ℕ → Bool → ℕ → ℕ → Number
signed_sum a m b n scale =
    if same_sign a b
    then finite a (m + n) scale
    else if ltb m n
    then finite b (n - m) scale
    else finite a (m - n) scale

-- `a + b` of finite numbers, which is exact here.
unfoldable pub plus : Number → Number → Number
unfolding signed_sum same_sign
plus (finite a m s) (finite b n t) = signed_sum a (m * 2 ^ t) b (n * 2 ^ s) (s + t)
plus (finite _ _ _) x = x
plus x (finite _ _ _) = x
plus (infinite a) (infinite b) = if same_sign a b then infinite a else nan
plus _ _ = nan

pub negated : Number → Number
negated (finite a m s) = finite (not a) m s
negated (infinite a) = infinite (not a)
negated nan = nan

-- `x * k` for a whole `k`.
pub times : Number → ℕ → Number
times (finite a m s) k = finite a (m * k) s
times x k = x

-- `Math.round(x / 1000)` of a number that is not below zero.
pub rounded_thousandth : Number → Number
rounded_thousandth (finite a m s) = finite a ((2 * m + 1000 * 2 ^ s) / (2000 * 2 ^ s)) 0
rounded_thousandth x = x
