-- ===== src/Common/Integer.antt =====
-- Integers over the native numbers.
use Prim.Native.Nat.{ℕ, zero, suc, ◌+◌, ◌-◌}
use mathlib.Core.Bool.{Bool, true, false}
use mathlib.Core.List.{◌++◌}
use swamp_extensions.Common.Tests.{ltb, if◌then◌else◌}
use swamp_extensions.Common.Text.{Text, lit}
use swamp_extensions.Common.Decimal.{decimal}

pub data ℤ : Type 0 where
  pos : ℕ → ℤ
  negsuc : ℕ → ℤ

-- The integer with a sign (true below zero) and a size.
unfoldable pub signed : Bool → ℕ → ℤ
signed false n = pos n
signed true zero = pos 0
signed true (suc n) = negsuc n

infixl 30 ◌+ℤ◌
unfoldable pub ◌+ℤ◌ : ℤ → ℤ → ℤ
pos m +ℤ pos n = pos (m + n)
negsuc m +ℤ negsuc n = negsuc (m + n + 1)
pos m +ℤ negsuc n = if ltb n m then pos (m - (n + 1)) else signed true (n + 1 - m)
negsuc m +ℤ pos n = if ltb m n then pos (n - (m + 1)) else signed true (m + 1 - n)

-- `String(i)`.
unfoldable pub show : ℤ → Text
unfolding decimal lit
show (pos n) = decimal n
show (negsuc n) = lit "-" ++ decimal (n + 1)
