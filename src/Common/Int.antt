-- ===== src/Common/Int.antt =====
-- Signed integers over the native numbers, under the library's names.
use Prim.Native.Nat.{ℕ, suc, ◌+◌, ◌-◌, ◌≤◌, ◌<◌}
use mathlib.Core.Path.{◌≡◌}
use mathlib.Core.Bool.{Bool}
use native.Mathlib.Omega.{arith}
use kernel_stuff.Common.Tests.{ltb, if◌then◌else◌}

-- `negsuc n` is -(n + 1).
pub data ℤ : Type 0 where
  pos negsuc : ℕ → ℤ

-- An integer is the difference of two numbers.
abbrev pub plus_part : ℤ → ℕ
plus_part (pos n) = n
plus_part (negsuc n) = 0

abbrev pub minus_part : ℤ → ℕ
minus_part (pos n) = 0
minus_part (negsuc n) = suc n

abbrev pub difference : ℕ → ℕ → ℤ
difference a b = if ltb a b then negsuc (b - a - 1) else pos (a - b)

infixl 65 ◌-ℤ◌
infix 50 ◌≤ℤ◌ ◌<ℤ◌
unfoldable pub ◌-ℤ◌ : ℤ → ℤ → ℤ
x -ℤ y = difference (plus_part x + minus_part y) (minus_part x + plus_part y)

abbrev pub ◌≤ℤ◌ : ℤ → ℤ → Type 0
x ≤ℤ y = plus_part x + minus_part y ≤ minus_part x + plus_part y

abbrev pub ◌<ℤ◌ : ℤ → ℤ → Type 0
x <ℤ y = plus_part x + minus_part y < minus_part x + plus_part y

abbrev pub lt_test : ℤ → ℤ → Bool
lt_test x y = ltb (plus_part x + minus_part y) (minus_part x + plus_part y)

pub -ℤ_parts :
    (x y : ℤ)
    → plus_part (x -ℤ y) + minus_part x + plus_part y
      ≡ minus_part (x -ℤ y) + plus_part x + minus_part y
unfolding ◌-ℤ◌
-ℤ_parts x y = ground arith
