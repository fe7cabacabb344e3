-- ===== src/Base/Integers.antt =====
-- Integers over the native natural numbers.
use Prim.Native.Nat.{ℕ, zero, suc, ◌≤◌, ◌+◌, ◌-◌}
use mathlib.Core.Path.{◌≡◌}
use native.Mathlib.Omega.{arith}
use mathlib.Core.Bool.{Bool, true, false}
use f4mp.Base.Tests.{ltb, if◌then◌else◌}

pub data ℤ : Type 0 where
  pos negsuc : ℕ → ℤ

abbrev pub negate : ℕ → ℤ
negate zero = pos 0
negate (suc n) = negsuc n

-- `std::clamp` between two bounds that are not negative.
unfoldable pub clamp : ℕ → ℕ → ℤ → ℕ
clamp low high (pos n) = if ltb n low then low else if ltb high n then high else n
clamp low high (negsuc n) = low

pub clamp-le :
    (low high : ℕ) (n : ℤ) → low ≤ high → (low ≤ clamp low high n) × (clamp low high n ≤ high)
unfolding clamp
clamp-le low high (pos n) h = (ground arith, ground arith)
clamp-le low high (negsuc n) h = (omega arith, h)

-- The difference of two natural numbers, and an integer moved up or down.
abbrev pub diff : ℕ → ℕ → ℤ
diff a b = if ltb a b then negsuc (b - a - 1) else pos (a - b)

unfoldable pub add_nat : ℤ → ℕ → ℤ
add_nat (pos a) n = pos (a + n)
add_nat (negsuc a) n = if ltb a n then pos (n - a - 1) else negsuc (a - n)

unfoldable pub sub_nat : ℤ → ℕ → ℤ
sub_nat (pos a) n = diff a n
sub_nat (negsuc a) n = negsuc (a + n)

pub add_nat-diff : (a b n : ℕ) → add_nat (diff a b) n ≡ diff (a + n) b
unfolding add_nat
add_nat-diff a b n = ground arith

pub sub_nat-diff : (a b n : ℕ) → n ≤ a → sub_nat (diff a b) n ≡ diff (a - n) b
unfolding sub_nat
sub_nat-diff a b n h = ground arith

abbrev pub int_ltb : ℤ → ℤ → Bool
int_ltb (pos a) (pos b) = ltb a b
int_ltb (pos a) (negsuc b) = false
int_ltb (negsuc a) (pos b) = true
int_ltb (negsuc a) (negsuc b) = ltb b a
