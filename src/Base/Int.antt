-- ===== src/Base/Int.antt =====
-- Signed integers, and two's complement reading and writing of a word of `2 * half` values.
use Prim.Native.Nat.{ℕ, ◌+◌, ◌-◌, ◌%◌, ◌<◌}
use mathlib.Core.Path.{◌≡◌}
use mathlib.Core.Bool.{Bool, true, false}
use native.Mathlib.Omega.{arith}
use native.Mathlib.Nat.{mod-eq_of_lt}
use micro_opcua.Base.Tests.{ltb, ◌==◌, if◌then◌else◌}

-- `negsuc n` is -(n + 1).
pub data ℤ : Type 0 where
  pos : ℕ → ℤ
  negsuc : ℕ → ℤ

-- -1, the length of a null string.
abbrev pub minus_one : ℤ
minus_one = negsuc 0

abbrev pub eq_ℤ : ℤ → ℤ → Bool
eq_ℤ (pos a) (pos b) = a == b
eq_ℤ (negsuc a) (negsuc b) = a == b
eq_ℤ _ _ = false

abbrev pub is_negative : ℤ → Bool
is_negative (pos n) = false
is_negative (negsuc n) = true

-- The conversion of an unsigned word to the signed type of its width, and back.
abbrev pub signed : ℕ → ℕ → ℤ
signed half w = if ltb w half then pos w else negsuc (half + half - w - 1)

abbrev pub unsigned : ℕ → ℤ → ℕ
unsigned half (pos n) = n % (half + half)
unsigned half (negsuc n) = half + half - 1 - n % (half + half)

-- The values of the signed type.
abbrev pub InRange : ℕ → ℤ → Type 0
InRange half (pos n) = n < half
InRange half (negsuc n) = n < half

pub signed-unsigned : (half : ℕ) (z : ℤ) → InRange half z → signed half (unsigned half z) ≡ z
signed-unsigned half (pos n) h =
    ground (arith, mod-eq_of_lt {n = n} {m = half + half} (omega arith))
signed-unsigned half (negsuc n) h =
    ground (arith, mod-eq_of_lt {n = n} {m = half + half} (omega arith))

pub unsigned-lt : (half : ℕ) (z : ℤ) → 0 < half → unsigned half z < half + half
unsigned-lt half (pos n) h = ground arith
unsigned-lt half (negsuc n) h = ground arith
