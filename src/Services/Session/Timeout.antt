-- ===== src/Services/Session/Timeout.antt =====
-- The revised timeout of a session: the clamp on the bits of a double, and its value in milliseconds.
use Prim.Native.Nat.{min, max}
use micro_opcua.Base.{ℕ, zero, suc, ◌+◌, ◌-◌, ◌/◌, ◌%◌, ◌^◌, ◌≤◌, ◌<◌, ◌≡◌, arith}
use micro_opcua.Services.Session.{
  timeout_min_bits, timeout_max_bits, clamp_timeout_bits, duration_bits_to_ms, shift_mantissa,
}

-- The integral part of a double in milliseconds, of an exponent of at most 52.
pub milliseconds : ℕ → ℕ
milliseconds bits = (2 ^ 52 + bits % 2 ^ 52) / 2 ^ (1075 - bits / 2 ^ 52)

pub clamp_timeout_bits-bounds :
    (bits : ℕ)
    → (timeout_min_bits ≤ clamp_timeout_bits bits) × (clamp_timeout_bits bits ≤ timeout_max_bits)
unfolding clamp_timeout_bits
clamp_timeout_bits-bounds bits = (ground arith, ground arith)

-- The value in range and with an exact conversion.
abbrev pub Converts : ℕ → Type 0
Converts bits =
    (duration_bits_to_ms bits ≡ milliseconds bits)
    × (10000 ≤ duration_bits_to_ms bits)
    × (duration_bits_to_ms bits ≤ 3600000)

-- The nine exponents between the bounds, 2 ^ 13 to 2 ^ 21.
exponent-Converts :
    (k bits : ℕ)
    → timeout_min_bits ≤ bits
    → bits ≤ timeout_max_bits
    → bits / 2 ^ 52 ≡ 1036 + k
    → Converts bits
unfolding duration_bits_to_ms shift_mantissa milliseconds
exponent-Converts zero bits lo hi e = rw e (omega arith, omega arith, omega arith)
exponent-Converts (suc zero) bits lo hi e = rw e (omega arith, omega arith, omega arith)
exponent-Converts (suc (suc zero)) bits lo hi e = rw e (omega arith, omega arith, omega arith)
exponent-Converts (suc (suc (suc zero))) bits lo hi e = rw e (omega arith, omega arith, omega arith)
exponent-Converts (suc (suc (suc (suc zero)))) bits lo hi e =
    rw e (omega arith, omega arith, omega arith)
exponent-Converts (suc (suc (suc (suc (suc zero))))) bits lo hi e =
    rw e (omega arith, omega arith, omega arith)
exponent-Converts (suc (suc (suc (suc (suc (suc zero)))))) bits lo hi e =
    rw e (omega arith, omega arith, omega arith)
exponent-Converts (suc (suc (suc (suc (suc (suc (suc zero))))))) bits lo hi e =
    rw e (omega arith, omega arith, omega arith)
exponent-Converts (suc (suc (suc (suc (suc (suc (suc (suc zero)))))))) bits lo hi e =
    rw e (omega arith, omega arith, omega arith)
exponent-Converts (suc (suc (suc (suc (suc (suc (suc (suc (suc k))))))))) bits lo hi e =
    absurd (omega arith)

pub Converts-clamp : (bits : ℕ) → Converts (clamp_timeout_bits bits)
Converts-clamp bits =
    let (lo, hi) = clamp_timeout_bits-bounds bits in
    exponent-Converts (clamp_timeout_bits bits / 2 ^ 52 - 1036) (clamp_timeout_bits bits) lo hi
      (omega (arith, lo, hi))

-- For every 64 bits that a client requests as its timeout, the revised timeout has a value in milliseconds
-- that is the integral part of the double, between 10000 and 3600000; a request without a sign between
-- the two limits is kept, one above or below them is cut to the limit, and one with a sign is cut to the
-- lower limit.
pub revised_timeout-Converts :
    (bits : ℕ)
    → bits < 2 ^ 64
    → Converts (clamp_timeout_bits bits)
      × (bits < 2 ^ 63 → clamp_timeout_bits bits ≡ max timeout_min_bits (min bits timeout_max_bits))
      × (2 ^ 63 ≤ bits → clamp_timeout_bits bits ≡ timeout_min_bits)
unfolding clamp_timeout_bits
revised_timeout-Converts bits fits = (Converts-clamp bits, λ h. ground arith, λ h. ground arith)
