-- ===== src/Prelude/Words.antt =====
-- Go's fixed-width integers. `int64`, and so `ByteCount`, `PacketNumber` and `time.Duration`, is an
-- integer that every sum, difference and product brings back into its range; `uint64` is a number
-- below 2^64. `/` and `%` on `int64` round towards zero.
use Prim.Native.Nat.{ℕ, zero, suc, ◌+◌, ◌-◌, ◌*◌, ◌/◌, ◌%◌, ◌^◌, ◌≤◌, ◌<◌}
use mathlib.Core.Option.{Option, none, some}
use mathlib.Core.Path.{◌≡◌}
use native.Mathlib.Omega.{arith}
use native.Mathlib.Nat.{div-le_self}
use qperf_go.Prelude.Tests.{ltb, if◌then◌else◌}
use qperf_go.Prelude.Int.{
  ℤ, pos, negsuc, pos_part, neg_part, sub_ℕ, ◌+ℤ◌, ◌-ℤ◌, ◌*ℤ◌, +ℤ_parts, -ℤ_parts, *ℤ_pos,
}

abbrev pub max_i64 : ℕ
max_i64 = 2 ^ 63 - 1

-- The bit pattern of an integer, and the `int64` that a bit pattern stands for.
unfoldable pub bits64 : ℤ → ℕ
bits64 (pos n) = n % 2 ^ 64
bits64 (negsuc n) = 2 ^ 64 - 1 - n % 2 ^ 64

unfoldable pub of_bits64 : ℕ → ℤ
of_bits64 u = if ltb u (2 ^ 63) then pos u else negsuc (2 ^ 64 - 1 - u)

unfoldable pub i64 : ℤ → ℤ
unfolding bits64 of_bits64
i64 a = of_bits64 (bits64 a)

-- A value that an `int64` holds.
abbrev pub InI64 : ℤ → Type 0
InI64 a = (pos_part a < 2 ^ 63) × (neg_part a ≤ 2 ^ 63)

pub i64_exact : (a : ℤ) → pos_part a < 2 ^ 63 → neg_part a ≤ 2 ^ 63 → i64 a ≡ a
unfolding i64
i64_exact (pos n) p q = ground arith
i64_exact (negsuc n) p q = ground arith

pub i64-InI64 : (a : ℤ) → InI64 (i64 a)
unfolding i64
i64-InI64 (pos n) = ground arith
i64-InI64 (negsuc n) = ground arith

infixl 65 ◌+i◌ ◌-i◌
infixl 70 ◌*i◌
unfoldable pub ◌+i◌ : ℤ → ℤ → ℤ
a +i b = i64 (a +ℤ b)

unfoldable pub ◌-i◌ : ℤ → ℤ → ℤ
a -i b = i64 (a -ℤ b)

unfoldable pub ◌*i◌ : ℤ → ℤ → ℤ
a *i b = i64 (a *ℤ b)

-- Division by a positive constant, rounded towards zero.
unfoldable pub div_i : ℤ → ℕ → ℤ
div_i (pos n) d = pos (n / d)
div_i (negsuc n) d = sub_ℕ 0 (suc n / d)

-- Division, which panics for a divisor of 0.
unfoldable pub quotient : ℤ → ℤ → Option ℤ
quotient a (pos zero) = none
quotient a (pos (suc d)) = some (div_i a (suc d))
quotient a (negsuc d) = some (i64 (pos 0 -ℤ div_i a (suc d)))

-- `a >> k`, which rounds down.
unfoldable pub shr_i : ℤ → ℕ → ℤ
shr_i (pos n) k = pos (n / 2 ^ k)
shr_i (negsuc n) k = negsuc (n / 2 ^ k)

-- Sums and differences that stay in range.
pub +i_exact :
    (a b : ℤ)
    → pos_part a + pos_part b < 2 ^ 63 + neg_part a + neg_part b
    → neg_part a + neg_part b ≤ 2 ^ 63 + pos_part a + pos_part b
    → a +i b ≡ a +ℤ b
unfolding ◌+i◌
+i_exact a b p q = i64_exact (a +ℤ b) (ground (arith, +ℤ_parts a b)) (ground (arith, +ℤ_parts a b))

pub -i_exact :
    (a b : ℤ)
    → pos_part a + neg_part b < 2 ^ 63 + neg_part a + pos_part b
    → neg_part a + pos_part b ≤ 2 ^ 63 + pos_part a + neg_part b
    → a -i b ≡ a -ℤ b
unfolding ◌-i◌
-i_exact a b p q = i64_exact (a -ℤ b) (ground (arith, -ℤ_parts a b)) (ground (arith, -ℤ_parts a b))

-- `uint64` arithmetic wraps.
abbrev pub u64 : ℕ → ℕ
u64 n = n % 2 ^ 64

-- `uint64(x)` for an `int64` x, and `int64(u)` for a `uint64` u.
abbrev pub to_u64 : ℤ → ℕ
to_u64 a = bits64 a

abbrev pub to_i64 : ℕ → ℤ
to_i64 u = of_bits64 (u64 u)

pub *i_pos : (a b : ℕ) → a * b < 2 ^ 63 → pos a *i pos b ≡ pos (a * b)
unfolding ◌*i◌
*i_pos a b h = rw (*ℤ_pos a b) (i64_exact (pos (a * b)) h (omega arith))

-- Division shrinks, and keeps the sign.
pub div_i-small : (a : ℤ) (d : ℕ) → 0 < d → pos_part a < 2 ^ 63 → pos_part (div_i a d) < 2 ^ 63
unfolding div_i
div_i-small (pos n) d h p = omega (arith, div-le_self n d)
div_i-small (negsuc n) d h p = ground arith
