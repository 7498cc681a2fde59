-- ===== src/Common/Bits.antt =====
-- `bit_and` and `bit_or` against masks and shifts of any width, by recursion on the binary digits.
use Prim.Native.Nat.{
  ℕ, zero, suc, ◌+◌, ◌*◌, ◌/◌, ◌%◌, ◌^◌, ◌≤◌, ◌<◌, min, max, bit_and, bit_or, digits,
  bit_and-bitwise, bit_or-bitwise,
}
use mathlib.Core.Path.{◌≡◌, refl}
use native.Mathlib.Omega.{arith}

-- A digit operation whose end case agrees with its step: more fuel changes nothing, so the
-- operation goes digit by digit.
module _ (z : ℕ → ℕ) (f : ℕ → ℕ → ℕ) where
  at_zero : (fuel b : ℕ) → digits z f fuel 0 b ≡ z b
  at_zero zero b = refl
  at_zero (suc fuel) b = refl

  -- A number has no more digits than its value.
  spare_fuel :
      (b a less more : ℕ) → a ≤ less → less ≤ more → digits z f more a b ≡ digits z f less a b
  spare_fuel b zero less more fits grows = omega (arith, at_zero more b, at_zero less b)
  spare_fuel b (suc a) zero more fits grows = absurd (omega arith)
  spare_fuel b (suc a) (suc less) zero fits grows = absurd (omega arith)
  spare_fuel b (suc a) (suc less) (suc more) fits grows =
      let half = spare_fuel (b / 2) (suc a / 2) less more (omega arith) (omega arith) in
      omega (arith, half)

  digits_step :
      (a b : ℕ)
      → z b ≡ z (b / 2) * 2 + f 0 (b % 2)
      → digits z f a a b ≡ digits z f (a / 2) (a / 2) (b / 2) * 2 + f (a % 2) (b % 2)
  digits_step zero b ends = ends
  digits_step (suc a) b ends =
      let half = suc a / 2 in
      omega (arith, spare_fuel (b / 2) half half a (omega arith) (omega arith))

bit_and_step : (a b : ℕ) → bit_and a b ≡ bit_and (a / 2) (b / 2) * 2 + min (a % 2) (b % 2)
bit_and_step a b = omega (
  arith,
  bit_and-bitwise a b,
  bit_and-bitwise (a / 2) (b / 2),
  digits_step (λ b. zero) min a b (omega arith),
)

bit_or_step : (a b : ℕ) → bit_or a b ≡ bit_or (a / 2) (b / 2) * 2 + max (a % 2) (b % 2)
bit_or_step a b = omega (
  arith,
  bit_or-bitwise a b,
  bit_or-bitwise (a / 2) (b / 2),
  digits_step (λ b. b) max a b (omega arith),
)

pub zero-bit_or : (b : ℕ) → bit_or 0 b ≡ b
zero-bit_or b = bit_or-bitwise 0 b

or-zero_fuel : (n a : ℕ) → a ≤ n → bit_or a 0 ≡ a
or-zero_fuel zero a h = omega (arith, zero-bit_or 0, a_zero)
  where
    a_zero : bit_or a 0 ≡ bit_or 0 0
    a_zero = let e : a ≡ 0 = omega arith in rw e
or-zero_fuel (suc n) a h = omega (arith, bit_or_step a 0, or-zero_fuel n (a / 2))

pub bit_or-zero : (a : ℕ) → bit_or a 0 ≡ a
bit_or-zero a = or-zero_fuel a a (omega arith)

-- 2 ^ k, a shift by k to the left and to the right, and the k low digits, by recursion on k.
pub pow2 : ℕ → ℕ
pow2 zero = 1
pow2 (suc k) = pow2 k * 2

pub shl : ℕ → ℕ → ℕ
shl zero a = a
shl (suc k) a = shl k a * 2

pub shr : ℕ → ℕ → ℕ
shr zero a = a
shr (suc k) a = shr k (a / 2)

pub low : ℕ → ℕ → ℕ
low zero a = 0
low (suc k) a = low k (a / 2) * 2 + a % 2

pub mask : ℕ → ℕ
mask zero = 0
mask (suc k) = mask k * 2 + 1

pub bit_or-shl : (k a b : ℕ) → b < pow2 k → bit_or (shl k a) b ≡ shl k a + b
unfolding pow2 shl
bit_or-shl zero a b h = let e : b ≡ 0 = omega arith in rw e (omega (arith, bit_or-zero a))
bit_or-shl (suc k) a b h =
    omega (arith, bit_or_step (shl k a * 2) b, halved, bit_or-shl k a (b / 2) (omega arith))
  where
    halved : bit_or (shl k a * 2 / 2) (b / 2) ≡ bit_or (shl k a) (b / 2)
    halved = let e : shl k a * 2 / 2 ≡ shl k a = omega arith in rw e

pub bit_and-zero : (k a : ℕ) → a ≤ k → bit_and a 0 ≡ 0
bit_and-zero zero a h = let e : a ≡ 0 = omega arith in rw e (bit_and-bitwise 0 0)
bit_and-zero (suc k) a h = omega (arith, bit_and_step a 0, bit_and-zero k (a / 2))

pub bit_and-mask : (k a : ℕ) → bit_and a (mask k) ≡ low k a
unfolding mask low
bit_and-mask zero a = bit_and-zero a a (omega arith)
bit_and-mask (suc k) a =
    omega (arith, bit_and_step a (mask k * 2 + 1), halved, bit_and-mask k (a / 2))
  where
    halved : bit_and (a / 2) ((mask k * 2 + 1) / 2) ≡ bit_and (a / 2) (mask k)
    halved = let e : (mask k * 2 + 1) / 2 ≡ mask k = omega arith in rw e

pub bit_and-shl : (k a m : ℕ) → bit_and a (shl k m) ≡ shl k (bit_and (shr k a) m)
unfolding shl shr
bit_and-shl zero a m = refl
bit_and-shl (suc k) a m =
    omega (arith, bit_and_step a (shl k m * 2), halved, bit_and-shl k (a / 2) m)
  where
    halved : bit_and (a / 2) (shl k m * 2 / 2) ≡ bit_and (a / 2) (shl k m)
    halved = let e : shl k m * 2 / 2 ≡ shl k m = omega arith in rw e

pub low-eq_of_lt : (k a : ℕ) → a < pow2 k → low k a ≡ a
unfolding pow2 low
low-eq_of_lt zero a h = omega arith
low-eq_of_lt (suc k) a h = omega (arith, low-eq_of_lt k (a / 2))

-- The same at the widths of a 64-bit time stamp: 20 low digits and 44 high ones.
pub or_low20 : (a b : ℕ) → b < 1048576 → bit_or (a * 1048576) b ≡ a * 1048576 + b
unfolding pow2 shl
or_low20 a b h = let e : shl 20 a ≡ a * 1048576 = omega arith in rw e at (bit_or-shl 20 a b h)

pub and_low20 : (a : ℕ) → bit_and a 0xfffff ≡ a % 1048576
unfolding mask low
and_low20 a = omega (arith, bit_and-mask 20 a)

pub and_high44 : (a : ℕ) → a < 2 ^ 64 → bit_and a 0xfffffffffff00000 ≡ a / 1048576 * 1048576
unfolding shl shr mask pow2
and_high44 a h = omega (
  arith,
  bit_and-shl 20 a (mask 44),
  bit_and-mask 44 (shr 20 a),
  low-eq_of_lt 44 (shr 20 a) (omega arith),
)
