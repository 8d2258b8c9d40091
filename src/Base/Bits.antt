-- ===== src/Base/Bits.antt =====
-- Single bits: `test_bit a k` is bit `k` of `a`, as 0 or 1. The bit operations, read bit by bit.
pub mod Digits
use Digits.{bit_or_digit, bit_and_digit, bit_xor_digit}
use Prim.Native.Nat.{bit_and-bitwise, bit_or-bitwise}
use Prim.Native.Nat.{
  ℕ, zero, suc, ◌+◌, ◌-◌, ◌*◌, ◌/◌, ◌%◌, ◌^◌, ◌≤◌, ◌<◌, min, max, bit_and, bit_or, bit_xor,
}
use mathlib.Core.Path.{◌∙◌, ◌≡◌, refl, ap}
use native.Mathlib.Nat.{pow-suc, pow-succ', one-le-pow, div-div-eq-div-mul, mod-add-div}
use native.Mathlib.Omega.{arith}
use capucho_os.Base.Tests.{ltb, ◌==◌, if◌then◌else◌}

unfoldable pub test_bit : ℕ → ℕ → ℕ
test_bit a zero = a % 2
test_bit a (suc k) = test_bit (a / 2) k

pub test_bit-le-one : (a k : ℕ) → test_bit a k ≤ 1
unfolding test_bit
test_bit-le-one a zero = omega arith
test_bit-le-one a (suc k) = test_bit-le-one (a / 2) k

pub test_bit-bit_or : (a b k : ℕ) → test_bit (bit_or a b) k ≡ max (test_bit a k) (test_bit b k)
unfolding test_bit
test_bit-bit_or a b zero = omega (arith, bit_or_digit a b)
test_bit-bit_or a b (suc k) =
    let halves : bit_or a b / 2 ≡ bit_or (a / 2) (b / 2) = omega (arith, bit_or_digit a b) in
    rw halves (test_bit-bit_or (a / 2) (b / 2) k)

pub test_bit-bit_and : (a b k : ℕ) → test_bit (bit_and a b) k ≡ min (test_bit a k) (test_bit b k)
unfolding test_bit
test_bit-bit_and a b zero = omega (arith, bit_and_digit a b)
test_bit-bit_and a b (suc k) =
    let halves : bit_and a b / 2 ≡ bit_and (a / 2) (b / 2) = omega (arith, bit_and_digit a b) in
    rw halves (test_bit-bit_and (a / 2) (b / 2) k)

pub test_bit-bit_xor : (a b k : ℕ) → test_bit (bit_xor a b) k ≡ (test_bit a k + test_bit b k) % 2
unfolding test_bit
test_bit-bit_xor a b zero = omega (arith, bit_xor_digit a b)
test_bit-bit_xor a b (suc k) =
    let halves : bit_xor a b / 2 ≡ bit_xor (a / 2) (b / 2) = omega (arith, bit_xor_digit a b) in
    rw halves (test_bit-bit_xor (a / 2) (b / 2) k)

pub test_bit-zero : (k : ℕ) → test_bit 0 k ≡ 0
unfolding test_bit
test_bit-zero zero = refl
test_bit-zero (suc k) = test_bit-zero k

-- A power of two has one bit.
pub test_bit-pow : (j k : ℕ) → test_bit (2 ^ j) k ≡ (if j == k then 1 else 0)
unfolding test_bit
test_bit-pow zero zero = refl
test_bit-pow zero (suc k) = ground (arith, test_bit-zero k)
test_bit-pow (suc j) zero = ground (arith, pow-suc 2 j)
test_bit-pow (suc j) (suc k) =
    let halves : 2 ^ suc j / 2 ≡ 2 ^ j = omega (arith, pow-suc 2 j) in
    rw halves (ground (arith, test_bit-pow j k))

-- A number below `2 ^ n` has no bit from `n` on.
pub test_bit_above : (n a k : ℕ) → a < 2 ^ n → n ≤ k → test_bit a k ≡ 0
unfolding test_bit
test_bit_above zero a k h le = let e : a ≡ 0 = omega arith in rw e (test_bit-zero k)
test_bit_above (suc n) a zero h le = absurd (omega arith)
test_bit_above (suc n) a (suc k) h le =
    test_bit_above n (a / 2) k (omega (arith, pow-suc 2 n)) (omega arith)

-- `2 ^ n - 1 - a`, the `!a` of an `n`-bit integer, has the other bits.
pub test_bit_not : (n a k : ℕ) → a < 2 ^ n → k < n → test_bit (2 ^ n - 1 - a) k ≡ 1 - test_bit a k
unfolding test_bit
test_bit_not zero a k h lt = absurd (omega arith)
test_bit_not (suc n) a zero h lt = omega (arith, pow-suc 2 n)
test_bit_not (suc n) a (suc k) h lt =
    let halves : (2 ^ suc n - 1 - a) / 2 ≡ 2 ^ n - 1 - a / 2 = omega (arith, pow-suc 2 n) in
    rw halves (test_bit_not n (a / 2) k (omega (arith, pow-suc 2 n)) (omega arith))

-- Two numbers with the same bits are equal, if both fit `n` bits.
pub test_bit_ext :
    (n a b : ℕ) → a < 2 ^ n → b < 2 ^ n → ((k : ℕ) → k < n → test_bit a k ≡ test_bit b k) → a ≡ b
unfolding test_bit
test_bit_ext zero a b p q h = omega arith
test_bit_ext (suc n) a b p q h = omega (
  arith,
  h 0 (omega arith),
  test_bit_ext n (a / 2) (b / 2) (omega (arith, pow-suc 2 n)) (omega (arith, pow-suc 2 n))
      (λ k lt. h (suc k) (omega arith)),
)

pub bit_or-lt : (n a b : ℕ) → a < 2 ^ n → b < 2 ^ n → bit_or a b < 2 ^ n
bit_or-lt zero a b p q =
    let e : a ≡ 0 = omega arith in let f : b ≡ 0 = omega arith in rw (e, f) (omega arith)
bit_or-lt (suc n) a b p q = omega (
  arith,
  pow-suc 2 n,
  bit_or_digit a b,
  bit_or-lt n (a / 2) (b / 2) (omega (arith, pow-suc 2 n)) (omega (arith, pow-suc 2 n)),
)

pub bit_xor-lt : (n a b : ℕ) → a < 2 ^ n → b < 2 ^ n → bit_xor a b < 2 ^ n
bit_xor-lt zero a b p q =
    let e : a ≡ 0 = omega arith in let f : b ≡ 0 = omega arith in rw (e, f) (omega arith)
bit_xor-lt (suc n) a b p q = omega (
  arith,
  pow-suc 2 n,
  bit_xor_digit a b,
  bit_xor-lt n (a / 2) (b / 2) (omega (arith, pow-suc 2 n)) (omega (arith, pow-suc 2 n)),
)

zero-bit_and : (b : ℕ) → bit_and 0 b ≡ 0
zero-bit_and b = bit_and-bitwise 0 b

bit_and-le_fuel : (n a b : ℕ) → a ≤ n → bit_and a b ≤ a
bit_and-le_fuel zero a b h = let e : a ≡ 0 = omega arith in rw e (omega (arith, zero-bit_and b))
bit_and-le_fuel (suc n) zero b h = omega (arith, zero-bit_and b)
bit_and-le_fuel (suc n) (suc a) b h =
    omega (arith, bit_and_digit (suc a) b, bit_and-le_fuel n (suc a / 2) (b / 2) (omega arith))

pub bit_and-le : (a b : ℕ) → bit_and a b ≤ a
bit_and-le a b = bit_and-le_fuel a a b (omega arith)

bit_and-zero_fuel : (n a : ℕ) → a ≤ n → bit_and a 0 ≡ 0
bit_and-zero_fuel zero a h = omega (arith, bit_and-le a 0)
bit_and-zero_fuel (suc n) zero h = omega (arith, bit_and-le 0 0)
bit_and-zero_fuel (suc n) (suc a) h =
    omega (arith, bit_and_digit (suc a) 0, bit_and-zero_fuel n (suc a / 2) (omega arith))

pub bit_and-zero : (a : ℕ) → bit_and a 0 ≡ 0
bit_and-zero a = bit_and-zero_fuel a a (omega arith)

pub bit_or-zero : (n a : ℕ) → a ≤ n → bit_or a 0 ≡ a
bit_or-zero zero a h = let e : a ≡ 0 = omega arith in rw e
bit_or-zero (suc n) zero h = refl
bit_or-zero (suc n) (suc a) h =
    omega (arith, bit_or_digit (suc a) 0, bit_or-zero n (suc a / 2) (omega arith))

-- The test `a & (1 << k) != 0`.
pub bit_and-pow : (a k : ℕ) → bit_and a (2 ^ k) ≡ test_bit a k * 2 ^ k
unfolding test_bit
bit_and-pow a zero = omega (arith, bit_and_digit a 1, bit_and-zero (a / 2))
bit_and-pow a (suc k) =
    let half : 2 ^ suc k / 2 ≡ 2 ^ k = omega (arith, pow-suc 2 k) in
    let even : 2 ^ suc k % 2 ≡ 0 = omega (arith, pow-suc 2 k) in
    let digit : bit_and a (2 ^ suc k) ≡ bit_and (a / 2) (2 ^ k) * 2 =
      omega (arith, bit_and_digit a (2 ^ suc k), ap (bit_and (a / 2)) half) in
    omega
      (arith, digit, bit_and-pow (a / 2) k, ap (λ (t : ℕ). test_bit (a / 2) k * t) (pow-suc 2 k))

pub zero-bit_or : (b : ℕ) → bit_or 0 b ≡ b
zero-bit_or b = bit_or-bitwise 0 b

pub pow-pos : (n : ℕ) → 1 ≤ 2 ^ n
pow-pos zero = omega arith
pow-pos (suc n) = omega (arith, pow-pos n)
