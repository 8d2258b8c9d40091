-- ===== src/Base/Shifts.antt =====
-- Shifts and masks: `(q << k) | r`, `a & (2 ^ k - 1)` and the bits of a shifted number.
use capucho_os.Base.Bits.Digits.{bit_or_digit, bit_and_digit}
use Prim.Native.Nat.{ℕ, zero, suc, ◌+◌, ◌-◌, ◌*◌, ◌/◌, ◌%◌, ◌^◌, ◌≤◌, ◌<◌, bit_and, bit_or}
use mathlib.Core.Path.{◌∙◌, ◌≡◌, refl, ap}
use native.Mathlib.Nat.{pow-suc, pow-succ', one-le-pow, div-div-eq-div-mul, mod-add-div}
use native.Mathlib.Omega.{arith}
use capucho_os.Base.Tests.{ltb, if◌then◌else◌}
use capucho_os.Base.Bits.{
  test_bit, test_bit-le-one, test_bit-bit_and, test_bit-zero, test_bit_not, bit_and-zero,
  bit_or-zero,
}

-- `(q << k) | r` is a sum where `r` fits `k` bits.
pub bit_or-shifted : (k q r : ℕ) → r < 2 ^ k → bit_or (q * 2 ^ k) r ≡ q * 2 ^ k + r
bit_or-shifted zero q r h = ground (arith, bit_or-zero (q * 1) (q * 1))
bit_or-shifted (suc k) q r h =
    let double : q * 2 ^ suc k ≡ 2 * (q * 2 ^ k) =
      omega (arith, ap (λ (t : ℕ). q * t) (pow-suc 2 k)) in
    let half : q * 2 ^ suc k / 2 ≡ q * 2 ^ k = omega arith in
    omega (
      arith,
      bit_or_digit (q * 2 ^ suc k) r,
      ap (λ (t : ℕ). bit_or t (r / 2)) half,
      bit_or-shifted k q (r / 2) (omega (arith, pow-suc 2 k)),
    )

zero-bit_or_self : (n a : ℕ) → a ≤ n → bit_or 0 a ≡ a
zero-bit_or_self zero a h = let e : a ≡ 0 = omega arith in rw e
zero-bit_or_self (suc n) zero h = refl
zero-bit_or_self (suc n) (suc a) h =
    omega (arith, bit_or_digit 0 (suc a), zero-bit_or_self n (suc a / 2) (omega arith))

-- The same with the shifted part on the right.
pub bit_or-below : (k q r : ℕ) → r < 2 ^ k → bit_or r (q * 2 ^ k) ≡ q * 2 ^ k + r
bit_or-below zero q r h =
    let e : r ≡ 0 = omega arith in
    let one : q * 1 ≡ q = omega arith in
    rw (e, one) (zero-bit_or_self q q (omega arith) ∙ omega arith)
bit_or-below (suc k) q r h =
    let half : q * 2 ^ suc k / 2 ≡ q * 2 ^ k = omega (arith, ap (λ (t : ℕ). q * t) (pow-suc 2 k)) in
    omega (
      arith,
      ap (λ (t : ℕ). q * t) (pow-suc 2 k),
      bit_or_digit r (q * 2 ^ suc k),
      ap (bit_or (r / 2)) half,
      bit_or-below k q (r / 2) (omega (arith, pow-suc 2 k)),
    )

-- `a & (2 ^ k - 1)` keeps the low `k` bits.
mod-double : (a m : ℕ) → a % (2 * m) ≡ a / 2 % m * 2 + a % 2
mod-double a m =
    let outer : a % (2 * m) + 2 * m * (a / (2 * m)) ≡ a = mod-add-div a (2 * m) in
    let inner : a / 2 % m + m * (a / 2 / m) ≡ a / 2 = mod-add-div (a / 2) m in
    let same : 2 * m * (a / (2 * m)) ≡ 2 * (m * (a / 2 / m)) =
      rw (div-div-eq-div-mul a 2 m) (omega arith) in
    omega arith

pub bit_and-mask : (k a : ℕ) → bit_and a (2 ^ k - 1) ≡ a % 2 ^ k
bit_and-mask zero a = omega (arith, bit_and-zero a)
bit_and-mask (suc k) a =
    let half : (2 ^ suc k - 1) / 2 ≡ 2 ^ k - 1 = omega (arith, pow-suc 2 k) in
    let odd : (2 ^ suc k - 1) % 2 ≡ 1 = omega (arith, pow-suc 2 k, one-le-pow k 2) in
    ground (
      arith,
      pow-suc 2 k,
      one-le-pow k 2,
      bit_and_digit a (2 ^ suc k - 1),
      ap (bit_and (a / 2)) half,
      bit_and-mask k (a / 2),
      ap (λ (t : ℕ). a % t) (pow-succ' 2 k),
      mod-double a (2 ^ k),
    )

pub test_bit_lem : (a k : ℕ) → test_bit a k ≡ a / 2 ^ k % 2
unfolding test_bit
test_bit_lem a zero = omega arith
test_bit_lem a (suc k) =
    rw (pow-succ' 2 k, ← div-div-eq-div-mul a 2 (2 ^ k)) (test_bit_lem (a / 2) k)

-- A left shift moves the bits up, a right shift down.
pub test_bit-shift_up :
    (s a j : ℕ) → test_bit (a * 2 ^ s) j ≡ (if ltb j s then 0 else test_bit a (j - s))
unfolding test_bit
test_bit-shift_up zero a j =
    let same : a * 2 ^ 0 ≡ a = omega arith in
    let off : j - 0 ≡ j = omega arith in rw (same, off) (ground arith)
test_bit-shift_up (suc s) a zero = ground (arith, ap (λ (t : ℕ). a * t) (pow-suc 2 s))
test_bit-shift_up (suc s) a (suc j) =
    let half : a * 2 ^ suc s / 2 ≡ a * 2 ^ s = omega (arith, ap (λ (t : ℕ). a * t) (pow-suc 2 s)) in
    let off : suc j - suc s ≡ j - s = omega arith in
    rw (half, off, test_bit-shift_up s a j) (ground arith)

pub test_bit-shift_down : (s a j : ℕ) → test_bit (a / 2 ^ s) j ≡ test_bit a (s + j)
unfolding test_bit
test_bit-shift_down zero a j =
    let same : a / 2 ^ 0 ≡ a = omega arith in let off : 0 + j ≡ j = omega arith in rw (same, off)
test_bit-shift_down (suc s) a j =
    let off : suc s + j ≡ suc (s + j) = omega arith in
    rw (off, pow-succ' 2 s, ← div-div-eq-div-mul a 2 (2 ^ s)) (test_bit-shift_down s (a / 2) j)

-- The low `n` bits are those of the remainder.
pub test_bit-mod : (n a k : ℕ) → k < n → test_bit (a % 2 ^ n) k ≡ test_bit a k
test_bit-mod n a k h =
    let ones : test_bit (2 ^ n - 1 - 0) k ≡ 1 - test_bit 0 k =
      test_bit_not n 0 k (one-le-pow n 2 (omega arith)) h in
    let mask : 2 ^ n - 1 - 0 ≡ 2 ^ n - 1 = omega arith in
    rw (← bit_and-mask n a, test_bit-bit_and a (2 ^ n - 1) k, ← mask, ones, test_bit-zero k)
      (omega (arith, test_bit-le-one a k))

-- The two 32-bit halves of a 64-bit number give the number again.
pub bit_or-halves :
    (n : ℕ) → n < 2 ^ 64 → bit_or (n / 2 ^ 32 % 2 ^ 32 * 2 ^ 32 % 2 ^ 64) (n % 2 ^ 32) ≡ n
bit_or-halves n h =
    let high : n / 2 ^ 32 % 2 ^ 32 * 2 ^ 32 % 2 ^ 64 ≡ n / 2 ^ 32 * 2 ^ 32 = omega arith in
    rw (high, bit_or-shifted 32 (n / 2 ^ 32) (n % 2 ^ 32) (omega arith)) (omega arith)
