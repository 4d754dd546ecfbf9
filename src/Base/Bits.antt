-- ===== src/Base/Bits.antt =====
-- `&` and `|` of C on the native numbers: the masks and the disjoint fields that the kernel's
-- code uses, read as remainders, quotients and sums.
use Prim.Native.Nat.{
  ℕ, zero, suc, ◌+◌, ◌-◌, ◌*◌, ◌/◌, ◌%◌, ◌^◌, ◌≤◌, ◌<◌, min, max, digits, bit_and, bit_or,
  bit_and-bitwise, bit_or-bitwise,
}
use mathlib.Core.Path.{◌≡◌, refl, ap, sym}
use native.Mathlib.Nat.{
  pow-suc, pow-succ', one-le-pow, div-div-eq-div-mul, mod_def, mod-add-div, mul-one, div-one,
}
use native.Mathlib.Omega.{arith}

-- The native operations recur on the binary digits with fuel. Any two amounts that suffice agree.
enough_fuel :
    (z : ℕ → ℕ) (f : ℕ → ℕ → ℕ) (j k a b : ℕ) → a ≤ j → a ≤ k → digits z f j a b ≡ digits z f k a b
enough_fuel z f zero zero zero b hj hk = refl
enough_fuel z f zero (suc k) zero b hj hk = refl
enough_fuel z f (suc j) zero zero b hj hk = refl
enough_fuel z f (suc j) (suc k) zero b hj hk = refl
enough_fuel z f zero k (suc a) b hj hk = absurd (omega arith)
enough_fuel z f (suc j) zero (suc a) b hj hk = absurd (omega arith)
enough_fuel z f (suc j) (suc k) (suc a) b hj hk =
    let ih = enough_fuel z f j k (suc a / 2) (b / 2) (omega arith) (omega arith) in
    omega (arith, ih)

pub bit_and_halves : (a b : ℕ) → bit_and a b ≡ 2 * bit_and (a / 2) (b / 2) + min (a % 2) (b % 2)
bit_and_halves zero b = omega (arith, bit_and-bitwise 0 b, bit_and-bitwise 0 (b / 2))
bit_and_halves (suc a) b = omega (
  arith,
  bit_and-bitwise (suc a) b,
  bit_and-bitwise (suc a / 2) (b / 2),
  enough_fuel (λ y. 0) min a (suc a / 2) (suc a / 2) (b / 2) (omega arith) (omega arith),
)

pub bit_or_halves : (a b : ℕ) → bit_or a b ≡ 2 * bit_or (a / 2) (b / 2) + max (a % 2) (b % 2)
bit_or_halves zero b = omega (arith, bit_or-bitwise 0 b, bit_or-bitwise 0 (b / 2))
bit_or_halves (suc a) b = omega (
  arith,
  bit_or-bitwise (suc a) b,
  bit_or-bitwise (suc a / 2) (b / 2),
  enough_fuel (λ y. y) max a (suc a / 2) (suc a / 2) (b / 2) (omega arith) (omega arith),
)

-- Below `2 ^ k` only the low `k` digits count: the base of the inductions on a width.
bit_and-zero_below : (k a : ℕ) → a ≤ k → bit_and a 0 ≡ 0
bit_and-zero_below zero zero h = refl
bit_and-zero_below zero (suc a) h = absurd (omega arith)
bit_and-zero_below (suc k) zero h = refl
bit_and-zero_below (suc k) (suc a) h =
    omega (arith, bit_and_halves (suc a) 0, bit_and-zero_below k (suc a / 2) (omega arith))

bit_or-zero_below : (k a : ℕ) → a ≤ k → bit_or a 0 ≡ a
bit_or-zero_below zero zero h = refl
bit_or-zero_below zero (suc a) h = absurd (omega arith)
bit_or-zero_below (suc k) zero h = refl
bit_or-zero_below (suc k) (suc a) h =
    omega (arith, bit_or_halves (suc a) 0, bit_or-zero_below k (suc a / 2) (omega arith))

pub bit_and-zero : (a : ℕ) → bit_and a 0 ≡ 0
bit_and-zero a = bit_and-zero_below a a (omega arith)

pub bit_or-zero : (a : ℕ) → bit_or a 0 ≡ a
bit_or-zero a = bit_or-zero_below a a (omega arith)

pub zero-bit_or : (a : ℕ) → bit_or 0 a ≡ a
zero-bit_or a = bit_or-bitwise 0 a

double-pow : (a k : ℕ) → a * 2 ^ suc k ≡ 2 * (a * 2 ^ k)
double-pow a k = omega (arith, ap (λ (p : ℕ). a * p) (pow-suc 2 k))

half-pow : (a k : ℕ) → a * 2 ^ suc k / 2 ≡ a * 2 ^ k
half-pow a k = omega (arith, double-pow a k)

even-pow : (a k : ℕ) → a * 2 ^ suc k % 2 ≡ 0
even-pow a k = omega (arith, double-pow a k)

half-mask : (k : ℕ) → (2 ^ suc k - 1) / 2 ≡ 2 ^ k - 1
half-mask k = omega (arith, pow-suc 2 k, one-le-pow k 2)

odd-mask : (k : ℕ) → (2 ^ suc k - 1) % 2 ≡ 1
odd-mask k = omega (arith, pow-suc 2 k, one-le-pow k 2)

div-pow-suc : (a k : ℕ) → a / 2 ^ suc k ≡ a / 2 / 2 ^ k
div-pow-suc a k = rw (pow-succ', div-div-eq-div-mul)

mod-pow-suc : (a k : ℕ) → a % 2 ^ suc k ≡ 2 * (a / 2 % 2 ^ k) + a % 2
mod-pow-suc a k = omega (
  arith,
  mod_def a (2 ^ suc k),
  ap (λ (t : ℕ). 2 ^ suc k * t) (div-pow-suc a k),
  ap (λ (t : ℕ). t * (a / 2 / 2 ^ k)) (pow-succ' 2 k),
  mod-add-div (a / 2) (2 ^ k),
)

-- `x & ((1 << k) - 1)` keeps the low `k` bits.
pub bit_and-low_mask : (k a : ℕ) → bit_and a (2 ^ k - 1) ≡ a % 2 ^ k
bit_and-low_mask zero a = omega (arith, bit_and-zero a)
bit_and-low_mask (suc k) a =
    rw (bit_and_halves, half-mask, odd-mask, bit_and-low_mask k (a / 2), mod-pow-suc) (omega arith)

-- `x & (m << k)` tests `m` on the bits from `k` on.
pub bit_and-high : (k a m : ℕ) → bit_and a (m * 2 ^ k) ≡ bit_and (a / 2 ^ k) m * 2 ^ k
bit_and-high zero a m = rw (mul-one, div-one, mul-one)
bit_and-high (suc k) a m =
    rw (bit_and_halves, half-pow, even-pow, bit_and-high k (a / 2) m, ← div-pow-suc)
      (omega (arith, double-pow (bit_and (a / 2 ^ suc k) m) k))

-- `(a << k) | b` is a sum where `b` fits `k` bits.
pub bit_or_disjoint : (k a b : ℕ) → b < 2 ^ k → bit_or (a * 2 ^ k) b ≡ a * 2 ^ k + b
bit_or_disjoint zero a b h =
    let e : b ≡ 0 = omega arith in rw (e, mul-one, bit_or-zero) (omega arith)
bit_or_disjoint (suc k) a b h =
    rw (bit_or_halves, half-pow, even-pow, bit_or_disjoint k a (b / 2) (omega (arith, pow-suc 2 k)))
      (omega (arith, double-pow a k))

-- The same, for a left operand that is known to be a multiple of `2 ^ k`.
pub bit_or_multiple : (k a x b : ℕ) → x ≡ a * 2 ^ k → b < 2 ^ k → bit_or x b ≡ x + b
bit_or_multiple k a x b e h = rw e (bit_or_disjoint k a b h)

-- The same with the fields the other way round.
pub bit_or_disjoint_right : (k a b : ℕ) → b < 2 ^ k → bit_or b (a * 2 ^ k) ≡ b + a * 2 ^ k
bit_or_disjoint_right zero a b h = let e : b ≡ 0 = omega arith in rw (e, zero-bit_or) (omega arith)
bit_or_disjoint_right (suc k) a b h =
    rw
      (
        bit_or_halves,
        half-pow,
        even-pow,
        bit_or_disjoint_right k a (b / 2) (omega (arith, pow-suc 2 k)),
      )
      (omega (arith, double-pow a k))

-- `x | 1` of an odd number.
pub odd-bit_or-one : (x : ℕ) → x % 2 ≡ 1 → bit_or x 1 ≡ x
odd-bit_or-one x h = rw (bit_or_halves, bit_or-zero) (omega arith)

-- `x & (((1 << n) - 1) << k)` keeps `n` bits from bit `k` on, and clears those below.
pub bit_and-field : (k n a : ℕ) → bit_and a ((2 ^ n - 1) * 2 ^ k) ≡ a / 2 ^ k % 2 ^ n * 2 ^ k
bit_and-field k n a = rw (bit_and-high, bit_and-low_mask)

pow-half : (k : ℕ) → 2 ^ suc k / 2 ≡ 2 ^ k
pow-half k = omega (arith, pow-suc 2 k)

bit_or-half : (x k : ℕ) → bit_or x (2 ^ suc k) / 2 ≡ bit_or (x / 2) (2 ^ k)
bit_or-half x k = omega (arith, bit_or_halves x (2 ^ suc k), ap (bit_or (x / 2)) (pow-half k))

-- `x | (1 << k)` has bit `k`.
pub bit_or-pow : (k x : ℕ) → bit_or x (2 ^ k) / 2 ^ k % 2 ≡ 1
bit_or-pow zero x = rw div-one (omega (arith, bit_or_halves x 1))
bit_or-pow (suc k) x = rw (div-pow-suc, bit_or-half x k) (bit_or-pow k (x / 2))

-- And the other bits of `x`.
pub bit_or-pow_low : (k x : ℕ) → bit_or x (2 ^ k) % 2 ^ k ≡ x % 2 ^ k
bit_or-pow_low zero x = omega arith
bit_or-pow_low (suc k) x =
    rw (mod-pow-suc, mod-pow-suc, bit_or-half x k, bit_or-pow_low k (x / 2))
      (omega (arith, bit_or_halves x (2 ^ suc k), double-pow 1 k))

pub bit_or-pow_high : (k x : ℕ) → bit_or x (2 ^ k) / 2 ^ suc k ≡ x / 2 ^ suc k
bit_or-pow_high zero x = omega (arith, bit_or_halves x 1, bit_or-zero (x / 2))
bit_or-pow_high (suc k) x =
    rw (div-pow-suc (bit_or x (2 ^ suc k)) (suc k), bit_or-half x k, bit_or-pow_high k (x / 2))
      (sym (div-pow-suc x (suc k)))

-- `x & ~2` of a word.
pub bit_and-clear_one : (x : ℕ) → x < 2 ^ 64 → bit_and x (2 ^ 64 - 3) ≡ x / 4 * 4 + x % 2
bit_and-clear_one x h = omega (
  arith,
  bit_and_halves x (2 ^ 64 - 3),
  bit_and_halves (x / 2) (2 ^ 63 - 2),
  bit_and-low_mask 62 (x / 2 / 2),
)
