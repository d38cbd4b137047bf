-- ===== src/Prelude/Bits.antt =====
-- `bit_or` of fields that do not overlap is a sum.
use Prim.Native.Nat.{
  ℕ, zero, suc, ◌+◌, ◌*◌, ◌/◌, ◌%◌, ◌^◌, ◌≤◌, ◌<◌, max, bit_or, digits, bit_or-bitwise,
}
use mathlib.Core.Path.{◌≡◌, refl, ap}
use native.Mathlib.Omega.{arith}

-- The recursion that the native operation stands for, on fuel.
abbrev or_digits : ℕ → ℕ → ℕ → ℕ
or_digits fuel a b = digits (λ r. r) max fuel a b

or_digits_fuel : (n m a b : ℕ) → a ≤ n → a ≤ m → or_digits n a b ≡ or_digits m a b
or_digits_fuel zero zero a b p q = refl
or_digits_fuel zero (suc m) zero b p q = refl
or_digits_fuel zero (suc m) (suc a) b p q = absurd (omega arith)
or_digits_fuel (suc n) zero zero b p q = refl
or_digits_fuel (suc n) zero (suc a) b p q = absurd (omega arith)
or_digits_fuel (suc n) (suc m) zero b p q = refl
or_digits_fuel (suc n) (suc m) (suc a) b p q =
    omega (arith, or_digits_fuel n m (suc a / 2) (b / 2) (omega arith) (omega arith))

pub zero-bit_or : (b : ℕ) → bit_or 0 b ≡ b
zero-bit_or b = bit_or-bitwise 0 b

-- The law of the lowest digit.
pub bit_or_step : (a b : ℕ) → bit_or a b ≡ bit_or (a / 2) (b / 2) * 2 + max (a % 2) (b % 2)
bit_or_step zero b = omega (arith, zero-bit_or b, zero-bit_or (b / 2))
bit_or_step (suc a) b = omega (
  arith,
  bit_or-bitwise (suc a) b,
  bit_or-bitwise (suc a / 2) (b / 2),
  or_digits_fuel a (suc a / 2) (suc a / 2) (b / 2) (omega arith) (omega arith),
)

bit_or-zero_fuel : (n a : ℕ) → a ≤ n → bit_or a 0 ≡ a
bit_or-zero_fuel n zero h = zero-bit_or 0
bit_or-zero_fuel zero (suc a) h = absurd (omega arith)
bit_or-zero_fuel (suc n) (suc a) h =
    omega (arith, bit_or_step (suc a) 0, bit_or-zero_fuel n (suc a / 2) (omega arith))

pub bit_or-zero : (a : ℕ) → bit_or a 0 ≡ a
bit_or-zero a = bit_or-zero_fuel a a (omega arith)

double : (k : ℕ) → 2 ^ suc k ≡ 2 * 2 ^ k
double k = omega arith

-- A field of `k` bits under a number shifted by `k`.
pub bit_or_disjoint : (k g x : ℕ) → x < 2 ^ k → bit_or (g * 2 ^ k) x ≡ g * 2 ^ k + x
bit_or_disjoint zero g x h =
    omega (arith, ap (bit_or (g * 2 ^ 0)) {x = x} {y = 0} (omega arith), bit_or-zero (g * 2 ^ 0))
bit_or_disjoint (suc k) g x h = omega (
  arith,
  bit_or_step (g * 2 ^ suc k) x,
  ap (λ (t : ℕ). g * t) (double k),
  double k,
  bit_or_disjoint k g (x / 2) (omega (arith, double k)),
  ap (λ (t : ℕ). bit_or t (x / 2)) {x = g * 2 ^ suc k / 2} {y = g * 2 ^ k}
      (omega (arith, ap (λ (t : ℕ). g * t) (double k))),
)

-- Two numbers of two fields each are joined field by field.
pub bit_or_split :
    (k g h x y : ℕ)
    → x < 2 ^ k
    → y < 2 ^ k
    → bit_or (g * 2 ^ k + x) (h * 2 ^ k + y) ≡ bit_or g h * 2 ^ k + bit_or x y
bit_or_split zero g h x y p q = omega (
  arith,
  ap (λ (t : ℕ). bit_or t (h * 2 ^ 0 + y)) {x = g * 2 ^ 0 + x} {y = g} (omega arith),
  ap (bit_or g) {x = h * 2 ^ 0 + y} {y = h} (omega arith),
  ap (λ (t : ℕ). bit_or t y) {x = x} {y = 0} (omega arith),
  zero-bit_or y,
)
bit_or_split (suc k) g h x y p q = omega (
  arith,
  double k,
  ap (λ (t : ℕ). g * t) (double k),
  ap (λ (t : ℕ). h * t) (double k),
  ap (λ (t : ℕ). bit_or g h * t) (double k),
  bit_or_step (g * 2 ^ suc k + x) (h * 2 ^ suc k + y),
  bit_or_step x y,
  bit_or_split k g h (x / 2) (y / 2) (omega (arith, double k)) (omega (arith, double k)),
  ap (λ (t : ℕ). bit_or t ((h * 2 ^ suc k + y) / 2)) {x = (g * 2 ^ suc k + x) / 2}
      {y = g * 2 ^ k + x / 2} (omega (arith, double k, ap (λ (t : ℕ). g * t) (double k))),
  ap (bit_or (g * 2 ^ k + x / 2)) {x = (h * 2 ^ suc k + y) / 2} {y = h * 2 ^ k + y / 2}
      (omega (arith, double k, ap (λ (t : ℕ). h * t) (double k))),
)

-- A field of `k` bits between a number above it and one below it.
pub bit_or_between :
    (j k h m l : ℕ)
    → m < 2 ^ j
    → l < 2 ^ k
    → bit_or (h * 2 ^ j * 2 ^ k + l) (m * 2 ^ k + 0) ≡ (h * 2 ^ j + m) * 2 ^ k + l
bit_or_between j k h m l p q = omega (
  arith,
  bit_or_split k (h * 2 ^ j) m l 0 q (omega (arith, q)),
  ap (λ (t : ℕ). t * 2 ^ k) (bit_or_disjoint j h m p),
  bit_or-zero l,
)
