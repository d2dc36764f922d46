-- ===== src/Common/Packed/Bits.antt =====
-- `|` of a shifted number and one below the shift is their sum.
use Prim.Native.Nat.{bit_or, digits, bit_or-bitwise}
use native.Mathlib.Nat.{pow-suc}
use temp_files.Base.{ℕ, zero, suc, ◌+◌, ◌*◌, ◌/◌, ◌%◌, ◌^◌, ◌≤◌, ◌<◌, max, ◌≡◌, refl, ap, arith}

-- The law for the lowest digit, from what the native operation stands for.
abbrev or_digits : ℕ → ℕ → ℕ → ℕ
or_digits n a b = digits (λ b. b) max n a b

or_digits_fuel : (n m a b : ℕ) → a ≤ n → a ≤ m → or_digits n a b ≡ or_digits m a b
or_digits_fuel zero zero a b p q = refl
or_digits_fuel zero (suc m) zero b p q = refl
or_digits_fuel zero (suc m) (suc a) b p q = absurd (omega arith)
or_digits_fuel (suc n) zero zero b p q = refl
or_digits_fuel (suc n) zero (suc a) b p q = absurd (omega arith)
or_digits_fuel (suc n) (suc m) zero b p q = refl
or_digits_fuel (suc n) (suc m) (suc a) b p q =
    omega (arith, or_digits_fuel n m (suc a / 2) (b / 2) (omega arith) (omega arith))

zero-bit_or : (b : ℕ) → bit_or 0 b ≡ b
zero-bit_or b = bit_or-bitwise 0 b

bit_or_step : (a b : ℕ) → bit_or a b ≡ bit_or (a / 2) (b / 2) * 2 + max (a % 2) (b % 2)
bit_or_step zero b = omega (arith, zero-bit_or b, zero-bit_or (b / 2))
bit_or_step (suc a) b = omega (
  arith,
  bit_or-bitwise (suc a) b,
  bit_or-bitwise (suc a / 2) (b / 2),
  or_digits_fuel a (suc a / 2) (suc a / 2) (b / 2) (omega arith) (omega arith),
)

bit_or-zero_fuel : (n a : ℕ) → a ≤ n → bit_or a 0 ≡ a
bit_or-zero_fuel n zero h = refl
bit_or-zero_fuel zero (suc a) h = absurd (omega arith)
bit_or-zero_fuel (suc n) (suc a) h =
    omega (arith, bit_or_step (suc a) 0, bit_or-zero_fuel n (suc a / 2) (omega arith))

shift_suc : (a k : ℕ) → a * 2 ^ suc k ≡ a * 2 ^ k * 2
shift_suc a k = omega (arith, ap (λ (t : ℕ). a * t) (pow-suc 2 k))

-- `a << k | b` is a sum where `b` has at most `k` bits.
pub bit_or_shifted : (k a b : ℕ) → b < 2 ^ k → bit_or (a * 2 ^ k) b ≡ a * 2 ^ k + b
bit_or_shifted zero a b h =
    let none_left : b ≡ 0 = omega arith in
    let same : a * 1 ≡ a = omega arith in
    rw (none_left, same) (omega (arith, bit_or-zero_fuel a a (omega arith)))
bit_or_shifted (suc k) a b h =
    let split = shift_suc a k in
    let half : b / 2 < 2 ^ k = omega (arith, pow-suc 2 k) in
    let ih = bit_or_shifted k a (b / 2) half in
    let low : a * 2 ^ suc k / 2 ≡ a * 2 ^ k = omega arith in
    rw (bit_or_step, low, ih) (omega (arith, split))
