-- ===== src/Prelude/Bits.antt =====
-- `|` of disjoint bit fields and `&` with a low mask as arithmetic, at every width.
use Prim.Native.Nat.{
  ℕ, zero, suc, ◌+◌, ◌-◌, ◌*◌, ◌/◌, ◌%◌, ◌^◌, ◌≤◌, ◌<◌, min, max, bit_and, bit_or, digits,
  bit_and-bitwise, bit_or-bitwise,
}
use mathlib.Core.Path.{◌≡◌, refl, ap, ◌∙◌}
use native.Mathlib.Nat.{pow-suc, div-add-mod, add-mul-mod_self_left, mod-eq_of_lt, mod-lt}
use native.Mathlib.Omega.{arith}

abbrev and_digits : ℕ → ℕ → ℕ → ℕ
and_digits = digits (λ b. zero) min

abbrev or_digits : ℕ → ℕ → ℕ → ℕ
or_digits = digits (λ b. b) max

pub pow_pos : (k : ℕ) → 0 < 2 ^ k
pow_pos zero = omega arith
pow_pos (suc k) = omega (arith, pow-suc 2 k, pow_pos k)

-- Any count of digits that reaches the end of `a` gives the same result.
and_digits_count : (n m a b : ℕ) → a ≤ n → a ≤ m → and_digits n a b ≡ and_digits m a b
and_digits_count zero zero zero b p q = refl
and_digits_count zero (suc m) zero b p q = refl
and_digits_count (suc n) zero zero b p q = refl
and_digits_count (suc n) (suc m) zero b p q = refl
and_digits_count (suc n) (suc m) (suc a) b p q =
    omega (arith, and_digits_count n m (suc a / 2) (b / 2) (omega arith) (omega arith))
and_digits_count _ _ (suc a) b p q = absurd (omega arith)

or_digits_count : (n m a b : ℕ) → a ≤ n → a ≤ m → or_digits n a b ≡ or_digits m a b
or_digits_count zero zero zero b p q = refl
or_digits_count zero (suc m) zero b p q = refl
or_digits_count (suc n) zero zero b p q = refl
or_digits_count (suc n) (suc m) zero b p q = refl
or_digits_count (suc n) (suc m) (suc a) b p q =
    omega (arith, or_digits_count n m (suc a / 2) (b / 2) (omega arith) (omega arith))
or_digits_count _ _ (suc a) b p q = absurd (omega arith)

zero-bit_and : (b : ℕ) → bit_and 0 b ≡ 0
zero-bit_and b = bit_and-bitwise 0 b

zero-bit_or : (b : ℕ) → bit_or 0 b ≡ b
zero-bit_or b = bit_or-bitwise 0 b

and_step : (a b : ℕ) → bit_and a b ≡ bit_and (a / 2) (b / 2) * 2 + min (a % 2) (b % 2)
and_step zero b = omega (arith, zero-bit_and b, zero-bit_and (b / 2))
and_step (suc a) b = omega (
  arith,
  bit_and-bitwise (suc a) b,
  bit_and-bitwise (suc a / 2) (b / 2),
  and_digits_count a (suc a / 2) (suc a / 2) (b / 2) (omega arith) (omega arith),
)

or_step : (a b : ℕ) → bit_or a b ≡ bit_or (a / 2) (b / 2) * 2 + max (a % 2) (b % 2)
or_step zero b = omega (arith, zero-bit_or b, zero-bit_or (b / 2))
or_step (suc a) b = omega (
  arith,
  bit_or-bitwise (suc a) b,
  bit_or-bitwise (suc a / 2) (b / 2),
  or_digits_count a (suc a / 2) (suc a / 2) (b / 2) (omega arith) (omega arith),
)

and-zero_below : (n a : ℕ) → a ≤ n → bit_and a 0 ≡ 0
and-zero_below n zero h = refl
and-zero_below zero (suc a) h = absurd (omega arith)
and-zero_below (suc n) (suc a) h =
    omega (arith, and_step (suc a) 0, and-zero_below n (suc a / 2) (omega arith))

or-zero_below : (n a : ℕ) → a ≤ n → bit_or a 0 ≡ a
or-zero_below n zero h = refl
or-zero_below zero (suc a) h = absurd (omega arith)
or-zero_below (suc n) (suc a) h =
    omega (arith, or_step (suc a) 0, or-zero_below n (suc a / 2) (omega arith))

pub bit_and-zero : (a : ℕ) → bit_and a 0 ≡ 0
bit_and-zero a = and-zero_below a a (omega arith)

pub pow_double : (k : ℕ) → 2 ^ suc k ≡ 2 * 2 ^ k
pow_double k = omega (arith, pow-suc 2 k)

-- Split off the lowest digit of a remainder by a power of two.
mod_double : (p a : ℕ) → 0 < p → a % (2 * p) ≡ a / 2 % p * 2 + a % 2
mod_double p a h =
    let low : ℕ = a / 2 % p * 2 + a % 2 in
    let cut : a ≡ low + 2 * p * (a / 2 / p) = omega (arith, div-add-mod (a / 2) p) in
    ap (λ (t : ℕ). t % (2 * p)) cut
    ∙ add-mul-mod_self_left low (2 * p) (a / 2 / p)
    ∙ mod-eq_of_lt (omega (arith, mod-lt (a / 2) h))

mask_half : (k : ℕ) → ((2 ^ suc k - 1) / 2 ≡ 2 ^ k - 1) × ((2 ^ suc k - 1) % 2 ≡ 1)
mask_half k = (omega (arith, pow_double k, pow_pos k), omega (arith, pow_double k, pow_pos k))

-- `a & (2^k - 1)` is the remainder.
pub bit_and_low : (k a : ℕ) → bit_and a (2 ^ k - 1) ≡ a % 2 ^ k
bit_and_low zero a = ground (arith, bit_and-zero a)
bit_and_low (suc k) a =
    rw (and_step, (mask_half k).0, (mask_half k).1, bit_and_low k (a / 2), pow_double k)
      (omega (arith, mod_double (2 ^ k) a (pow_pos k)))

-- `(c << k) | x` is a sum where `x` has `k` bits.
pub bit_or_disjoint : (k c x : ℕ) → x < 2 ^ k → bit_or (c * 2 ^ k) x ≡ c * 2 ^ k + x
bit_or_disjoint zero c x h = ground (arith, or-zero_below c c)
bit_or_disjoint (suc k) c x h =
    let double : c * 2 ^ suc k ≡ 2 * (c * 2 ^ k) = rw (pow_double k) (omega arith) in
    let half : c * 2 ^ suc k / 2 ≡ c * 2 ^ k = omega arith in
    rw (or_step, half, bit_or_disjoint k c (x / 2) (omega (arith, pow_double k))) (omega arith)
