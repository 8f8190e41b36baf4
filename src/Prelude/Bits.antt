-- ===== src/Prelude/Bits.antt =====
-- Laws of the bitwise operations for every value, from the digit recursion that they stand for.
use Prim.Native.Nat.{
  ℕ, zero, suc, ◌+◌, ◌-◌, ◌*◌, ◌/◌, ◌%◌, ◌^◌, ◌≤◌, ◌<◌, min, max, bit_and, bit_or, bit_xor, bitwise,
  digits, differ, bit_and-bitwise, bit_or-bitwise, bit_xor-bitwise,
}
use mathlib.Core.Path.{◌≡◌, refl, ◌∙◌, ap, sym}
use native.Mathlib.Omega.{arith}
use native.Mathlib.Nat.{
  pow-suc, add-zero, add-suc, zero-add, suc-add, mod-lt, div-add-mod, mod-eq_of_lt,
  add-mul-mod_self_left,
}

-- A bitwise operation `op` and the digit recursion that it means.
module _ (z : ℕ → ℕ) (f : ℕ → ℕ → ℕ) (op : ℕ → ℕ → ℕ)
    (meaning : (x y : ℕ) → op x y ≡ bitwise z f x y) where
  -- One more digit than the left operand needs changes nothing.
  one_more_digit : (count x y : ℕ) → x ≤ count → digits z f (suc count) x y ≡ digits z f count x y
  one_more_digit zero zero y le = refl
  one_more_digit (suc count) zero y le = refl
  one_more_digit zero (suc x) y le = absurd (omega (arith, le))
  one_more_digit (suc count) (suc x) y le =
      ap (λ rest. rest * 2 + f (suc x % 2) (y % 2))
        (one_more_digit count (suc x / 2) (y / 2) (omega (arith, le)))

  more_digits : (extra x y : ℕ) → digits z f (extra + x) x y ≡ digits z f x x y
  more_digits zero x y = ap (λ count. digits z f count x y) (zero-add x)
  more_digits (suc extra) x y =
      ap (λ count. digits z f count x y) (suc-add extra x)
      ∙ one_more_digit (extra + x) x y (omega arith)
      ∙ more_digits extra x y

  lowest_digit : (x y : ℕ) → op (suc x) y ≡ op (suc x / 2) (y / 2) * 2 + f (suc x % 2) (y % 2)
  lowest_digit x y =
      let half = suc x / 2 in
      let enough : x - half + half ≡ x = omega arith in
      let rest : digits z f x half (y / 2) ≡ digits z f half half (y / 2) =
        rw enough at (more_digits (x - half) half (y / 2)) in
      meaning (suc x) y
      ∙ ap (λ d. d * 2 + f (suc x % 2) (y % 2)) (rest ∙ sym (meaning half (y / 2)))

zero-bit_and : (y : ℕ) → bit_and 0 y ≡ 0
zero-bit_and y = bit_and-bitwise 0 y

pub zero-bit_or : (y : ℕ) → bit_or 0 y ≡ y
zero-bit_or y = bit_or-bitwise 0 y

pub zero-bit_xor : (y : ℕ) → bit_xor 0 y ≡ y
zero-bit_xor y = bit_xor-bitwise 0 y

bit_and_step : (x y : ℕ) → bit_and x y ≡ bit_and (x / 2) (y / 2) * 2 + min (x % 2) (y % 2)
bit_and_step zero y = omega (arith, zero-bit_and y, zero-bit_and (y / 2))
bit_and_step (suc x) y = lowest_digit (λ b. zero) min bit_and bit_and-bitwise x y

bit_or_step : (x y : ℕ) → bit_or x y ≡ bit_or (x / 2) (y / 2) * 2 + max (x % 2) (y % 2)
bit_or_step zero y = omega (arith, zero-bit_or y, zero-bit_or (y / 2))
bit_or_step (suc x) y = lowest_digit (λ b. b) max bit_or bit_or-bitwise x y

pub bit_xor_step : (x y : ℕ) → bit_xor x y ≡ bit_xor (x / 2) (y / 2) * 2 + differ (x % 2) (y % 2)
bit_xor_step zero y = omega (arith, zero-bit_xor y, zero-bit_xor (y / 2))
bit_xor_step (suc x) y = lowest_digit (λ b. b) differ bit_xor bit_xor-bitwise x y

pub pow_pos : (k : ℕ) → 0 < 2 ^ k
pow_pos zero = omega arith
pow_pos (suc k) = omega (arith, pow-suc 2 k, pow_pos k)

bit_and-zero_count : (n a : ℕ) → a ≤ n → bit_and a 0 ≡ 0
bit_and-zero_count n zero h = refl
bit_and-zero_count zero (suc a) h = absurd (omega arith)
bit_and-zero_count (suc n) (suc a) h =
    omega (arith, bit_and_step (suc a) 0, bit_and-zero_count n (suc a / 2) (omega arith))

mod_double : (m a : ℕ) → 0 < m → a % (m * 2) ≡ a / 2 % m * 2 + a % 2
mod_double m a h =
    ap (λ t. t % (m * 2)) split ∙ add-mul-mod_self_left _ (m * 2) q ∙ mod-eq_of_lt small
  where
    q : ℕ
    q = a / 2 / m

    split : a ≡ a / 2 % m * 2 + a % 2 + m * 2 * q
    split = omega (arith, div-add-mod (a / 2) m)

    small : a / 2 % m * 2 + a % 2 < m * 2
    small = omega (arith, mod-lt (a / 2) h)

mask_half : (k : ℕ) → (2 ^ suc k - 1) / 2 ≡ 2 ^ k - 1
mask_half k = omega (arith, pow-suc 2 k, pow_pos k)

-- A mask of k ones keeps the remainder modulo 2 ^ k.
pub bit_and_mask : (k a : ℕ) → bit_and a (2 ^ k - 1) ≡ a % 2 ^ k
bit_and_mask zero a = omega (arith, bit_and-zero_count a a (omega arith))
bit_and_mask (suc k) a = omega (
  arith,
  bit_and_step a (2 ^ suc k - 1),
  ap (bit_and (a / 2)) (mask_half k),
  bit_and_mask k (a / 2),
  mod_double (2 ^ k) a (pow_pos k),
  ap (λ (t : ℕ). a % t) (pow-suc 2 k),
  pow-suc 2 k,
  pow_pos k,
)

-- Two numbers whose digits do not meet.
pub bit_or_shifted : (k a b : ℕ) → b < 2 ^ k → bit_or b (a * 2 ^ k) ≡ b + a * 2 ^ k
bit_or_shifted zero a zero h = omega (arith, zero-bit_or (a * 1))
bit_or_shifted zero a (suc b) h = absurd (omega arith)
bit_or_shifted (suc k) a b h = omega (
  arith,
  bit_or_step b (a * 2 ^ suc k),
  shifted,
  ap (bit_or (b / 2)) half,
  bit_or_shifted k a (b / 2) (omega (arith, pow-suc 2 k)),
)
  where
    shifted : a * 2 ^ suc k ≡ a * 2 ^ k * 2
    shifted = omega (arith, ap (λ (t : ℕ). a * t) (pow-suc 2 k))

    half : a * 2 ^ suc k / 2 ≡ a * 2 ^ k
    half = omega (arith, shifted)

bit_or-zero_count : (n a : ℕ) → a ≤ n → bit_or a 0 ≡ a
bit_or-zero_count n zero h = omega (arith, zero-bit_or 0)
bit_or-zero_count zero (suc a) h = absurd (omega arith)
bit_or-zero_count (suc n) (suc a) h =
    omega (arith, bit_or_step (suc a) 0, bit_or-zero_count n (suc a / 2) (omega arith))

pub shifted-bit_or : (k a b : ℕ) → b < 2 ^ k → bit_or (a * 2 ^ k) b ≡ a * 2 ^ k + b
shifted-bit_or zero a zero h = omega (arith, bit_or-zero_count (a * 1) (a * 1) (omega arith))
shifted-bit_or zero a (suc b) h = absurd (omega arith)
shifted-bit_or (suc k) a b h = omega (
  arith,
  bit_or_step (a * 2 ^ suc k) b,
  shifted,
  ap (λ (t : ℕ). bit_or t (b / 2)) half,
  shifted-bit_or k a (b / 2) (omega (arith, pow-suc 2 k)),
)
  where
    shifted : a * 2 ^ suc k ≡ a * 2 ^ k * 2
    shifted = omega (arith, ap (λ (t : ℕ). a * t) (pow-suc 2 k))

    half : a * 2 ^ suc k / 2 ≡ a * 2 ^ k
    half = omega (arith, shifted)

pub pow-add : (a b : ℕ) → 2 ^ (a + b) ≡ 2 ^ a * 2 ^ b
pow-add a zero = omega (arith, ap (λ (t : ℕ). 2 ^ t) (add-zero a))
pow-add a (suc b) = omega (
  arith,
  ap (λ (t : ℕ). 2 ^ t) (add-suc a b),
  pow-suc 2 (a + b),
  pow-suc 2 b,
  pow-add a b,
  ap (λ (t : ℕ). 2 ^ a * t) (pow-suc 2 b),
)

pub differ_self : (x : ℕ) → differ x x ≡ 0
differ_self zero = refl
differ_self (suc x) = differ_self x

-- Exclusive or works on the halves.
pub bit_xor_odd_even : (a b : ℕ) → bit_xor (2 * a + 1) (2 * b) ≡ 2 * bit_xor a b + 1
bit_xor_odd_even a b =
    bit_xor_step (2 * a + 1) (2 * b) ∙ rw (half_odd a, half_even b, odd a, even b) (omega arith)
  where
    half_odd : (x : ℕ) → (2 * x + 1) / 2 ≡ x
    half_odd x = omega arith

    half_even : (x : ℕ) → 2 * x / 2 ≡ x
    half_even x = omega arith

    odd : (x : ℕ) → (2 * x + 1) % 2 ≡ 1
    odd x = omega arith

    even : (x : ℕ) → 2 * x % 2 ≡ 0
    even x = omega arith

pub bit_or-zero : (a : ℕ) → bit_or a 0 ≡ a
bit_or-zero a = bit_or-zero_count a a (omega arith)

bit_xor-zero_count : (n a : ℕ) → a ≤ n → bit_xor a 0 ≡ a
bit_xor-zero_count n zero h = omega (arith, zero-bit_xor 0)
bit_xor-zero_count zero (suc a) h = absurd (omega arith)
bit_xor-zero_count (suc n) (suc a) h = omega (
  arith,
  bit_xor_step (suc a) 0,
  bit_xor-zero_count n (suc a / 2) (omega arith),
  differ-zero (suc a % 2),
)
  where
    differ-zero : (x : ℕ) → differ x 0 ≡ x
    differ-zero zero = refl
    differ-zero (suc x) = refl

pub bit_xor-zero : (a : ℕ) → bit_xor a 0 ≡ a
bit_xor-zero a = bit_xor-zero_count a a (omega arith)
