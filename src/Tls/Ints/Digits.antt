-- ===== src/Tls/Ints/Digits.antt =====
-- Base-256 digits: the number that they stand for, and how many there are.
use pure_mls.Prelude.{
  ℕ, zero, suc, ◌+◌, ◌*◌, ◌/◌, ◌%◌, ◌^◌, ◌<◌, ◌≡◌, refl, ap, ◌++◌, arith, Bytes, [], ◌∷◌, length,
  length-append, IsBytes, All-append, ok, lt→ltb, le→ltb, ok-injective, err-ne-ok,
}
use pure_mls.Tls.Ints.{to_be, from_be_onto, from_be, pack, int_to_bytes}
use native.Mathlib.Nat.{pow-suc, mul-le-mul_right}
use native.Mathlib.Decide.{dec_lt}

from_be_onto-snoc :
    (acc : ℕ) (xs : Bytes) (b : ℕ)
    → from_be_onto acc (xs ++ (b ∷ [])) ≡ from_be_onto acc xs * 256 + b
unfolding from_be_onto
from_be_onto-snoc acc [] b = refl
from_be_onto-snoc acc (x ∷ xs) b = from_be_onto-snoc (acc * 256 + x) xs b

pub from_be-to_be : (n v : ℕ) → v < 256 ^ n → from_be (to_be n v) ≡ v
unfolding from_be to_be
from_be-to_be zero v h = omega arith
from_be-to_be (suc n) v h = omega (
  arith,
  from_be_onto-snoc 0 (to_be n (v / 256)) (v % 256),
  from_be-to_be n (v / 256) (omega (arith, pow-suc 256 n)),
)

pub length-to_be : (n v : ℕ) → length (to_be n v) ≡ n
unfolding to_be
length-to_be zero v = refl
length-to_be (suc n) v =
    omega (arith, length-append (to_be n (v / 256)) (v % 256 ∷ []), length-to_be n (v / 256))

pub to_be-IsBytes : (n v : ℕ) → IsBytes (to_be n v)
unfolding to_be
to_be-IsBytes zero v = tt
to_be-IsBytes (suc n) v =
    All-append (λ b. b < 256) (to_be n (v / 256)) (v % 256 ∷ []) (to_be-IsBytes n (v / 256))
      (omega arith, tt)

from_be_onto-lt :
    (acc : ℕ) (xs : Bytes) → IsBytes xs → from_be_onto acc xs < (acc + 1) * 256 ^ length xs
unfolding from_be_onto
from_be_onto-lt acc [] h = omega arith
from_be_onto-lt acc (x ∷ xs) (hx, h) = omega (
  arith,
  from_be_onto-lt (acc * 256 + x) xs h,
  mul-le-mul_right (256 ^ length xs) hx,
  ap (λ (t : ℕ). (acc + 1) * t) (pow-suc 256 (length xs)),
)

-- What is read of `n` bytes fits in `n` bytes.
pub from_be-lt : (xs : Bytes) → IsBytes xs → from_be xs < 256 ^ length xs
unfolding from_be
from_be-lt xs h = omega (arith, from_be_onto-lt 0 xs h)

-- A value that was packed was in range, and its digits are what was written.
pub pack-eq-ok : (n v : ℕ) (e : Bytes) → pack n v ≡ ok e → (v < 256 ^ n) × (to_be n v ≡ e)
unfolding pack
pack-eq-ok n v e h = elim (dec_lt v (256 ^ n)) [
  | yes small ↦ (small, ok-injective (rw (lt→ltb v (256 ^ n) small) at h))
  | no large ↦ absurd (err-ne-ok (rw (le→ltb v (256 ^ n) (omega arith)) at h))
]

pub int_to_bytes-eq-ok :
    (n v : ℕ) (e : Bytes) → int_to_bytes n v ≡ ok e → (v < 256 ^ n) × (to_be n v ≡ e)
unfolding int_to_bytes
int_to_bytes-eq-ok n v e h = elim (dec_lt v (256 ^ n)) [
  | yes small ↦ (small, ok-injective (rw (lt→ltb v (256 ^ n) small) at h))
  | no large ↦ absurd (err-ne-ok (rw (le→ltb v (256 ^ n) (omega arith)) at h))
]
