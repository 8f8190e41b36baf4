-- ===== src/TreeMath/Coordinates.antt =====
-- Where a node stands: `node k j` is the j-th node from the left on level k.
use pure_mls.Prelude.{ℕ, zero, suc, ◌+◌, ◌-◌, ◌*◌, ◌^◌, ◌<◌, ◌≡◌, ap, arith}
use pure_mls.Prelude.Bits.{pow_pos, pow-add}
use native.Mathlib.Nat.{pow-suc, mul-le-mul_right}

abbrev pub node : ℕ → ℕ → ℕ
node k j = j * 2 ^ suc k + (2 ^ k - 1)

pub node-suc : (k j : ℕ) → node (suc k) j ≡ 2 * node k j + 1
node-suc k j = omega (arith, pow-suc 2 k, pow_pos k, ap (λ (t : ℕ). j * t) (pow-suc 2 (suc k)))

pub node-zero : (j : ℕ) → node zero j ≡ 2 * j
node-zero j = omega arith

pub node_even : (k m : ℕ) → node (suc k) m ≡ node k (2 * m) + 2 ^ k
node_even k m = omega (
  arith,
  pow-suc 2 k,
  pow_pos k,
  ap (λ (t : ℕ). m * t) (pow-suc 2 (suc k)),
  ap (λ (t : ℕ). m * t) (pow-suc 2 k),
)

pub node_odd : (k m : ℕ) → node (suc k) m + 2 ^ k ≡ node k (2 * m + 1)
node_odd k m = omega (
  arith,
  pow-suc 2 k,
  pow_pos k,
  ap (λ (t : ℕ). m * t) (pow-suc 2 (suc k)),
  ap (λ (t : ℕ). m * t) (pow-suc 2 k),
)

-- A node of a tree with 2 ^ d leaves lies in its array of 2 ^ (d + 1) - 1 entries.
pub node-lt : (k j m : ℕ) → j < 2 ^ m → node k j < 2 ^ suc (k + m) - 1
node-lt k j m h = omega (
  arith,
  mul-le-mul_right (2 ^ suc k) h,
  pow-add m (suc k),
  ap (λ (t : ℕ). 2 ^ t) sum,
  pow-suc 2 k,
  pow_pos k,
)
  where
    sum : m + suc k ≡ suc (k + m)
    sum = omega arith
