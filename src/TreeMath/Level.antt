-- ===== src/TreeMath/Level.antt =====
-- `level` of src/pure_mls/tree.py in coordinates, up to the 32 levels that the loop counts.
use pure_mls.Prelude.{
  ℕ, zero, suc, ◌+◌, ◌*◌, ◌/◌, ◌%◌, ◌^◌, ◌≤◌, ◌<◌, ◌≡◌, sym, ap, ◌∙◌, arith, bit_and,
}
use pure_mls.Prelude.Bits.{bit_and_mask}
use pure_mls.TreeMath.{bit_at, level_loop, level}
use pure_mls.TreeMath.Coordinates.{node, node-suc, node-zero}
use native.Mathlib.Decide.{dec_lt}
use native.Mathlib.Nat.{pow-suc, div-div-eq-div-mul}

pub bit_at-mod : (x k : ℕ) → bit_at x k ≡ x / 2 ^ k % 2
unfolding bit_at
bit_at-mod x k = bit_and_mask 1 (x / 2 ^ k)

pub div_pow : (x k : ℕ) → x / 2 ^ suc k ≡ x / 2 / 2 ^ k
div_pow x k = ap (λ (t : ℕ). x / t) (pow-suc 2 k ∙ swap) ∙ sym (div-div-eq-div-mul x 2 (2 ^ k))
  where
    swap : 2 ^ k * 2 ≡ 2 * 2 ^ k
    swap = omega arith

-- The bits of a node: ones below its level, then a zero.
pub node-bit : (i k j : ℕ) → i < k → bit_at (node k j) i ≡ 1
node-bit i zero j h = absurd (omega arith)
node-bit zero (suc k) j h = omega (arith, bit_at-mod (node (suc k) j) 0, node-suc k j)
node-bit (suc i) (suc k) j h = omega (
  arith,
  bit_at-mod (node (suc k) j) (suc i),
  div_pow (node (suc k) j) i,
  ap (λ (t : ℕ). t / 2 / 2 ^ i) (node-suc k j),
  ap (λ (t : ℕ). t / 2 ^ i) half,
  bit_at-mod (node k j) i,
  node-bit i k j (omega arith),
)
  where
    half : (2 * node k j + 1) / 2 ≡ node k j
    half = omega arith

pub node-bit_self : (k j : ℕ) → bit_at (node k j) k ≡ 0
node-bit_self zero j = omega (arith, bit_at-mod (node zero j) 0, node-zero j)
node-bit_self (suc k) j = omega (
  arith,
  bit_at-mod (node (suc k) j) (suc k),
  div_pow (node (suc k) j) k,
  ap (λ (t : ℕ). t / 2 / 2 ^ k) (node-suc k j),
  ap (λ (t : ℕ). t / 2 ^ k) half,
  bit_at-mod (node k j) k,
  node-bit_self k j,
)
  where
    half : (2 * node k j + 1) / 2 ≡ node k j
    half = omega arith

low_bit : (x : ℕ) → bit_and x 0x01 ≡ x % 2
low_bit x = bit_and_mask 1 x

level_loop-node : (left i k j : ℕ) → i ≤ k → k < i + left → level_loop left i (node k j) ≡ k
unfolding level_loop
level_loop-node zero i k j le lt = omega arith
level_loop-node (suc left) i k j le lt = elim (dec_lt i k) [
  | yes below ↦
      rw (node-bit i k j below, level_loop)
        (level_loop-node left (i + 1) k j (omega arith) (omega arith))
  | no here ↦ let same : i ≡ k = omega arith in rw same (rw (node-bit_self k j, level_loop))
]

pub level-node : (k j : ℕ) → k < 32 → level (node k j) ≡ k
unfolding level
level-node zero j h = rw (low_bit (node zero j), even)
  where
    even : node zero j % 2 ≡ 0
    even = omega (arith, node-zero j)
level-node (suc k) j h =
    rw (low_bit (node (suc k) j), odd) (level_loop-node 32 0 (suc k) j (omega arith) (omega arith))
  where
    odd : node (suc k) j % 2 ≡ 1
    odd = omega (arith, node-suc k j)
