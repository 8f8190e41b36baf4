-- ===== src/TreeMath/Parent.antt =====
-- The parent of a node, and the root, in a tree with a power of two of leaves.
use pure_mls.Prelude.{
  ℕ, zero, suc, ◌+◌, ◌-◌, ◌*◌, ◌/◌, ◌%◌, ◌^◌, ◌≤◌, ◌<◌, ◌≡◌, ◌≢◌, sym, ap, ap₂, ◌∙◌, arith, refl,
  bit_or, bit_xor, ◌==◌, true, false, leb, lt→leb, ltb, lt→ltb, le→ltb, ok, if◌then◌else◌,
}
use pure_mls.Prelude.Bits.{
  bit_xor_odd_even, bit_xor_step, bit_or_shifted, pow_pos, pow-add, bit_xor-zero, differ_self,
}
use pure_mls.TreeMath.{
  bit_at, root, parent, parent_step, reparent, sibling, bit_length, bit_length_loop,
}
use pure_mls.TreeMath.Coordinates.{node, node-suc, node-zero, node-lt, node_even, node_odd}
use pure_mls.TreeMath.Level.{level-node, bit_at-mod, div_pow}
use native.Mathlib.Nat.{pow-suc, mul-le-mul_right}
use native.Mathlib.Decide.{dec_lt}
use native.Mathlib.Numerals.{add-one}
use Prim.Native.Nat.{differ}

-- The bit above a node's level is the parity of its position.
pub node-bit_above : (k j : ℕ) → bit_at (node k j) (k + 1) ≡ j % 2
node-bit_above zero j = omega (arith, bit_at-mod (node zero j) 1, node-zero j)
node-bit_above (suc k) j = omega (
  arith,
  bit_at-mod (node (suc k) j) (suc k + 1),
  ap (λ (t : ℕ). node (suc k) j / 2 ^ t) shift,
  div_pow (node (suc k) j) (k + 1),
  ap (λ (t : ℕ). t / 2 / 2 ^ (k + 1)) (node-suc k j),
  ap (λ (t : ℕ). t / 2 ^ (k + 1)) half,
  bit_at-mod (node k j) (k + 1),
  node-bit_above k j,
)
  where
    half : (2 * node k j + 1) / 2 ≡ node k j
    half = omega arith

    shift : suc k + 1 ≡ suc (k + 1)
    shift = omega arith

-- What `parent_step` flips: the node's own zero, and the bit above it where it is set.
abbrev flips : ℕ → ℕ → ℕ
flips k b = 2 ^ k + b * 2 ^ suc k

flips-suc : (k b : ℕ) → flips (suc k) b ≡ 2 * flips k b
flips-suc k b = omega (
  arith,
  pow-suc 2 k,
  pow-suc 2 (suc k),
  ap (λ (t : ℕ). b * t) (pow-suc 2 (suc k)),
  ap (λ (t : ℕ). b * t) (pow-suc 2 k),
)

xor_parity : (j : ℕ) → bit_xor j (j % 2) ≡ 2 * (j / 2)
xor_parity j = omega (
  arith,
  bit_xor_step j (j % 2),
  ap (bit_xor (j / 2)) low,
  bit_xor-zero (j / 2),
  ap (differ (j % 2)) same,
  differ_self (j % 2),
)
  where
    low : j % 2 / 2 ≡ 0
    low = omega arith

    same : j % 2 % 2 ≡ j % 2
    same = omega arith

node-xor_zero : (j b : ℕ) → bit_xor (2 * j) (1 + 2 * b) ≡ 2 * bit_xor j b + 1
node-xor_zero j b = bit_xor_step (2 * j) (1 + 2 * b) ∙ rw (half, low, even, odd) (omega arith)
  where
    half : 2 * j / 2 ≡ j
    half = omega arith

    low : (1 + 2 * b) / 2 ≡ b
    low = omega arith

    even : 2 * j % 2 ≡ 0
    even = omega arith

    odd : (1 + 2 * b) % 2 ≡ 1
    odd = omega arith

node-xor : (k j : ℕ) → bit_xor (node k j) (flips k (j % 2)) ≡ node (suc k) (j / 2)
node-xor zero j =
    ap₂ bit_xor (node-zero j) flip ∙ node-xor_zero j (j % 2) ∙ omega (arith, xor_parity j)
  where
    flip : flips zero (j % 2) ≡ 1 + 2 * (j % 2)
    flip = omega arith
node-xor (suc k) j =
    ap₂ bit_xor (node-suc k j) (flips-suc k (j % 2))
    ∙ bit_xor_odd_even (node k j) (flips k (j % 2))
    ∙ ap (λ (t : ℕ). 2 * t + 1) (node-xor k j)
    ∙ sym (node-suc (suc k) (j / 2))

pub parent_step-node : (k j : ℕ) → k < 32 → parent_step (node k j) ≡ node (suc k) (j / 2)
unfolding parent_step
parent_step-node k j h = rw (level-node k j h, node-bit_above k j, joined) (node-xor k j)
  where
    joined : bit_or (0x01 * 2 ^ k) (j % 2 * 2 ^ (k + 1)) ≡ flips k (j % 2)
    joined = omega (
      arith,
      bit_or_shifted (k + 1) (j % 2) (0x01 * 2 ^ k) (omega (arith, pow-add k 1, pow_pos k)),
      ap (λ (t : ℕ). j % 2 * 2 ^ t) (add-one k),
    )

-- The root of a tree with 2 ^ d leaves is the middle of its array.
bit_length_loop-ones : (fuel d : ℕ) → d ≤ fuel → bit_length_loop fuel (2 ^ d - 1) ≡ d
unfolding bit_length_loop
bit_length_loop-ones zero zero h = refl
bit_length_loop-ones zero (suc d) h = absurd (omega arith)
bit_length_loop-ones (suc fuel) zero h = refl
bit_length_loop-ones (suc fuel) (suc d) h =
    rw (nonzero, bit_length_loop, half) (ap suc (bit_length_loop-ones fuel d (omega arith)))
  where
    nonzero : (2 ^ suc d - 1 == 0) ≡ false
    nonzero = ground (arith, pow-suc 2 d, pow_pos d)

    half : (2 ^ suc d - 1) / 2 ≡ 2 ^ d - 1
    half = omega (arith, pow-suc 2 d, pow_pos d)

pow-le : (d : ℕ) → d ≤ 2 ^ d - 1
pow-le zero = omega arith
pow-le (suc d) = omega (arith, pow-suc 2 d, pow_pos d, pow-le d)

pub bit_length-ones : (d : ℕ) → bit_length (2 ^ d - 1) ≡ d
unfolding bit_length
bit_length-ones d = bit_length_loop-ones (2 ^ d - 1) d (pow-le d)

pub root-pow : (d : ℕ) → root (2 ^ d) ≡ node d 0
unfolding root
root-pow zero = refl
root-pow (suc d) =
    rw
      (
        lt→leb (2 ^ suc d) 1 (omega (arith, pow-suc 2 d, pow_pos d)),
        width,
        bit_length-ones (suc (suc d)),
        less,
      )
      (omega arith)
  where
    width : 2 * 2 ^ suc d - 1 ≡ 2 ^ suc (suc d) - 1
    width = omega (arith, pow-suc 2 (suc d))

    less : suc (suc d) - 1 ≡ suc d
    less = omega arith

pow_split : (k m : ℕ) → 2 ^ (k + suc m) ≡ 2 * (2 ^ m * 2 ^ k)
pow_split k m = omega (arith, pow-add k (suc m), ap (λ (t : ℕ). 2 ^ k * t) (pow-suc 2 m))

pub node-ne-root : (k m j : ℕ) → node k j ≢ node (k + suc m) 0
node-ne-root k m j e = elim (dec_lt j (2 ^ m)) [
  | yes left ↦ omega (
    arith,
    pow_split k m,
    pow-suc 2 k,
    pow_pos k,
    ap (λ (t : ℕ). j * t) (pow-suc 2 k),
    mul-le-mul_right (2 ^ k) left,
  )
  | no right ↦ omega (
    arith,
    pow_pos (k + suc m),
    pow_split k m,
    pow-suc 2 k,
    pow_pos k,
    ap (λ (t : ℕ). j * t) (pow-suc 2 k),
    mul-le-mul_right {m = 2 ^ m} {n = j} (2 ^ k) (omega arith),
  )
]

in_range : (k m j : ℕ) → j < 2 ^ suc m → node (suc k) (j / 2) < 2 * 2 ^ (k + suc m) - 1
in_range k m j h = omega (
  arith,
  node-lt (suc k) (j / 2) m (omega (arith, pow-suc 2 m)),
  pow-suc 2 (suc k + m),
  ap (λ (t : ℕ). 2 ^ t) same,
)
  where
    same : suc k + m ≡ k + suc m
    same = omega arith

reparent_done : (fuel w p : ℕ) → p < w → reparent fuel w p ≡ ok p
unfolding reparent
reparent_done zero w p h = rw (lt→leb w p h)
reparent_done (suc fuel) w p h = rw (lt→leb w p h, reparent)

-- In a tree of 2 ^ (k + 1 + m) leaves, at most 2 ^ 31, the parent of the j-th node of level k,
-- below the root, is the (j / 2)-th node of the next level.
pub parent-node :
    (k m j : ℕ)
    → k + suc m ≤ 31
    → j < 2 ^ suc m
    → parent (2 ^ (k + suc m)) (node k j) ≡ ok (node (suc k) (j / 2))
unfolding parent
parent-node k m j h lt =
    rw (many, root-pow (k + suc m), below, parent_step-node k j (omega arith))
      (reparent_done 64 (2 * 2 ^ (k + suc m) - 1) (node (suc k) (j / 2)) (in_range k m j lt))
  where
    many : leb (2 ^ (k + suc m)) 1 ≡ false
    many = lt→leb (2 ^ (k + suc m)) 1 (omega (arith, pow_split k m, pow_pos (m + k), pow-add m k))

    below : (node k j == node (k + suc m) 0) ≡ false
    below = ground (arith, node-ne-root k m j)

-- The other child of a node's parent.
pub sibling-node :
    (k m j : ℕ)
    → k + suc m ≤ 31
    → j < 2 ^ suc m
    → sibling (2 ^ (k + suc m)) (node k j) ≡ ok (node k (if j % 2 == 0 then j + 1 else j - 1))
unfolding sibling
sibling-node k m j h lt =
    rw (many, parent-node k m j h lt, level-node (suc k) (j / 2) (omega arith), less)
      (elim (dec_lt (j % 2) 1) [
        | yes even ↦
            let left : node k (2 * (j / 2)) ≡ node k j = ap (node k) (omega arith) in
            let right : node k (2 * (j / 2) + 1) ≡ node k (j + 1) = ap (node k) (omega arith) in
            let parity : (j % 2 == 0) ≡ true = ground arith in
            let side : ltb (node k j) (node (suc k) (j / 2)) ≡ true =
              lt→ltb _ _ (omega (arith, left, node_even k (j / 2), pow_pos k)) in
            rw (side, parity) (ap ok (node_odd k (j / 2) ∙ right))
        | no odd ↦
            let left : node k (2 * (j / 2)) ≡ node k (j - 1) = ap (node k) (omega arith) in
            let right : node k (2 * (j / 2) + 1) ≡ node k j = ap (node k) (omega arith) in
            let parity : (j % 2 == 0) ≡ false = ground arith in
            let side : ltb (node k j) (node (suc k) (j / 2)) ≡ false =
              le→ltb _ _ (omega (arith, right, node_odd k (j / 2), pow_pos k)) in
            rw (side, parity) (ap ok (omega (arith, left, node_even k (j / 2))))
      ])
  where
    many : leb (2 ^ (k + suc m)) 1 ≡ false
    many = lt→leb (2 ^ (k + suc m)) 1 (omega (arith, pow_split k m, pow_pos (m + k), pow-add m k))

    less : suc k - 1 ≡ k
    less = omega arith
