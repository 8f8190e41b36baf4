-- ===== src/TreeMath.antt =====
-- The array layout of the ratchet tree, as src/pure_mls/tree.py and src/pure_mls/secret_tree.py
-- compute with it: leaves at even indices, parents at odd ones.
use pure_mls.Prelude.{
  ℕ, zero, suc, ◌+◌, ◌-◌, ◌*◌, ◌/◌, ◌%◌, ◌^◌, bit_and, bit_or, bit_xor, Bool, true, false, ltb, leb,
  ◌==◌, if◌then◌else◌, Result, ok, err, bind, out_of_fuel,
}
pub mod Coordinates
pub mod Level
pub mod Parent

-- `(x >> k) & 0x01`
unfoldable pub bit_at : ℕ → ℕ → ℕ
bit_at x k = bit_and (x / 2 ^ k) 0x01

-- `while (index >> k) & 0x01 == 1 and k < 32: k += 1`, with `32 - k` rounds left.
unfoldable pub level_loop : ℕ → ℕ → ℕ → ℕ
level_loop zero k index = k
level_loop (suc left) k index = elim (bit_at index k == 1) [
  | true ↦ level_loop left (k + 1) index
  | false ↦ k
]

-- `RatchetTree.level`
unfoldable pub level : ℕ → ℕ
level index = if bit_and index 0x01 == 0 then 0 else level_loop 32 0 index

-- Python's `int.bit_length`; a number has at most as many digits as its value.
unfoldable pub bit_length_loop : ℕ → ℕ → ℕ
bit_length_loop zero n = 0
bit_length_loop (suc fuel) n = elim (n == 0) [
  | true ↦ 0
  | false ↦ suc (bit_length_loop fuel (n / 2))
]

unfoldable pub bit_length : ℕ → ℕ
bit_length n = bit_length_loop n n

-- `RatchetTree._root`, of the number of leaves.
unfoldable pub root : ℕ → ℕ
root n = if leb n 1 then 0 else 2 ^ (bit_length (2 * n - 1) - 1) - 1

-- `x ^ ((0x01 << k) | (b << (k + 1)))`, the step towards the root.
unfoldable pub parent_step : ℕ → ℕ
parent_step x =
    let k = level x in
    let b = bit_at x (k + 1) in bit_xor x (bit_or (0x01 * 2 ^ k) (b * 2 ^ (k + 1)))

-- `while p >= w`
unfoldable pub reparent : ℕ → ℕ → ℕ → Result ℕ
reparent zero w p = if leb w p then err out_of_fuel else ok p
reparent (suc fuel) w p = elim (leb w p) [ true ↦ reparent fuel w (parent_step p) | false ↦ ok p ]

-- `RatchetTree._parent`. The loop climbs; 64 rounds are more than a tree of 2 ^ 32 leaves has levels.
unfoldable pub parent : ℕ → ℕ → Result ℕ
parent n x =
    if leb n 1 then ok 0 else if x == root n then ok x else reparent 64 (2 * n - 1) (parent_step x)

-- `RatchetTree._sibling`
unfoldable pub sibling : ℕ → ℕ → Result ℕ
sibling n x =
    if leb n 1
    then ok x
    else bind (parent n x)
        (λ p. if ltb x p then ok (p + 2 ^ (level p - 1)) else ok (p - 2 ^ (level p - 1)))
