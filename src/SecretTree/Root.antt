-- ===== src/SecretTree/Root.antt =====
-- `_root` of src/pure_mls/secret_tree.py against `_root` of src/pure_mls/tree.py.
use pure_mls.Prelude.{ℕ, zero, suc, ◌-◌, ◌*◌, ◌≡◌, refl, arith, lt→leb, ◌==◌, false}
use pure_mls.TreeMath as TreeMath
use pure_mls.TreeMath.{bit_length, bit_length_loop}
use pure_mls.SecretTree.{root, log2}

not_zero : (n : ℕ) → ((2 * suc (suc n) - 1) == 0) ≡ false
not_zero n = ground arith

-- `_root` of secret_tree.py and `RatchetTree._root` are the same function of the number of leaves.
pub root_agrees : (n_leaves : ℕ) → root n_leaves ≡ TreeMath.root n_leaves
unfolding root log2 TreeMath.root bit_length bit_length_loop
root_agrees zero = refl
root_agrees (suc zero) = refl
root_agrees (suc (suc n)) = rw (not_zero n, lt→leb (suc (suc n)) 1 (omega arith))
