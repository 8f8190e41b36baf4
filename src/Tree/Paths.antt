-- ===== src/Tree/Paths.antt =====
-- Direct path and copath in a full tree, a tree whose 2 ^ d leaves fill the array.
use pure_mls.Prelude.{
  ℕ, zero, suc, ◌+◌, ◌-◌, ◌*◌, ◌/◌, ◌%◌, ◌^◌, ◌≤◌, ◌<◌, ◌≡◌, ap, ◌∙◌, arith, refl, leb, lt→leb, ltb,
  lt→ltb, ◌==◌, true, false, List, [], ◌∷◌, length, Option, some, ok, bind, if◌then◌else◌,
}
use pure_mls.TreeMath.{root, parent, sibling}
use pure_mls.TreeMath.Coordinates.{node, node-zero, node-lt}
use pure_mls.TreeMath.Parent.{root-pow, parent-node, sibling-node, node-ne-root}
use pure_mls.Tree.{RatchetTree, climb, direct_path, siblings_along, copath}
use native.Mathlib.Nat.{pow-suc}

pub record IsFull (d : ℕ) (t : RatchetTree) : Type 0 where
  pub leaves : t.num_leaves ≡ 2 ^ d
  pub size : length t.nodes ≡ 2 ^ suc d - 1

-- The `m` nodes above `node k j`, upwards: half the position at each level.
abbrev pub ancestors : ℕ → ℕ → ℕ → List ℕ
ancestors k j zero = []
ancestors k j (suc m) = node (suc k) (j / 2) ∷ ancestors (suc k) (j / 2) m

-- The position of the other child of the same parent.
abbrev pub other : ℕ → ℕ
other j = if j % 2 == 0 then j + 1 else j - 1

abbrev pub beside : ℕ → ℕ → ℕ → List (Option ℕ)
beside k j zero = []
beside k j (suc m) = some (node k (other j)) ∷ beside (suc k) (j / 2) m

half-lt : (j m : ℕ) → j < 2 ^ suc m → j / 2 < 2 ^ m
half-lt j m h = omega (arith, pow-suc 2 m)

path_in_range :
    (t : RatchetTree) (d k m j : ℕ) → IsFull d t → d ≡ k + m → j < 2 ^ m → node k j < length t.nodes
path_in_range t d k m j f e h = omega (arith, f.size, node-lt k j m h, ap (λ (t : ℕ). 2 ^ suc t) e)

up :
    (t : RatchetTree) (d k m j : ℕ)
    → IsFull d t
    → d ≤ 31
    → d ≡ k + suc m
    → j < 2 ^ suc m
    → parent t.num_leaves (node k j) ≡ ok (node (suc k) (j / 2))
up t d k m j f le e h =
    ap (λ n. parent n (node k j)) (f.leaves ∙ ap (λ (x : ℕ). 2 ^ x) e)
    ∙ parent-node k m j (omega arith) h

top : (t : RatchetTree) (d : ℕ) → IsFull d t → root t.num_leaves ≡ node d 0
top t d f = ap root f.leaves ∙ root-pow d

inside :
    (t : RatchetTree) (d k m j : ℕ)
    → IsFull d t
    → d ≡ k + suc m
    → j < 2 ^ suc m
    → leb (length t.nodes) (node (suc k) (j / 2)) ≡ false
inside t d k m j f e h =
    lt→leb _ _ (path_in_range t d (suc k) m (j / 2) f (omega arith) (half-lt j m h))

not_top :
    (t : RatchetTree) (d k m j : ℕ)
    → IsFull d t
    → d ≡ k + suc m
    → (node k j == root t.num_leaves) ≡ false
not_top t d k m j f e = ground (arith, top t d f, node-ne-root k m j, ap (λ (x : ℕ). node x 0) e)

climb_step :
    (t : RatchetTree) (d k m j fuel : ℕ)
    → IsFull d t
    → d ≤ 31
    → d ≡ k + suc (suc m)
    → j < 2 ^ suc (suc m)
    → climb (suc fuel) t (node k j)
      ≡ bind (climb fuel t (node (suc k) (j / 2))) (λ ps. ok (node (suc k) (j / 2) ∷ ps))
unfolding climb
climb_step t d k m j fuel f le e h = rw (
  up t d k (suc m) j f le e h,
  inside t d k (suc m) j f e h,
  not_top t d (suc k) m (j / 2) f (omega arith),
  climb,
)

climb-ancestors :
    (t : RatchetTree) (d k m j fuel : ℕ)
    → IsFull d t
    → d ≤ 31
    → d ≡ k + suc m
    → j < 2 ^ suc m
    → m < fuel
    → climb fuel t (node k j) ≡ ok (ancestors k j (suc m))
climb-ancestors t d k m j zero f le e h enough = absurd (omega arith)
climb-ancestors t d k zero j (suc fuel) f le e h enough =
    unfold climb in rw (up t d k 0 j f le e h, inside t d k 0 j f e h, at_top, climb)
  where
    at_top : (node (suc k) (j / 2) == root t.num_leaves) ≡ true
    at_top = ground (arith, top t d f, ap (λ (x : ℕ). node x 0) e, ap (node (suc k)) zero_half)
      where
        zero_half : j / 2 ≡ 0
        zero_half = omega arith
climb-ancestors t d k (suc m) j (suc fuel) f le e h enough =
    climb_step t d k m j fuel f le e h
    ∙ rw (
        climb-ancestors t d (suc k) m (j / 2) fuel f le (omega arith) (half-lt j (suc m) h)
          (omega arith))

-- In a tree of 2 ^ d leaves that fill the array, d at most 31, the direct path of the j-th leaf
-- is the list of its d ancestors, up to the root.
pub direct_path-leaf :
    (t : RatchetTree) (d j : ℕ)
    → IsFull d t
    → d ≤ 31
    → j < 2 ^ d
    → direct_path t (2 * j) ≡ ok (ancestors 0 j d)
unfolding direct_path
direct_path-leaf t zero j f le h = rw at_top
  where
    at_top : (2 * j == root t.num_leaves) ≡ true
    at_top = ground (arith, top t 0 f)
direct_path-leaf t (suc d) j f le h =
    rw (below, ← node-zero j)
      (climb-ancestors t (suc d) 0 d j 64 f le (omega arith) h (omega arith))
  where
    below : (2 * j == root t.num_leaves) ≡ false
    below = rw node-zero at (not_top t (suc d) 0 d j f (omega arith))

siblings_along-beside :
    (t : RatchetTree) (d k m j : ℕ)
    → IsFull d t
    → d ≤ 31
    → d ≡ k + m
    → j < 2 ^ m
    → siblings_along t (node k j) (ancestors k j m) ≡ ok (beside k j m)
unfolding siblings_along
siblings_along-beside t d k zero j f le e h = refl
siblings_along-beside t d k (suc m) j f le e h =
    rw (
      across,
      siblings_along-beside t d (suc k) m (j / 2) f le (omega arith) (half-lt j m h),
      within,
    )
  where
    across : sibling t.num_leaves (node k j) ≡ ok (node k (other j))
    across =
        ap (λ n. sibling n (node k j)) (f.leaves ∙ ap (λ (x : ℕ). 2 ^ x) e)
        ∙ sibling-node k m j (omega arith) h

    near : other j < 2 ^ suc m
    near = ground (arith, pow-suc 2 m)

    within : ltb (node k (other j)) (length t.nodes) ≡ true
    within = lt→ltb _ _ (path_in_range t d k (suc m) (other j) f e near)

-- In a tree of 2 ^ d leaves that fill the array, d at most 31, the copath of the j-th leaf is,
-- level by level, the other child of the parent of the node on the path; all of them are in the
-- array.
pub copath-leaf :
    (t : RatchetTree) (d j : ℕ)
    → IsFull d t
    → d ≤ 31
    → j < 2 ^ d
    → copath t (2 * j) ≡ ok (beside 0 j d)
unfolding copath
copath-leaf t d j f le h =
    rw (direct_path-leaf t d j f le h, ← node-zero j)
      (siblings_along-beside t d 0 d j f le (omega arith) h)

pub length-ancestors : (k j m : ℕ) → length (ancestors k j m) ≡ m
length-ancestors k j zero = refl
length-ancestors k j (suc m) = ap suc (length-ancestors (suc k) (j / 2) m)
