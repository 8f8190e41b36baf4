-- ===== src/Tree.antt =====
-- `RatchetTree` of src/pure_mls/tree.py: its state and the operations on the array.
use pure_mls.Prelude.{
  ℕ, zero, suc, ◌+◌, ◌-◌, ◌*◌, ◌/◌, ◌%◌, ◌^◌, Bool, true, false, not, ltb, leb, ◌==◌, if◌then◌else◌,
  ◌&&◌, Bytes, List, [], ◌∷◌, ◌++◌, map, length, get_elem?, set, take, replicate, Option, none,
  some, Result, ok, err, bind, guard, value_error, type_error, index_error, assertion_error,
  runtime_error, out_of_fuel,
}
use pure_mls.Node.Leaf.{LeafNode}
use pure_mls.Node.Parent.{ParentNode}
use pure_mls.TreeMath.{level, root, parent, sibling}
pub mod Paths
pub mod Pow2
pub mod Wire
pub mod Hash

pub data Node : Type 0 where
  leaf : LeafNode → Node
  parent_node : ParentNode → Node

-- `frozen` says that `nodes` is a tuple.
pub record RatchetTree : Type 0 where
  pub num_leaves : ℕ
  pub nodes : List (Option Node)
  pub frozen : Bool

-- `RatchetTree(num_leaves)`
unfoldable pub new : ℕ → RatchetTree
new n = record { num_leaves = n; nodes = replicate (2 * n - 1) none; frozen = false }

unfoldable pub freeze : RatchetTree → RatchetTree
freeze t = record t { frozen = true }

-- `self.nodes[index] = node`, which raises outside the list.
unfoldable pub store : RatchetTree → ℕ → Option Node → Result RatchetTree
store t index node =
    if ltb index (length t.nodes)
    then ok (record t { nodes = set t.nodes index node })
    else err index_error

unfoldable pub set_leaf : RatchetTree → ℕ → LeafNode → Result RatchetTree
unfolding store
set_leaf t index l =
    if not (index % 2 == 0)
    then err value_error
    else if t.frozen
    then err type_error
    else store t index (some (leaf l))

unfoldable pub set_parent : RatchetTree → ℕ → ParentNode → Result RatchetTree
unfolding store
set_parent t index p =
    if index % 2 == 0
    then err value_error
    else if t.frozen
    then err type_error
    else store t index (some (parent_node p))

unfoldable pub blank_node : RatchetTree → ℕ → Result RatchetTree
blank_node t index =
    if t.frozen
    then err type_error
    else if ltb index (length t.nodes)
    then ok (record t { nodes = set t.nodes index none })
    else ok t

-- `get_node`: nothing at a blank node or outside the tree.
unfoldable pub get_node : RatchetTree → ℕ → Option Node
get_node t index = elim (get_elem? t.nodes index) [ none ↦ none | some n ↦ n ]

-- The body of the loop of `expanded`.
unfoldable pub copy_node : RatchetTree → ℕ → Option Node → Result RatchetTree
unfolding set_leaf set_parent
copy_node t i none = ok t
copy_node t i (some (leaf l)) = if i % 2 == 0 then set_leaf t i l else err assertion_error
copy_node t i (some (parent_node p)) = if i % 2 == 0 then err assertion_error else set_parent t i p

unfoldable pub copy_nodes : RatchetTree → ℕ → List (Option Node) → Result RatchetTree
unfolding copy_node
copy_nodes t i [] = ok t
copy_nodes t i (n ∷ ns) = bind (copy_node t i n) (λ t'. copy_nodes t' (i + 1) ns)

unfoldable pub expanded : RatchetTree → ℕ → Result RatchetTree
unfolding copy_nodes new
expanded t new_num_leaves =
    if ltb new_num_leaves t.num_leaves
    then err value_error
    else copy_nodes (new new_num_leaves) 0 t.nodes

-- The loop of `direct_path`: up to the root, or to a parent outside the array.
unfoldable pub climb : ℕ → RatchetTree → ℕ → Result (List ℕ)
climb zero t x = err out_of_fuel
climb (suc fuel) t x = bind (parent t.num_leaves x) (λ p.
    if leb (length t.nodes) p then ok [] else elim (p == root t.num_leaves) [
      | true ↦ ok (p ∷ [])
      | false ↦ bind (climb fuel t p) (λ ps. ok (p ∷ ps))
    ])

-- 64 rounds are more than a tree of 2 ^ 32 leaves has levels.
unfoldable pub direct_path : RatchetTree → ℕ → Result (List ℕ)
unfolding climb
direct_path t x = if x == root t.num_leaves then ok [] else climb 64 t x

-- The siblings along a path; `none` stands for the source's -1.
unfoldable pub siblings_along : RatchetTree → ℕ → List ℕ → Result (List (Option ℕ))
siblings_along t x [] = ok []
siblings_along t x (p ∷ ps) = bind (sibling t.num_leaves x) (λ sib.
    bind (siblings_along t p ps)
      (λ rest. ok ((if ltb sib (length t.nodes) then some sib else none) ∷ rest)))

unfoldable pub copath : RatchetTree → ℕ → Result (List (Option ℕ))
unfolding siblings_along
copath t x = bind (direct_path t x) (siblings_along t x)

-- `_depth > 32` raises; `left` is what is left of the depth.
unfoldable pub resolution_at : ℕ → RatchetTree → ℕ → Result (List ℕ)
resolution_at zero t index = err runtime_error
resolution_at (suc left) t index =
    let half = 2 ^ (level index - 1) in
    let children =
      bind (resolution_at left t (index - half))
        (λ ls. bind (resolution_at left t (index + half)) (λ rs. ok (ls ++ rs))) in
    elim (get_elem? t.nodes index) [
      | none ↦ ok []
      | some n ↦
          if index % 2 == 0 then ok (elim n [ none ↦ [] | some _ ↦ index ∷ [] ]) else elim n [
            | none ↦ children
            | some (leaf _) ↦ ok (index ∷ [])
            | some (parent_node p) ↦ ok (index ∷ map (λ l. 2 * l) p.unmerged_leaves)
          ]
    ]

unfoldable pub resolution : RatchetTree → ℕ → Result (List ℕ)
unfolding resolution_at
resolution t index = resolution_at 33 t index

-- `resolution` of a copath entry, where the entry is in the tree.
unfoldable pub filter_path : RatchetTree → List ℕ → List (Option ℕ) → Result (List ℕ)
filter_path t [] cs = ok []
filter_path t (p ∷ ps) [] = ok []
filter_path t (p ∷ ps) (none ∷ cs) = filter_path t ps cs
filter_path t (p ∷ ps) (some c ∷ cs) =
    bind (resolution t c)
      (λ r. bind (filter_path t ps cs) (λ rest. ok (if ltb 0 (length r) then p ∷ rest else rest)))

unfoldable pub filtered_direct_path : RatchetTree → ℕ → Result (List ℕ)
filtered_direct_path t x =
    bind (direct_path t x) (λ ps. bind (copath t x) (λ cs. filter_path t ps cs))

-- `_next_pow2`: `while p < n: p <<= 1`. `n` rounds are enough.
unfoldable pub next_pow2_loop : ℕ → ℕ → ℕ → ℕ
next_pow2_loop zero p n = p
next_pow2_loop (suc fuel) p n = elim (ltb p n) [ true ↦ next_pow2_loop fuel (p * 2) n | false ↦ p ]

unfoldable pub next_pow2 : ℕ → ℕ
unfolding next_pow2_loop
next_pow2 n = next_pow2_loop n 1 n

-- Step 2 of `remove_leaf`: blank every node of the path.
unfoldable pub blank_all : List (Option Node) → List ℕ → Result (List (Option Node))
blank_all ns [] = ok ns
blank_all ns (i ∷ is) = if ltb i (length ns) then blank_all (set ns i none) is else err index_error

-- The position of the last non-blank leaf, counting from `i`: `rightmost` of the source.
unfoldable pub rightmost_from : ℕ → List (Option Node) → Option ℕ
rightmost_from i [] = none
rightmost_from i (none ∷ ns) = rightmost_from (i + 1) ns
rightmost_from i (some _ ∷ ns) =
    let later = rightmost_from (i + 1) ns in
    if i % 2 == 0 then elim later [ none ↦ some i | some j ↦ some j ] else later

-- Step 3 of `remove_leaf`.
unfoldable pub truncate : RatchetTree → RatchetTree
unfolding rightmost_from next_pow2
truncate t = elim (rightmost_from 0 t.nodes) [
  | none ↦ record { num_leaves = 0; nodes = []; frozen = false }
  | some r ↦
      let n = next_pow2 (r / 2 + 1) in
      record { num_leaves = n; nodes = take (2 * n - 1) t.nodes; frozen = false }
]

-- The deep copy is the value itself here, with its nodes in a list again.
unfoldable pub remove_leaf : RatchetTree → ℕ → Result RatchetTree
unfolding blank_all truncate
remove_leaf t leaf_index =
    if not (leaf_index % 2 == 0)
    then err value_error
    else if leb (length t.nodes) leaf_index
    then err value_error
    else let blanked : RatchetTree = record t {
      nodes = set t.nodes leaf_index none;
      frozen = false;
    } in
      bind (direct_path blanked leaf_index) (λ path.
        bind (blank_all blanked.nodes path) (λ ns. ok (truncate (record blanked { nodes = ns }))))
