-- ===== src/Tree/Hash.antt =====
-- `tree_hash` and `_node_hash` of src/pure_mls/tree.py, and src/pure_mls/crypto.py: the subtree
-- hash, the parent hash and the labels of the HPKE infos.
use pure_mls.Prelude.{
  ℕ, zero, suc, ◌+◌, ◌-◌, ◌*◌, ◌/◌, ◌%◌, ◌^◌, bit_xor, Bytes, [], ◌∷◌, ◌++◌, length, get_elem?,
  Option, none, some, leb, ◌==◌, if◌then◌else◌, true, false, Result, ok, err, bind, ◌⊕◌,
  assertion_error, out_of_fuel, value_error,
}
use pure_mls.Primitives.{Primitives, ascii}
use pure_mls.Tls.Ints.{tls_u32}
use pure_mls.Tls.Opaque.{tls_opaque}
use pure_mls.Node.Leaf as Leaf
use pure_mls.Node.Parent as Parent
use pure_mls.TreeMath.{level, root}
use pure_mls.Tree.{Node, leaf, parent_node, RatchetTree}
use Prim.Native.String.{String}

-- `optional<Node>`: what the hash input says of a node.
unfoldable pub optional_node : Option Node → Result Bytes
optional_node none = ok (0x00 ∷ [])
optional_node (some (leaf l)) = ok (0x01 ∷ []) ⊕ Leaf.to_bytes l
optional_node (some (parent_node n)) = ok (0x01 ∷ []) ⊕ Parent.to_bytes n

unfoldable pub leaf_input : ℕ → Option Node → Result Bytes
unfolding optional_node
leaf_input index node = ok (0x01 ∷ []) ⊕ tls_u32 (index / 2) ⊕ optional_node node

unfoldable pub parent_input : Option Node → Bytes → Bytes → Result Bytes
unfolding optional_node
parent_input node left_h right_h =
    ok (0x02 ∷ []) ⊕ optional_node node ⊕ tls_opaque left_h ⊕ tls_opaque right_h

-- `while right_idx >= w`: the right child moves down to the left until it is in the array; at a leaf
-- the shift by -1 raises. It gets a level lower in each round; 64 rounds are more than a tree has levels.
unfoldable pub right_in_range : ℕ → ℕ → ℕ → Result ℕ
right_in_range zero w right = if leb w right then err out_of_fuel else ok right
right_in_range (suc fuel) w right = elim (leb w right) [
  | true ↦
      if level right == 0
      then err value_error
      else right_in_range fuel w (bit_xor right (2 ^ (level right - 1)))
  | false ↦ ok right
]

-- `_node_hash`, with fuel for the recursion: a child is a level below its parent.
unfoldable pub node_hash : ℕ → Primitives → RatchetTree → ℕ → Result Bytes
node_hash zero p t index = err out_of_fuel
node_hash (suc fuel) p t index =
    let k = level index in
    let children : Result (Bytes × Bytes) =
      bind (right_in_range 64 (length t.nodes) (bit_xor index (0x03 * 2 ^ (k - 1)))) (λ right_idx.
        bind (node_hash fuel p t (bit_xor index (2 ^ (k - 1))))
          (λ left_h. bind (node_hash fuel p t right_idx) (λ right_h. ok (left_h, right_h)))) in
    elim (get_elem? t.nodes index) [
      | none ↦ ok (p.sha256 (0x00 ∷ []))
      | some node ↦
          if index % 2 == 0
          then bind (leaf_input index node) (λ res. ok (p.sha256 res))
          else bind children (λ h. bind (parent_input node h.0 h.1) (λ res. ok (p.sha256 res)))
    ]

unfoldable pub tree_hash : Primitives → RatchetTree → Result Bytes
unfolding node_hash
tree_hash p t =
    if length t.nodes == 0 then ok (p.sha256 []) else node_hash 64 p t (root t.num_leaves)

-- `isinstance(node, LeafNode)`, where a node is there
abbrev pub leaf_or_raise : Option Node → Result (Option Node)
leaf_or_raise none = ok none
leaf_or_raise (some (leaf l)) = ok (some (leaf l))
leaf_or_raise (some (parent_node n)) = err assertion_error

abbrev pub parent_or_raise : Option Node → Result (Option Node)
parent_or_raise none = ok none
parent_or_raise (some (leaf l)) = err assertion_error
parent_or_raise (some (parent_node n)) = ok (some (parent_node n))

-- `_subtree_hash` of crypto.py. A child outside the array hashes as nothing; a left child of a
-- position that is not below zero is not below zero.
unfoldable pub subtree_hash : ℕ → Primitives → RatchetTree → ℕ → Result Bytes
subtree_hash zero p t index = err out_of_fuel
subtree_hash (suc fuel) p t index =
    let child_dist = 2 ^ (level index - 1) in
    let left_hash = subtree_hash fuel p t (index - child_dist) in
    let right_hash = subtree_hash fuel p t (index + child_dist) in
    elim (get_elem? t.nodes index) [
      | none ↦ ok (p.sha256 [])
      | some node ↦
          if index % 2 == 0
          then bind (leaf_or_raise node) (λ l. bind (leaf_input index l) (λ res. ok (p.sha256 res)))
          else bind left_hash (λ l. bind right_hash (λ r.
            bind (parent_or_raise node)
              (λ n. bind (parent_input n l r) (λ res. ok (p.sha256 res)))))
    ]

unfoldable pub compute_parent_hash : Primitives → Bytes → Bytes → Bytes → Result Bytes
compute_parent_hash p new_public_key parent_hash_of_parent original_sibling_tree_hash =
    bind
      (tls_opaque (ascii "MLS 1.0 parent hash")
        ⊕ tls_opaque new_public_key
        ⊕ tls_opaque parent_hash_of_parent
        ⊕ tls_opaque original_sibling_tree_hash)
      (λ input. ok (p.sha256 input))

unfoldable pub make_hpke_info : String → Bytes → Result Bytes
make_hpke_info label context = tls_opaque (ascii "MLS 1.0 " ++ ascii label) ⊕ tls_opaque context

unfoldable pub egs_info : Bytes → Result Bytes
unfolding make_hpke_info
egs_info egi = make_hpke_info "Welcome" egi

unfoldable pub up_info : Bytes → Result Bytes
unfolding make_hpke_info
up_info group_ctx = make_hpke_info "UpdatePathNode" group_ctx
