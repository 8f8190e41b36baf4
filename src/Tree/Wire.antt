-- ===== src/Tree/Wire.antt =====
-- The wire form of a ratchet tree: `to_bytes`, `_parse` and `from_bytes` of src/pure_mls/tree.py.
use pure_mls.Prelude.{
  ℕ, ◌+◌, ◌-◌, ◌*◌, ◌/◌, ◌≤◌, Bytes, List, [], ◌∷◌, ◌++◌, length, replicate, Option, none, some,
  Result, ok, err, bind, ◌⊕◌, join, ltb, leb, ◌==◌, if◌then◌else◌, value_error, false,
}
use pure_mls.Wire.Reader.{Reader, ◌>>=◌, pure, lift, read_whole, read_until}
use pure_mls.Tls.Opaque.{tls_varint, read_opaque, index}
use pure_mls.Node.Leaf as Leaf
use pure_mls.Node.Parent as Parent
use pure_mls.Tree.{Node, leaf, parent_node, RatchetTree, next_pow2}
pub mod RoundTrip

-- One entry of the vector: the presence byte, the node type and the node.
unfoldable pub node_bytes : Option Node → Result Bytes
node_bytes none = ok (0x00 ∷ [])
node_bytes (some (leaf l)) = ok (0x01 ∷ 0x01 ∷ []) ⊕ Leaf.to_bytes l
node_bytes (some (parent_node p)) = ok (0x01 ∷ 0x02 ∷ []) ⊕ Parent.to_bytes p

unfoldable pub to_bytes : RatchetTree → Result Bytes
to_bytes t = bind (join node_bytes t.nodes) (λ parts. tls_varint (length parts) ⊕ ok parts)

-- The node behind a node type.
unfoldable pub read_kind : ℕ → Reader (Option (Option Node))
unfolding ◌>>=◌ pure lift
read_kind node_type =
    if node_type == 0x01
    then (Leaf.from_bytes_at >>= λ l. pure (some (some (leaf l))))
    else if node_type == 0x02
    then (Parent.from_bytes_at >>= λ n. pure (some (some (parent_node n))))
    else lift (err value_error)

-- One round of the loop of `_parse`: `none` where it breaks off, at a presence byte that ends the input.
unfoldable pub read_node : Reader (Option (Option Node))
read_node raw i = bind (index raw i) (λ present.
    if present == 0x00
    then ok (some none, i + 1)
    else if present == 0x01
    then (if leb (length raw) (i + 1)
        then ok (none, i + 1)
        else bind (index raw (i + 1)) (λ node_type. read_kind node_type raw (i + 2)))
    else err value_error)

-- The leaf count that the nodes imply, rounded up, and the blanks that fill the array.
unfoldable pub of_nodes : List (Option Node) → RatchetTree
of_nodes nodes' =
    let implied = (length nodes' + 1) / 2 in
    let n = if ltb 0 implied then next_pow2 implied else 0 in
    record {
      num_leaves = n;
      nodes = nodes' ++ replicate (2 * n - 1 - length nodes') none;
      frozen = false;
    }

-- `_parse`. Each round takes a byte at least, so `len(raw)` rounds are enough.
unfoldable pub parse : Bytes → Result RatchetTree
parse raw = bind (read_until read_node (length raw) raw 0) (λ ns. ok (of_nodes ns))

unfoldable pub from_bytes : Bytes → Result RatchetTree
from_bytes b = bind (read_whole read_opaque b) parse

unfoldable pub from_bytes_at : Reader RatchetTree
unfolding ◌>>=◌ lift
from_bytes_at = read_opaque >>= λ raw. lift (parse raw)
