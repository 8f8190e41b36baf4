-- ===== src/Tree/Wire/RoundTrip.antt =====
-- The wire form of `RatchetTree` of src/pure_mls/tree.py, for full trees, and the loop of its parser.
use pure_mls.Prelude.{
  ℕ, suc, ◌+◌, ◌-◌, ◌*◌, ◌/◌, ◌^◌, ◌≤◌, ◌≡◌, inl, inr, refl, ap, ◌∙◌, subst, arith, Bytes, List, [],
  ◌∷◌, ◌++◌, append-nil, length, length-append, get_elem?, get_elem?-append, get_elem?-append_at,
  map, All, Option, none, some, Result, ok, err, bind, join, bind-eq-ok, ok-injective, leb, lt→leb,
  lt→ltb, false, Bool-cases, ◌==◌, if◌then◌else◌, value_error, out_of_fuel, ◌≢◌, Option-cases,
}
use pure_mls.Prelude.Bits.{pow_pos}
use pure_mls.Wire.Reader.{Reader, read_until}
use pure_mls.Wire.RoundTrip.{RoundTrips, read_whole-RoundTrips, nested-RoundTrips, map-RoundTrips}
use pure_mls.Wire.Steps.{Steps, Steps-le, bind-Steps, bind-ends, pure-Steps, lift-Steps}
use pure_mls.Wire.Until.{without_break, without_break-RoundTrips, read_until-join, read_until-ends}
use pure_mls.Tls.Opaque.{tls_opaque, index}
use pure_mls.Tls.Opaque.RoundTrip.{tls_opaque-RoundTrips}
use pure_mls.Node.Leaf as Leaf
use pure_mls.Node.Leaf.{LeafNode}
use pure_mls.Node.Leaf.RoundTrip as LeafLaws
use pure_mls.Node.Leaf.Signing as LeafSigning
use pure_mls.Node.Parent as Parent
use pure_mls.Node.Parent.{ParentNode}
use pure_mls.Node.Parent.RoundTrip as ParentLaws
use pure_mls.Tree.{Node, leaf, parent_node, RatchetTree}
use pure_mls.Tree.Paths.{IsFull}
use pure_mls.Tree.Pow2.{next_pow2-pow}
use pure_mls.Tree.Wire.{
  node_bytes, to_bytes, read_node, read_kind, of_nodes, parse, from_bytes, from_bytes_at,
}
use native.Mathlib.Nat.{pow-suc}

abbrev pub node_on_the_wire : Option Node → Option Node
node_on_the_wire none = none
node_on_the_wire (some (leaf l)) = some (leaf (LeafLaws.on_the_wire l))
node_on_the_wire (some (parent_node p)) = some (parent_node p)

-- Two bytes in front of what a reader takes.
behind_two :
    (a b : ℕ) (e pre rest : Bytes)
    → pre ++ ((a ∷ b ∷ e) ++ rest) ≡ (pre ++ (a ∷ b ∷ [])) ++ (e ++ rest)
behind_two a b e [] rest = refl
behind_two a b e (x ∷ pre) rest = ap (λ t. x ∷ t) (behind_two a b e pre rest)

read_node_two :
    (present kind : ℕ) (pre rest : Bytes)
    → (get_elem? (pre ++ (present ∷ kind ∷ rest)) (length pre) ≡ some present)
      × (get_elem? (pre ++ (present ∷ kind ∷ rest)) (length pre + 1) ≡ some kind)
      × (leb (length (pre ++ (present ∷ kind ∷ rest))) (length pre + 1) ≡ false)
read_node_two present kind pre rest = (
  get_elem?-append pre (kind ∷ rest) present,
  get_elem?-append_at pre (present ∷ kind ∷ rest) 1,
  lt→leb _ _ (omega (arith, length-append pre (present ∷ kind ∷ rest))),
)

-- A structure behind the presence and type bytes, moved to where the bytes stand.
behind_two-decodes {ℓ} :
    {A : Type ℓ} {r : Reader A} {m : Result Bytes} {v : A} (a b : ℕ) (e pre rest : Bytes)
    → RoundTrips r m v
    → m ≡ ok e
    → r (pre ++ ((a ∷ b ∷ e) ++ rest)) (length pre + 2) ≡ ok (v, length pre + suc (suc (length e)))
behind_two-decodes {r} {v} a b e pre rest f h =
    rw (behind_two a b e pre rest, ← two, sum) (f.decodes e h (pre ++ (a ∷ b ∷ [])) rest)
  where
    two : length (pre ++ (a ∷ b ∷ [])) ≡ length pre + 2
    two = length-append pre (a ∷ b ∷ [])

    sum : length pre + suc (suc (length e)) ≡ length (pre ++ (a ∷ b ∷ [])) + length e
    sum = omega (arith, two)

read_kind-leaf :
    (l : LeafNode)
    → RoundTrips (read_kind 1) (Leaf.to_bytes l) (some (some (leaf (LeafLaws.on_the_wire l))))
unfolding read_kind
read_kind-leaf l = map-RoundTrips _ (LeafLaws.to_bytes-RoundTrips l)

read_kind-parent :
    (n : ParentNode) → RoundTrips (read_kind 2) (Parent.to_bytes n) (some (some (parent_node n)))
unfolding read_kind
read_kind-parent n = map-RoundTrips _ (ParentLaws.to_bytes-RoundTrips n)

read_leaf :
    (l : LeafNode) (e pre rest : Bytes)
    → Leaf.to_bytes l ≡ ok e
    → read_node (pre ++ ((1 ∷ 1 ∷ e) ++ rest)) (length pre)
      ≡ ok (some (some (leaf (LeafLaws.on_the_wire l))), length pre + suc (suc (length e)))
unfolding read_node
read_leaf l e pre rest h =
    let (first, second, long) = read_node_two 1 1 pre (e ++ rest) in
    rw (first, long, second, behind_two-decodes 1 1 e pre rest (read_kind-leaf l) h)

read_parent :
    (n : ParentNode) (e pre rest : Bytes)
    → Parent.to_bytes n ≡ ok e
    → read_node (pre ++ ((1 ∷ 2 ∷ e) ++ rest)) (length pre)
      ≡ ok (some (some (parent_node n)), length pre + suc (suc (length e)))
unfolding read_node
read_parent n e pre rest h =
    let (first, second, long) = read_node_two 1 2 pre (e ++ rest) in
    rw (first, long, second, behind_two-decodes 1 2 e pre rest (read_kind-parent n) h)

read_blank :
    (pre rest : Bytes) → read_node (pre ++ (0 ∷ rest)) (length pre) ≡ ok (some none, length pre + 1)
unfolding read_node
read_blank pre rest = rw (get_elem?-append pre rest 0)

node_bytes-RoundTrips :
    (n : Option Node) → RoundTrips read_node (node_bytes n) (some (node_on_the_wire n))
unfolding node_bytes
node_bytes-RoundTrips none = record {
  decodes = λ e h pre rest. rw (← ok-injective h) (read_blank pre rest);
}
node_bytes-RoundTrips (some (leaf l)) = record {
  decodes = λ e h pre rest.
      let (b, hb, he) = bind-eq-ok (Leaf.to_bytes l) _ h in
      rw (← ok-injective he) (read_leaf l b pre rest hb);
}
node_bytes-RoundTrips (some (parent_node p)) = record {
  decodes = λ e h pre rest.
      let (b, hb, he) = bind-eq-ok (Parent.to_bytes p) _ h in
      rw (← ok-injective he) (read_parent p b pre rest hb);
}

read_kind-Steps : (t : ℕ) → Steps 0 (read_kind t)
unfolding read_kind
read_kind-Steps t = elim (Bool-cases (t == 0x01)) [
  | inl l ↦ rw l (
      Steps-le 0 13 (omega arith)
        (bind-Steps 13 0 _ LeafLaws.from_bytes_at-Steps (λ v. pure-Steps _)))
  | inr n ↦ elim (Bool-cases (t == 0x02)) [
    | inl p ↦
        rw (n, p)
          (Steps-le 0 3 (omega arith)
            (bind-Steps 3 0 _ ParentLaws.from_bytes_at-Steps (λ v. pure-Steps _)))
    | inr u ↦ rw (n, u) (lift-Steps (err value_error) (λ h. cc))
  ]
]

after_presence : ℕ → Reader (Option (Option Node))
after_presence present raw i =
    if present == 0x00
    then ok (some none, i + 1)
    else if present == 0x01
    then (if leb (length raw) (i + 1)
        then ok (none, i + 1)
        else bind (index raw (i + 1)) (λ node_type. read_kind node_type raw (i + 2)))
    else err value_error

after_presence-moves :
    (present : ℕ) (raw : Bytes) (i : ℕ) (v : Option (Option Node)) (off' : ℕ)
    → after_presence present raw i ≡ ok (v, off')
    → i + 1 ≤ off'
unfolding after_presence
after_presence-moves present raw i v off' h = elim (Option-cases (get_elem? raw (i + 1))) [
  | inl gone ↦ ground arith
  | inr (t, here) ↦ ground (arith, (read_kind-Steps t).moves raw (i + 2) v off')
]

after_presence-ends :
    (present : ℕ) (raw : Bytes) (i : ℕ) → after_presence present raw i ≢ err out_of_fuel
unfolding after_presence
after_presence-ends present raw i h = elim (Option-cases (get_elem? raw (i + 1))) [
  | inl gone ↦ ground arith
  | inr (t, here) ↦ ground (arith, (read_kind-Steps t).ends raw (i + 2))
]

pub read_node-Steps : Steps 1 read_node
unfolding read_node after_presence
read_node-Steps = record {
  moves = λ buf off v off' h.
      let (present, _, rest) = bind-eq-ok (index buf off) (λ b. after_presence b buf off) h in
      after_presence-moves present buf off v off' rest;
  ends = λ buf off.
      bind-ends (index buf off) (λ b. after_presence b buf off) (λ h. ground arith)
        (λ b _. after_presence-ends b buf off);
}

-- The nodes that the parser makes of what was written are the parse's result: a full array needs no blanks.
half_nodes : (d len : ℕ) → len ≡ 2 ^ suc d - 1 → (len + 1) / 2 ≡ 2 ^ d
half_nodes d len h = omega (arith, pow-suc 2 d, pow_pos d)

pub of_nodes-full :
    (d : ℕ) (ns : List (Option Node))
    → length ns ≡ 2 ^ suc d - 1
    → of_nodes ns ≡ record { num_leaves = 2 ^ d; nodes = ns; frozen = false }
unfolding of_nodes
of_nodes-full d ns h =
    let none_left : 2 * 2 ^ d - 1 - length ns ≡ 0 = omega (arith, pow-suc 2 d) in
    rw (
      half_nodes d (length ns) h,
      lt→ltb 0 (2 ^ d) (omega (arith, pow_pos d)),
      next_pow2-pow d,
      none_left,
      append-nil ns,
    )

pub on_the_wire : RatchetTree → RatchetTree
on_the_wire t = record {
  num_leaves = t.num_leaves;
  nodes = map node_on_the_wire t.nodes;
  frozen = false;
}

-- The encoding does not depend on the fields of a leaf that are not on the wire.
node_bytes-on_the_wire : (n : Option Node) → node_bytes (node_on_the_wire n) ≡ node_bytes n
unfolding node_bytes
node_bytes-on_the_wire none = refl
node_bytes-on_the_wire (some (leaf l)) = rw (LeafSigning.to_bytes-on_the_wire l)
node_bytes-on_the_wire (some (parent_node p)) = refl

node_on_the_wire-twice :
    (n : Option Node) → node_on_the_wire (node_on_the_wire n) ≡ node_on_the_wire n
node_on_the_wire-twice none = refl
node_on_the_wire-twice (some (leaf l)) = ap (λ w. some (leaf w)) (LeafLaws.on_the_wire-twice l)
node_on_the_wire-twice (some (parent_node p)) = refl

join-on_the_wire :
    (ns : List (Option Node)) → join node_bytes (map node_on_the_wire ns) ≡ join node_bytes ns
unfolding join
join-on_the_wire [] = refl
join-on_the_wire (n ∷ ns) = rw (node_bytes-on_the_wire n, join-on_the_wire ns)

length-map : (ns : List (Option Node)) → length (map node_on_the_wire ns) ≡ length ns
length-map [] = refl
length-map (n ∷ ns) = ap suc (length-map ns)

each_node :
    (ns : List (Option Node))
    → All (λ n. RoundTrips (without_break read_node) (node_bytes n) n) (map node_on_the_wire ns)
each_node [] = tt
each_node (n ∷ ns) = (
  without_break-RoundTrips read_node (
      subst (λ w. RoundTrips read_node (node_bytes (node_on_the_wire n)) (some w))
        (node_on_the_wire-twice n) (node_bytes-RoundTrips (node_on_the_wire n))),
  each_node ns,
)

parse-full :
    (t : RatchetTree) (d : ℕ) (body : Bytes)
    → IsFull d t
    → join node_bytes t.nodes ≡ ok body
    → parse body ≡ ok (on_the_wire t)
unfolding parse on_the_wire
parse-full t d body f h =
    let wire = map node_on_the_wire t.nodes in
    let all : read_until read_node (length body) body 0 ≡ ok wire =
      read_until-join read_node node_bytes wire body read_node-Steps (each_node t.nodes)
        (join-on_the_wire t.nodes ∙ h) in
    rw (all, of_nodes-full d wire (length-map t.nodes ∙ f.size), f.leaves)

-- A tree whose array is full is read as it was written, wherever it stands in a buffer, up to the
-- leaf fields that are not on the wire and the list that holds the nodes.
pub to_bytes-RoundTrips :
    (t : RatchetTree) (d : ℕ) → IsFull d t → RoundTrips from_bytes_at (to_bytes t) (on_the_wire t)
unfolding from_bytes_at to_bytes tls_opaque
to_bytes-RoundTrips t d f =
    nested-RoundTrips (join node_bytes t.nodes) parse tls_opaque-RoundTrips
      (λ body h. parse-full t d body f h)

-- The same for a byte string that holds the tree and nothing else.
pub from_bytes-to_bytes :
    (t : RatchetTree) (d : ℕ) (e : Bytes)
    → IsFull d t
    → to_bytes t ≡ ok e
    → from_bytes e ≡ ok (on_the_wire t)
unfolding from_bytes to_bytes tls_opaque
from_bytes-to_bytes t d e f h =
    let (body, hb, hw) = bind-eq-ok (join node_bytes t.nodes) _ h in
    rw (read_whole-RoundTrips (tls_opaque-RoundTrips body) hw) (parse-full t d body f hb)

-- A tree whose array is full is read as it was written, wherever it stands in a buffer, up to the
-- leaf fields that are not on the wire, and with its nodes in a list again.
pub from_bytes_at-to_bytes :
    (t : RatchetTree) (d : ℕ) (e pre rest : Bytes)
    → IsFull d t
    → to_bytes t ≡ ok e
    → from_bytes_at (pre ++ (e ++ rest)) (length pre) ≡ ok (on_the_wire t, length pre + length e)
from_bytes_at-to_bytes t d e pre rest f h = (to_bytes-RoundTrips t d f).decodes e h pre rest

-- The loop of `_parse` ends on every input: a round for each byte is enough.
pub parse-ends : (raw : Bytes) → parse raw ≢ err out_of_fuel
unfolding parse
parse-ends raw =
    bind-ends (read_until read_node (length raw) raw 0) (λ ns. ok (of_nodes ns))
      (read_until-ends read_node (length raw) raw 0 read_node-Steps (omega arith)) (λ ns e h. cc)
