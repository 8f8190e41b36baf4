-- ===== src/Node/Leaf/RoundTrip.antt =====
-- The wire form of `LeafNode` of src/pure_mls/tree.py; `on_the_wire` is what is left of a leaf behind it.
use pure_mls.Prelude.{
  ℕ, ◌≡◌, ap, Bytes, Option, none, some, ◌==◌, if◌then◌else◌, Bool-cases, inl, inr,
}
use pure_mls.Wire.RoundTrip.{RoundTrips, bind-RoundTrips, map-RoundTrips, pure-RoundTrips}
use pure_mls.Wire.Steps.{Steps, bind-Steps, pure-Steps, Steps-le}
use native.Mathlib.Omega.{arith}
use pure_mls.Tls.Ints.RoundTrip.{tls_u8-RoundTrips, tls_u64-RoundTrips}
use pure_mls.Tls.Ints.Steps.{read_u8-Steps, read_u64-Steps}
use pure_mls.Tls.Opaque.RoundTrip.{tls_opaque-RoundTrips}
use pure_mls.Tls.Opaque.Bounds.{read_opaque-Steps}
use pure_mls.Tls.Extension.RoundTrip.{tls_extensions-RoundTrips, read_extensions-Steps}
use pure_mls.Capabilities.RoundTrip as CapabilitiesLaws
use pure_mls.Node.Credential
use pure_mls.Node.Leaf.{
  LeafNode, to_bytes, from_bytes_at, source_block, read_source_block, lifetime_or_zeros,
  bytes_or_empty, source_key_package, source_commit,
}

-- What a leaf's source puts on the wire: a lifetime with a key package, a parent hash with a
-- commit. The other fields are left as they are.
abbrev pub wire_block : LeafNode → Option (ℕ × ℕ) × Option Bytes
wire_block leaf =
    if leaf.leaf_node_source == source_key_package
    then (some (lifetime_or_zeros leaf.lifetime), none)
    else if leaf.leaf_node_source == source_commit
    then (none, some (bytes_or_empty leaf.parent_hash))
    else (none, none)

abbrev pub on_the_wire : LeafNode → LeafNode
on_the_wire leaf = record leaf { lifetime = (wire_block leaf).0; parent_hash = (wire_block leaf).1 }

wire_block-twice : (leaf : LeafNode) → wire_block (on_the_wire leaf) ≡ wire_block leaf
wire_block-twice leaf = elim (Bool-cases (leaf.leaf_node_source == source_key_package)) [
  | inl kp ↦ rw kp
  | inr other ↦ elim (Bool-cases (leaf.leaf_node_source == source_commit)) [
    | inl commit ↦ rw (other, commit)
    | inr update ↦ rw (other, update)
  ]
]

pub on_the_wire-twice : (leaf : LeafNode) → on_the_wire (on_the_wire leaf) ≡ on_the_wire leaf
on_the_wire-twice leaf =
    ap (λ w. record leaf { lifetime = w.0; parent_hash = w.1 }) (wire_block-twice leaf)

source_block-RoundTrips :
    (leaf : LeafNode)
    → RoundTrips (read_source_block leaf.leaf_node_source) (source_block leaf) (wire_block leaf)
unfolding read_source_block source_block
source_block-RoundTrips leaf = elim (Bool-cases (leaf.leaf_node_source == source_key_package)) [
  | inl kp ↦ rw kp (
      bind-RoundTrips _ (tls_u64-RoundTrips (lifetime_or_zeros leaf.lifetime).0)
        (map-RoundTrips _ (tls_u64-RoundTrips (lifetime_or_zeros leaf.lifetime).1)))
  | inr other ↦ elim (Bool-cases (leaf.leaf_node_source == source_commit)) [
    | inl commit ↦
        rw (other, commit)
          (map-RoundTrips _ (tls_opaque-RoundTrips (bytes_or_empty leaf.parent_hash)))
    | inr update ↦ rw (other, update) (pure-RoundTrips (none, none))
  ]
]

pub to_bytes-RoundTrips :
    (leaf : LeafNode) → RoundTrips from_bytes_at (to_bytes leaf) (on_the_wire leaf)
unfolding from_bytes_at to_bytes
to_bytes-RoundTrips leaf = bind-RoundTrips _ (tls_opaque-RoundTrips leaf.encryption_key) (
    bind-RoundTrips _ (tls_opaque-RoundTrips leaf.signature_key) (
      bind-RoundTrips _ (Credential.to_bytes-RoundTrips leaf.credential) (
        bind-RoundTrips _ (CapabilitiesLaws.marshal-RoundTrips leaf.capabilities) (
          bind-RoundTrips _ (tls_u8-RoundTrips leaf.leaf_node_source) (
            bind-RoundTrips _ (source_block-RoundTrips leaf) (
              bind-RoundTrips _ (tls_extensions-RoundTrips leaf.extensions)
                (map-RoundTrips _ (tls_opaque-RoundTrips leaf.signature))))))))

read_source_block-Steps : (source : ℕ) → Steps 0 (read_source_block source)
unfolding read_source_block
read_source_block-Steps source = elim (Bool-cases (source == source_key_package)) [
  | inl kp ↦ rw kp (
      Steps-le 0 16 (omega arith) (
        bind-Steps 8 8 _ read_u64-Steps (λ a. bind-Steps 8 0 _ read_u64-Steps (λ b. pure-Steps _))))
  | inr n ↦ elim (Bool-cases (source == source_commit)) [
    | inl commit ↦
        rw (n, commit)
          (Steps-le 0 1 (omega arith) (bind-Steps 1 0 _ read_opaque-Steps (λ a. pure-Steps _)))
    | inr update ↦ rw (n, update) (pure-Steps (none, none))
  ]
]

pub from_bytes_at-Steps : Steps 13 from_bytes_at
unfolding from_bytes_at
from_bytes_at-Steps = bind-Steps 1 12 _ read_opaque-Steps (λ a.
    bind-Steps 1 11 _ read_opaque-Steps (λ b. bind-Steps 3 8 _ Credential.from_bytes_at-Steps (λ c.
      bind-Steps 5 3 _ CapabilitiesLaws.from_bytes_at-Steps (λ e.
        bind-Steps 1 2 _ read_u8-Steps (λ s. bind-Steps 0 2 _ (read_source_block-Steps s) (λ l.
          bind-Steps 1 1 _ read_extensions-Steps
            (λ x. bind-Steps 1 0 _ read_opaque-Steps (λ g. pure-Steps _))))))))
