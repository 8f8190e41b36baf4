-- ===== src/Node/Leaf/Signing.antt =====
-- `sign` and `verify_signature` of `LeafNode` of src/pure_mls/tree.py together.
use pure_mls.Prelude.{
  ℕ, ◌≡◌, refl, ◌<◌, Bytes, ok, ◌==◌, Bool-cases, inl, inr, false, length, bind-eq-ok, ok-injective,
  arith,
}
use pure_mls.Primitives.{Primitives}
use pure_mls.Node.Leaf.{
  LeafNode, to_bytes, sign, verify_signature, tbs_bytes, source_block, source_key_package,
  source_commit,
}
use pure_mls.Node.Leaf.RoundTrip.{on_the_wire}

-- What the library relies on of Ed25519: the public key loads, and a signature made with the
-- private key is not empty and is accepted for the message that it was made for.
pub record Signs (p : Primitives) (key : Bytes) (sign_fn : Bytes → Bytes) : Type 0 where
  pub loads : p.ed25519_load key ≡ ok tt
  pub nonempty : (m : Bytes) → 0 < length (sign_fn m)
  pub accepts : (m : Bytes) → p.ed25519_check key (sign_fn m) m ≡ ok tt

-- The signature is no part of what is signed.
tbs_bytes-signature :
    (leaf : LeafNode) (s group_id : Bytes) (i : ℕ)
    → tbs_bytes (record leaf { signature = s }) group_id i ≡ tbs_bytes leaf group_id i
unfolding tbs_bytes source_block
tbs_bytes-signature leaf s group_id i = refl

-- A leaf that was signed verifies for the same group and index.
pub verify_signature-sign :
    (p : Primitives) (leaf : LeafNode) (sign_fn : Bytes → Bytes) (group_id : Bytes) (i : ℕ)
    {signed : LeafNode}
    → Signs p leaf.signature_key sign_fn
    → sign leaf sign_fn group_id i ≡ ok signed
    → verify_signature p signed group_id i ≡ ok tt
unfolding sign verify_signature
verify_signature-sign p leaf sign_fn group_id i {signed} s h =
    let (tbs, ht, hs) = bind-eq-ok (tbs_bytes leaf group_id i) _ h in
    let nonempty : (length (sign_fn tbs) == 0) ≡ false = ground (arith, s.nonempty tbs) in
    rw (← ok-injective hs)
      (rw (nonempty, s.loads, tbs_bytes-signature leaf (sign_fn tbs) group_id i, ht, s.accepts tbs))

source_block-on_the_wire : (leaf : LeafNode) → source_block (on_the_wire leaf) ≡ source_block leaf
unfolding source_block
source_block-on_the_wire leaf = elim (Bool-cases (leaf.leaf_node_source == source_key_package)) [
  | inl kp ↦ rw kp
  | inr other ↦ elim (Bool-cases (leaf.leaf_node_source == source_commit)) [
    | inl commit ↦ rw (other, commit)
    | inr update ↦ rw (other, update)
  ]
]

pub tbs_bytes-on_the_wire :
    (leaf : LeafNode) (group_id : Bytes) (i : ℕ)
    → tbs_bytes (on_the_wire leaf) group_id i ≡ tbs_bytes leaf group_id i
unfolding tbs_bytes
tbs_bytes-on_the_wire leaf group_id i = rw (source_block-on_the_wire leaf)

pub to_bytes-on_the_wire : (leaf : LeafNode) → to_bytes (on_the_wire leaf) ≡ to_bytes leaf
unfolding to_bytes
to_bytes-on_the_wire leaf = rw (source_block-on_the_wire leaf)

-- What the wire does to a leaf does not change what is signed, so the receiver's check is the sender's.
pub verify_signature-on_the_wire :
    (p : Primitives) (leaf : LeafNode) (group_id : Bytes) (i : ℕ)
    → verify_signature p (on_the_wire leaf) group_id i ≡ verify_signature p leaf group_id i
unfolding verify_signature
verify_signature-on_the_wire p leaf group_id i = rw (tbs_bytes-on_the_wire leaf group_id i)
