-- ===== src/Node/KeyPackage/Signing.antt =====
-- `create` and `verify_signature` of `KeyPackage` of src/pure_mls/tree.py together.
use pure_mls.Prelude.{
  ℕ, ◌≡◌, refl, sym, ap, Bytes, [], ok, ◌==◌, false, length, bind-eq-ok, ok-injective, subst, arith,
}
use pure_mls.Primitives.{Primitives}
use pure_mls.Node.Leaf as Leaf
use pure_mls.Node.Leaf.{LeafNode}
use pure_mls.Node.Leaf.Signing as LeafSigning
use pure_mls.Node.Leaf.Signing.{Signs}
use pure_mls.Node.KeyPackage.{KeyPackage, verify_signature, tbs_bytes, create}
use pure_mls.Node.KeyPackage.RoundTrip.{on_the_wire}

-- The receiver's check of a key package is the sender's.
pub verify_signature-on_the_wire :
    (p : Primitives) (kp : KeyPackage) → verify_signature p (on_the_wire kp) ≡ verify_signature p kp
unfolding verify_signature tbs_bytes
verify_signature-on_the_wire p kp = rw (
  LeafSigning.verify_signature-on_the_wire p kp.leaf_node [] 0,
  LeafSigning.to_bytes-on_the_wire kp.leaf_node,
)

signed_leaf :
    (leaf : LeafNode) (sign_fn : Bytes → Bytes) (group_id : Bytes) (i : ℕ) {signed : LeafNode}
    → Leaf.sign leaf sign_fn group_id i ≡ ok signed
    → signed.signature_key ≡ leaf.signature_key
unfolding Leaf.sign
signed_leaf leaf sign_fn group_id i h =
    let (tbs, ht, hs) = bind-eq-ok (Leaf.tbs_bytes leaf group_id i) _ h in
    ap (λ (l : LeafNode). l.signature_key) (sym (ok-injective hs))

abbrev packaged : LeafNode → Bytes → Bytes → KeyPackage
packaged leaf init_key signature = record {
  leaf_node = leaf;
  init_key_pub = init_key;
  leaf_node_signature = signature;
}

tbs_bytes-signature :
    (leaf : LeafNode) (init_key s : Bytes)
    → tbs_bytes (packaged leaf init_key s) ≡ tbs_bytes (packaged leaf init_key [])
unfolding tbs_bytes
tbs_bytes-signature leaf init_key s = refl

package_verifies :
    (p : Primitives) (leaf : LeafNode) (init_key : Bytes) (sign_fn : Bytes → Bytes) (tbs : Bytes)
    → Signs p leaf.signature_key sign_fn
    → Leaf.verify_signature p leaf [] 0 ≡ ok tt
    → tbs_bytes (packaged leaf init_key []) ≡ ok tbs
    → verify_signature p (packaged leaf init_key (sign_fn tbs)) ≡ ok tt
unfolding verify_signature
package_verifies p leaf init_key sign_fn tbs s leaf_ok h =
    let nonempty : (length (sign_fn tbs) == 0) ≡ false = ground (arith, s.nonempty tbs) in
    rw (
      leaf_ok,
      nonempty,
      s.loads,
      tbs_bytes-signature leaf init_key (sign_fn tbs),
      h,
      s.accepts tbs,
    )

-- A key package that `create` returned verifies, if the public key accepts what the signing
-- function makes.
pub verify_signature-create :
    (p : Primitives) (encryption_key init_key key who : Bytes) (sign_fn : Bytes → Bytes)
    {kp : KeyPackage}
    → Signs p key sign_fn
    → create encryption_key init_key key who sign_fn ≡ ok kp
    → verify_signature p kp ≡ ok tt
unfolding create Leaf.create
verify_signature-create p encryption_key init_key key who sign_fn {kp} s h =
    let start = Leaf.new_leaf encryption_key key who in
    let (leaf, hl, rest) = bind-eq-ok (Leaf.create encryption_key key who sign_fn) _ h in
    let (tbs, ht, hs) = bind-eq-ok (tbs_bytes (packaged leaf init_key [])) _ rest in
    subst (λ k. verify_signature p k ≡ ok tt) (ok-injective hs)
      (package_verifies p leaf init_key sign_fn tbs
        (subst (λ k. Signs p k sign_fn) (sym (signed_leaf start sign_fn [] 0 hl)) s)
        (LeafSigning.verify_signature-sign p start sign_fn [] 0 s hl) ht)
