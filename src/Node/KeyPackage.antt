-- ===== src/Node/KeyPackage.antt =====
-- `KeyPackage` of src/pure_mls/tree.py. The two underscored class constants are taken as constants.
use pure_mls.Prelude.{
  ℕ, Bytes, List, [], ◌∷◌, Option, none, some, Result, ok, err, bind, ◌⊕◌, ◌==◌, if◌then◌else◌,
  length, value_error, slice,
}
use pure_mls.Primitives.{Primitives}
use pure_mls.Wire.Reader.{Reader, ◌>>=◌, ◌>>◌, pure, require, read_whole}
use pure_mls.Tls.Ints.{tls_u16, read_u16}
use pure_mls.Tls.Opaque.{tls_opaque, read_opaque, tls_varint}
use pure_mls.Tls.Extension.{read_extensions}
use pure_mls.Node.Leaf as Leaf
use pure_mls.Node.Leaf.{LeafNode}
pub mod RoundTrip
pub mod Signing

pub record KeyPackage : Type 0 where
  pub leaf_node : LeafNode
  pub init_key_pub : Bytes
  pub leaf_node_signature : Bytes

abbrev pub version : ℕ
version = 0x0001

abbrev pub cipher_suite : ℕ
cipher_suite = 0x0001

-- KeyPackageTBS: all of the wire form but the signature.
unfoldable pub tbs_bytes : KeyPackage → Result Bytes
tbs_bytes kp =
    tls_u16 version
    ⊕ tls_u16 cipher_suite
    ⊕ tls_opaque kp.init_key_pub
    ⊕ Leaf.to_bytes kp.leaf_node
    ⊕ tls_varint 0

unfoldable pub verify_signature : Primitives → KeyPackage → Result (Unit {0})
verify_signature p kp = bind (Leaf.verify_signature p kp.leaf_node [] 0) (λ _.
    if length kp.leaf_node_signature == 0
    then err value_error
    else bind (p.ed25519_load kp.leaf_node.signature_key) (λ _.
      bind (tbs_bytes kp)
        (λ tbs. p.ed25519_check kp.leaf_node.signature_key kp.leaf_node_signature tbs)))

unfoldable pub to_bytes : KeyPackage → Result Bytes
to_bytes kp =
    tls_u16 version
    ⊕ tls_u16 cipher_suite
    ⊕ tls_opaque kp.init_key_pub
    ⊕ Leaf.to_bytes kp.leaf_node
    ⊕ tls_varint 0
    ⊕ tls_opaque kp.leaf_node_signature

unfoldable pub from_bytes_at : Reader KeyPackage
unfolding ◌>>=◌ ◌>>◌ pure require
from_bytes_at = do
  version' ← read_u16
  require (version' == version) value_error
  suite ← read_u16
  require (suite == cipher_suite) value_error
  init_key_pub' ← read_opaque
  leaf_node' ← Leaf.from_bytes_at
  extensions ← read_extensions
  signature ← read_opaque
  pure (record {
    leaf_node = leaf_node';
    init_key_pub = init_key_pub';
    leaf_node_signature = signature;
  })

unfoldable pub from_bytes : Bytes → Result KeyPackage
from_bytes = read_whole from_bytes_at

-- The compatibility view of a leaf that commits hash: `LeafNode.key_package`.
abbrev pub of_leaf : LeafNode → KeyPackage
of_leaf leaf = record {
  leaf_node = leaf;
  init_key_pub = leaf.encryption_key;
  leaf_node_signature = leaf.signature;
}

unfoldable pub create : Bytes → Bytes → Bytes → Bytes → (Bytes → Bytes) → Result KeyPackage
create encryption_key init_key signature_key who sign_fn =
    bind (Leaf.create encryption_key signature_key who sign_fn) (λ leaf.
      let kp : KeyPackage = record {
        leaf_node = leaf;
        init_key_pub = init_key;
        leaf_node_signature = [];
      } in
      bind (tbs_bytes kp) (λ tbs. ok (record kp { leaf_node_signature = sign_fn tbs })))

-- An unsigned leaf from the flat format of older versions; a 64-byte signature behind it is dropped.
unfoldable pub from_bytes_legacy : Bytes → Result KeyPackage
from_bytes_legacy raw =
    let identity_key = slice raw 0 32 in
    let init_key = slice raw 32 64 in
    let kp : KeyPackage = record {
      leaf_node = Leaf.new_leaf init_key identity_key identity_key;
      init_key_pub = init_key;
      leaf_node_signature = [];
    } in
    if length raw == 64 then ok kp else if length raw == 128 then ok kp else err value_error
