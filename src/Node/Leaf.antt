-- ===== src/Node/Leaf.antt =====
-- `LeafNode` of src/pure_mls/tree.py: the wire format, what is signed, and the checks.
use pure_mls.Prelude.{
  ℕ, Bytes, List, [], ◌∷◌, Option, none, some, Result, ok, err, bind, ◌⊕◌, ◌==◌, ◌||◌,
  if◌then◌else◌, length, value_error,
}
use pure_mls.Primitives.{Primitives}
use pure_mls.Wire.Reader.{Reader, ◌>>=◌, pure, read_whole}
use pure_mls.Tls.Ints.{tls_u8, tls_u16, tls_u32, tls_u64, read_u8, read_u64}
use pure_mls.Tls.Opaque.{tls_opaque, read_opaque}
use pure_mls.Tls.Extension.{Extension, tls_extensions, read_extensions}
use pure_mls.Capabilities
use pure_mls.Capabilities.{Capabilities}
use pure_mls.Node.Credential
use pure_mls.Node.Credential.{Credential}
pub mod RoundTrip
pub mod Signing

abbrev pub source_key_package : ℕ
source_key_package = 0x01

abbrev pub source_update : ℕ
source_update = 0x02

abbrev pub source_commit : ℕ
source_commit = 0x03

abbrev pub cipher_suite : ℕ
cipher_suite = 0x0001

pub record LeafNode : Type 0 where
  pub encryption_key : Bytes
  pub signature_key : Bytes
  pub credential : Credential
  pub capabilities : Capabilities
  pub leaf_node_source : ℕ
  pub lifetime : Option (ℕ × ℕ)
  pub parent_hash : Option Bytes
  pub extensions : List Extension
  pub signature : Bytes

-- `self.lifetime`, with zeros where it is absent.
abbrev pub lifetime_or_zeros : Option (ℕ × ℕ) → ℕ × ℕ
lifetime_or_zeros none = (0, 0)
lifetime_or_zeros (some l) = l

-- `self.parent_hash or b""`
abbrev pub bytes_or_empty : Option Bytes → Bytes
bytes_or_empty none = []
bytes_or_empty (some h) = h

-- The `select` block of RFC 9420 §7.2, the same in `_tbs_bytes` and `to_bytes`.
unfoldable pub source_block : LeafNode → Result Bytes
source_block leaf =
    if leaf.leaf_node_source == source_key_package
    then tls_u64 (lifetime_or_zeros leaf.lifetime).0 ⊕ tls_u64 (lifetime_or_zeros leaf.lifetime).1
    else if leaf.leaf_node_source == source_commit
    then tls_opaque (bytes_or_empty leaf.parent_hash)
    else ok []

unfoldable pub tbs_bytes : LeafNode → Bytes → ℕ → Result Bytes
tbs_bytes leaf group_id leaf_index =
    tls_u16 cipher_suite
    ⊕ tls_opaque leaf.encryption_key
    ⊕ tls_opaque leaf.signature_key
    ⊕ Credential.to_bytes leaf.credential
    ⊕ Capabilities.marshal leaf.capabilities
    ⊕ tls_u8 leaf.leaf_node_source
    ⊕ source_block leaf
    ⊕ tls_extensions leaf.extensions
    ⊕ (if leaf.leaf_node_source == source_update || leaf.leaf_node_source == source_commit
        then tls_opaque group_id ⊕ tls_u32 leaf_index
        else ok [])

-- `sign_fn` is the signature key's function, which the caller passes in.
unfoldable pub sign : LeafNode → (Bytes → Bytes) → Bytes → ℕ → Result LeafNode
sign leaf sign_fn group_id leaf_index =
    bind (tbs_bytes leaf group_id leaf_index) (λ tbs. ok (record leaf { signature = sign_fn tbs }))

unfoldable pub verify_signature : Primitives → LeafNode → Bytes → ℕ → Result (Unit {0})
verify_signature p leaf group_id leaf_index =
    if length leaf.signature == 0
    then err value_error
    else bind (p.ed25519_load leaf.signature_key) (λ _.
      bind (tbs_bytes leaf group_id leaf_index)
        (λ tbs. p.ed25519_check leaf.signature_key leaf.signature tbs))

unfoldable pub to_bytes : LeafNode → Result Bytes
to_bytes leaf =
    tls_opaque leaf.encryption_key
    ⊕ tls_opaque leaf.signature_key
    ⊕ Credential.to_bytes leaf.credential
    ⊕ Capabilities.marshal leaf.capabilities
    ⊕ tls_u8 leaf.leaf_node_source
    ⊕ source_block leaf
    ⊕ tls_extensions leaf.extensions
    ⊕ tls_opaque leaf.signature

-- The lifetime and the parent hash that the source byte announces.
unfoldable pub read_source_block : ℕ → Reader (Option (ℕ × ℕ) × Option Bytes)
unfolding ◌>>=◌ pure
read_source_block source =
    if source == source_key_package
    then (read_u64 >>= λ nb. (read_u64 >>= λ na. pure (some (nb, na), none)))
    else if source == source_commit
    then (read_opaque >>= λ h. pure (none, some h))
    else pure (none, none)

unfoldable pub from_bytes_at : Reader LeafNode
unfolding ◌>>=◌ pure read_source_block
from_bytes_at = do
  encryption_key' ← read_opaque
  signature_key' ← read_opaque
  credential' ← Credential.from_bytes_at
  capabilities' ← Capabilities.from_bytes_at
  source ← read_u8
  block ← read_source_block source
  extensions' ← read_extensions
  signature' ← read_opaque
  pure (record {
    encryption_key = encryption_key';
    signature_key = signature_key';
    credential = credential';
    capabilities = capabilities';
    leaf_node_source = source;
    lifetime = block.0;
    parent_hash = block.1;
    extensions = extensions';
    signature = signature';
  })

unfoldable pub from_bytes : Bytes → Result LeafNode
from_bytes = read_whole from_bytes_at

-- The unsigned leaf of a new member.
abbrev pub new_leaf : Bytes → Bytes → Bytes → LeafNode
new_leaf encryption_key' signature_key' who = record {
  encryption_key = encryption_key';
  signature_key = signature_key';
  credential = Credential.basic who;
  capabilities = Capabilities.default;
  leaf_node_source = source_key_package;
  lifetime = none;
  parent_hash = none;
  extensions = [];
  signature = [];
}

unfoldable pub create : Bytes → Bytes → Bytes → (Bytes → Bytes) → Result LeafNode
unfolding sign
create encryption_key' signature_key' who sign_fn =
    sign (new_leaf encryption_key' signature_key' who) sign_fn [] 0
