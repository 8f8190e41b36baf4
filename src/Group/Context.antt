-- ===== src/Group/Context.antt =====
-- `GroupContext` of src/pure_mls/group.py, and the functions that build one and that hash a key
-- package. The two underscored class constants are taken as constants.
use pure_mls.Prelude.{ℕ, Bytes, [], length, Result, ok, bind, ◌⊕◌, ◌==◌, value_error}
use pure_mls.Primitives.{Primitives, ascii}
use pure_mls.Wire.Reader.{Reader, ◌>>=◌, ◌>>◌, pure, require, read_whole}
use pure_mls.Tls.Ints.{int_to_bytes, read_u16, read_u64}
use pure_mls.Tls.Opaque.{tls_varint, varint_decode, read_opaque, read_fixed}
use pure_mls.Node.KeyPackage as KeyPackage
use pure_mls.Node.KeyPackage.{KeyPackage}
use pure_mls.Tree.{RatchetTree}
use pure_mls.Tree.Hash.{tree_hash}
pub mod RoundTrip

pub record GroupContext : Type 0 where
  pub group_id : Bytes
  pub epoch : ℕ
  pub tree_hash : Bytes
  pub confirmed_transcript_hash : Bytes
  pub extensions_bytes : Bytes

abbrev pub version : ℕ
version = 0x0001

abbrev pub cipher_suite : ℕ
cipher_suite = 0x0001

unfoldable pub to_bytes : GroupContext → Result Bytes
to_bytes g =
    int_to_bytes 2 version
    ⊕ int_to_bytes 2 cipher_suite
    ⊕ (tls_varint (length g.group_id) ⊕ ok g.group_id)
    ⊕ int_to_bytes 8 g.epoch
    ⊕ (tls_varint (length g.tree_hash) ⊕ ok g.tree_hash)
    ⊕ (tls_varint (length g.confirmed_transcript_hash) ⊕ ok g.confirmed_transcript_hash)
    ⊕ tls_varint (length g.extensions_bytes)
    ⊕ ok g.extensions_bytes

-- The slice of the extensions is not checked.
unfoldable pub from_bytes_at : Reader GroupContext
unfolding ◌>>=◌ ◌>>◌ pure require
from_bytes_at = do
  version' ← read_u16
  require (version' == version) value_error
  suite ← read_u16
  require (suite == cipher_suite) value_error
  group_id' ← read_opaque
  epoch' ← read_u64
  tree_hash' ← read_opaque
  confirmed ← read_opaque
  ext_len ← varint_decode
  extensions ← read_fixed ext_len
  pure (record {
    group_id = group_id';
    epoch = epoch';
    tree_hash = tree_hash';
    confirmed_transcript_hash = confirmed;
    extensions_bytes = extensions;
  })

unfoldable pub from_bytes : Bytes → Result GroupContext
from_bytes = read_whole from_bytes_at

-- `_make_kp_ref`
unfoldable pub make_kp_ref : Primitives → KeyPackage → Result Bytes
make_kp_ref p kp = bind (KeyPackage.to_bytes kp) (λ kp_bytes.
    let label = ascii "MLS 1.0 KeyPackage Reference" in
    bind (tls_varint (length label) ⊕ ok label ⊕ tls_varint (length kp_bytes) ⊕ ok kp_bytes)
      (λ ref_input. ok (p.sha256 ref_input)))

-- `_make_group_context`
unfoldable pub make_group_context :
    Primitives → Bytes → ℕ → RatchetTree → Bytes → Result GroupContext
make_group_context p gid epoch_id tree confirmed = bind (tree_hash p tree) (λ h. ok (record {
  group_id = gid;
  epoch = epoch_id;
  tree_hash = h;
  confirmed_transcript_hash = confirmed;
  extensions_bytes = [];
}))
