-- ===== src/Node/Parent.antt =====
-- `ParentNode` of src/pure_mls/tree.py.
use pure_mls.Prelude.{ℕ, Bytes, List, [], ◌∷◌, Result, bind, ok, ◌⊕◌, join}
use pure_mls.Wire.Reader.{Reader, ◌>>=◌, pure, read_whole}
use pure_mls.Tls.Ints.{tls_u32, from_be}
use pure_mls.Tls.Opaque.{tls_opaque, read_opaque}
pub mod RoundTrip

pub record ParentNode : Type 0 where
  pub public_key : Bytes
  pub parent_hash : Bytes
  pub unmerged_leaves : List ℕ

unfoldable pub unmerged_leaves_bytes : ParentNode → Result Bytes
unmerged_leaves_bytes n = join tls_u32 n.unmerged_leaves

unfoldable pub to_bytes : ParentNode → Result Bytes
unfolding unmerged_leaves_bytes
to_bytes n =
    tls_opaque n.public_key ⊕ tls_opaque n.parent_hash ⊕ bind (unmerged_leaves_bytes n) tls_opaque

-- `[int.from_bytes(raw[i:i+4], "big") for i in range(0, len(raw), 4)]`
unfoldable pub u32_items : Bytes → List ℕ
unfolding from_be
u32_items [] = []
u32_items (a ∷ []) = from_be (a ∷ []) ∷ []
u32_items (a ∷ b ∷ []) = from_be (a ∷ b ∷ []) ∷ []
u32_items (a ∷ b ∷ c ∷ []) = from_be (a ∷ b ∷ c ∷ []) ∷ []
u32_items (a ∷ b ∷ c ∷ d ∷ rest) = from_be (a ∷ b ∷ c ∷ d ∷ []) ∷ u32_items rest

unfoldable pub from_bytes_at : Reader ParentNode
unfolding ◌>>=◌ pure
from_bytes_at = do
  public_key' ← read_opaque
  parent_hash' ← read_opaque
  unmerged_raw ← read_opaque
  pure (record {
    public_key = public_key';
    parent_hash = parent_hash';
    unmerged_leaves = u32_items unmerged_raw;
  })

unfoldable pub from_bytes : Bytes → Result ParentNode
from_bytes = read_whole from_bytes_at
