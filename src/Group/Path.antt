-- ===== src/Group/Path.antt =====
-- `HPKECiphertext`, `UpdatePathNode` and `UpdatePath` of src/pure_mls/group.py.
use pure_mls.Prelude.{ℕ, Bytes, List, length, Result, bind, ◌⊕◌, join}
use pure_mls.Wire.Reader.{Reader, ◌>>=◌, pure, lift, read_count}
use pure_mls.Tls.Ints.{tls_u32, read_u32}
use pure_mls.Tls.Opaque.{tls_opaque, read_opaque}
use pure_mls.Node.KeyPackage as KeyPackage
use pure_mls.Node.KeyPackage.{KeyPackage}
pub mod RoundTrip

pub record HpkeCiphertext : Type 0 where
  pub kem_output : Bytes
  pub ciphertext : Bytes

unfoldable pub ciphertext_bytes : HpkeCiphertext → Result Bytes
ciphertext_bytes c = tls_opaque c.kem_output ⊕ tls_opaque c.ciphertext

unfoldable pub read_ciphertext : Reader HpkeCiphertext
unfolding ◌>>=◌ pure
read_ciphertext = do
  kem_output' ← read_opaque
  ciphertext' ← read_opaque
  pure (record { kem_output = kem_output'; ciphertext = ciphertext' })

pub record UpdatePathNode : Type 0 where
  pub new_public_key : Bytes
  pub encrypted_path_secret : List HpkeCiphertext

unfoldable pub node_bytes : UpdatePathNode → Result Bytes
node_bytes n =
    tls_opaque n.new_public_key
    ⊕ tls_u32 (length n.encrypted_path_secret)
    ⊕ join ciphertext_bytes n.encrypted_path_secret

unfoldable pub read_node : Reader UpdatePathNode
unfolding ◌>>=◌ pure
read_node = do
  key ← read_opaque
  n ← read_u32
  secrets ← read_count read_ciphertext n
  pure (record { new_public_key = key; encrypted_path_secret = secrets })

pub record UpdatePath : Type 0 where
  pub leaf_key_package : KeyPackage
  pub nodes : List UpdatePathNode

unfoldable pub to_bytes : UpdatePath → Result Bytes
to_bytes u =
    bind (KeyPackage.to_bytes u.leaf_key_package) tls_opaque
    ⊕ tls_u32 (length u.nodes)
    ⊕ join node_bytes u.nodes

unfoldable pub from_bytes_at : Reader UpdatePath
unfolding ◌>>=◌ pure lift
from_bytes_at = do
  kp_bytes ← read_opaque
  kp ← lift (KeyPackage.from_bytes kp_bytes)
  n ← read_u32
  nodes' ← read_count read_node n
  pure (record { leaf_key_package = kp; nodes = nodes' })
