-- ===== src/Group/Update.antt =====
-- `GroupUpdate` of src/pure_mls/group.py: a commit, as the program sends it.
use pure_mls.Prelude.{
  ℕ, zero, suc, Bytes, List, [], ◌∷◌, length, Option, none, some, Result, ok, bind, ◌⊕◌, join, ◌==◌,
  if◌then◌else◌,
}
use pure_mls.Wire.Reader.{Reader, ◌>>=◌, pure, lift, read_whole}
use pure_mls.Tls.Ints.{tls_u32, tls_u64, read_u32, read_u64, byte_at}
use pure_mls.Tls.Opaque.{tls_opaque, tls_opaque32, read_opaque, read_opaque32}
use pure_mls.Tree.{RatchetTree}
use pure_mls.Tree.Wire as TreeWire
use pure_mls.Group.Context.{GroupContext}
use pure_mls.Group.Path as PathWire
use pure_mls.Group.Path.{UpdatePath}
use pure_mls.Group.Dict.{Dict, dict_set, sort, item_leb}
pub mod RoundTrip

-- The fields with an underscore are not on the wire; the last two are set from the message around.
pub record GroupUpdate : Type 0 where
  pub epoch_id : ℕ
  pub tree : RatchetTree
  pub encrypted_commit_secrets : Dict
  pub committer_index : ℕ
  pub signature : Bytes
  pub group_id : Bytes
  pub update_path : Option UpdatePath
  pub group_ctx : Option GroupContext
  pub old_group_ctx : Option GroupContext
  pub confirmation_key : Option Bytes
  pub epoch_authenticator : Option Bytes
  pub membership_key : Option Bytes
  pub transcript_hash : Option Bytes
  pub confirmation_tag : Option Bytes
  pub membership_tag : Option Bytes

-- `GroupUpdate(...)` with the defaults of the fields that are not given.
abbrev pub new : ℕ → RatchetTree → Dict → ℕ → Bytes → Bytes → Option UpdatePath → GroupUpdate
new epoch tree' secrets committer signature' group_id' path = record {
  epoch_id = epoch;
  tree = tree';
  encrypted_commit_secrets = secrets;
  committer_index = committer;
  signature = signature';
  group_id = group_id';
  update_path = path;
  group_ctx = none;
  old_group_ctx = none;
  confirmation_key = none;
  epoch_authenticator = none;
  membership_key = none;
  transcript_hash = none;
  confirmation_tag = none;
  membership_tag = none;
}

unfoldable pub item_bytes : Bytes × Bytes → Result Bytes
item_bytes kv = tls_opaque kv.0 ⊕ tls_opaque kv.1

unfoldable pub optional_path : Option UpdatePath → Result Bytes
optional_path none = ok (0x00 ∷ [])
optional_path (some path) = ok (0x01 ∷ []) ⊕ bind (PathWire.to_bytes path) tls_opaque32

-- `_body_bytes`: the secrets go in the order of their keys.
unfoldable pub body_bytes : GroupUpdate → Result Bytes
unfolding item_bytes optional_path
body_bytes u =
    tls_u64 u.epoch_id
    ⊕ bind (TreeWire.to_bytes u.tree) tls_opaque32
    ⊕ tls_u32 (length u.encrypted_commit_secrets)
    ⊕ join item_bytes (sort item_leb u.encrypted_commit_secrets)
    ⊕ tls_u32 u.committer_index
    ⊕ optional_path u.update_path

unfoldable pub to_bytes : GroupUpdate → Result Bytes
unfolding body_bytes
to_bytes u = body_bytes u ⊕ tls_opaque u.signature

-- `for _ in range(secrets_count)`: each item is set in the dictionary.
unfoldable pub read_items : ℕ → Dict → Reader Dict
unfolding ◌>>=◌ pure
read_items zero secrets = pure secrets
read_items (suc n) secrets = do
  kp_ref ← read_opaque
  enc_ct ← read_opaque
  read_items n (dict_set secrets kp_ref enc_ct)

-- `UpdatePath.from_bytes(up_bytes, 0)`
unfoldable pub parse_path : Bytes → Result UpdatePath
parse_path = read_whole PathWire.from_bytes_at

unfoldable pub read_path : ℕ → Reader (Option UpdatePath)
unfolding ◌>>=◌ pure lift
read_path has_path =
    if has_path == 0
    then pure none
    else (read_opaque32 >>= λ raw. (lift (parse_path raw) >>= λ path. pure (some path)))

unfoldable pub read_update : Reader GroupUpdate
unfolding ◌>>=◌ pure lift read_items read_path
read_update = do
  epoch ← read_u64
  tree_raw ← read_opaque32
  tree' ← lift (TreeWire.from_bytes tree_raw)
  count ← read_u32
  secrets ← read_items count []
  committer ← read_u32
  has_path ← byte_at
  path ← read_path has_path
  signature' ← read_opaque
  pure (new epoch tree' secrets committer signature' [] path)

unfoldable pub from_bytes : Bytes → Result GroupUpdate
from_bytes = read_whole read_update
