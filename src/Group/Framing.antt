-- ===== src/Group/Framing.antt =====
-- `FramedContent`, `FramedContentAuthData` and the transcript hashes of src/pure_mls/group.py.
use pure_mls.Prelude.{ℕ, Bytes, ◌++◌, Result, ok, bind, ◌⊕◌, ◌==◌, value_error}
use pure_mls.Primitives.{Primitives}
use pure_mls.Wire.Reader.{Reader, ◌>>=◌, ◌>>◌, pure, require, read_whole}
use pure_mls.Tls.Ints.{tls_u8, tls_u16, tls_u32, tls_u64, read_u8, read_u32, read_u64}
use pure_mls.Tls.Opaque.{tls_opaque, tls_opaque32, read_opaque, read_opaque32}
use pure_mls.Group.Context as Context
use pure_mls.Group.Context.{GroupContext}
pub mod RoundTrip

pub record FramedContent : Type 0 where
  pub group_id : Bytes
  pub epoch : ℕ
  pub sender_leaf_index : ℕ
  pub authenticated_data : Bytes
  pub content : Bytes

abbrev pub content_type_commit : ℕ
content_type_commit = 0x03

abbrev pub sender_member : ℕ
sender_member = 0x01

unfoldable pub to_bytes : FramedContent → Result Bytes
to_bytes f =
    tls_opaque f.group_id
    ⊕ tls_u64 f.epoch
    ⊕ tls_u8 sender_member
    ⊕ tls_u32 f.sender_leaf_index
    ⊕ tls_opaque f.authenticated_data
    ⊕ tls_u8 content_type_commit
    ⊕ tls_opaque32 f.content

unfoldable pub read_content : Reader FramedContent
unfolding ◌>>=◌ ◌>>◌ pure require
read_content = do
  group_id' ← read_opaque
  epoch' ← read_u64
  sender_type ← read_u8
  require (sender_type == sender_member) value_error
  sender ← read_u32
  authenticated ← read_opaque
  content_type ← read_u8
  require (content_type == content_type_commit) value_error
  content' ← read_opaque32
  pure (record {
    group_id = group_id';
    epoch = epoch';
    sender_leaf_index = sender;
    authenticated_data = authenticated;
    content = content';
  })

unfoldable pub from_bytes : Bytes → Result FramedContent
from_bytes = read_whole read_content

pub record FramedContentAuthData : Type 0 where
  pub signature : Bytes
  pub confirmation_tag : Bytes

unfoldable pub auth_bytes : FramedContentAuthData → Result Bytes
auth_bytes a = tls_opaque a.signature ⊕ tls_opaque a.confirmation_tag

unfoldable pub read_auth : Reader FramedContentAuthData
unfolding ◌>>=◌ pure
read_auth = do
  signature' ← read_opaque
  tag ← read_opaque
  pure (record { signature = signature'; confirmation_tag = tag })

-- `_make_framed_content_tbs`
unfoldable pub framed_content_tbs : GroupContext → FramedContent → Result Bytes
unfolding to_bytes
framed_content_tbs context framed =
    tls_u16 0x0001 ⊕ tls_u16 0x0001 ⊕ Context.to_bytes context ⊕ to_bytes framed

-- `_compute_confirmed_transcript_hash_input`
unfoldable pub confirmed_input : Bytes → Bytes → Result Bytes
confirmed_input framed_content_bytes signature =
    tls_u16 0x0001 ⊕ ok framed_content_bytes ⊕ tls_opaque signature

-- `_compute_confirmed_transcript_hash`
unfoldable pub confirmed_transcript_hash : Primitives → Bytes → Bytes → Bytes
confirmed_transcript_hash p interim input = p.sha256 (interim ++ input)

-- `_compute_interim_transcript_hash`
unfoldable pub interim_transcript_hash : Primitives → Bytes → Bytes → Bytes
interim_transcript_hash p confirmed tag = p.sha256 (confirmed ++ tag)
