-- ===== src/Group/Message.antt =====
-- `PublicMessage` and `MLSMessage` of src/pure_mls/group.py: what a commit, a welcome and a key package
-- are sent in.
use pure_mls.Prelude.{
  ℕ, Bytes, [], Option, none, some, Result, ok, err, bind, ◌⊕◌, ◌==◌, not, if◌then◌else◌,
  value_error,
}
use pure_mls.Primitives.{Primitives}
use pure_mls.Wire.Reader.{Reader, ◌>>=◌, ◌>>◌, pure, lift, require, read_whole}
use pure_mls.Tls.Ints.{tls_u16, read_u16}
use pure_mls.Tls.Opaque.{tls_opaque, tls_opaque32, read_opaque, read_opaque32}
use pure_mls.Codecs.{Registry}
use pure_mls.Node.KeyPackage as KeyPackage
use pure_mls.Node.KeyPackage.{KeyPackage}
use pure_mls.Group.Context.{GroupContext}
use pure_mls.Group.Framing as Framing
use pure_mls.Group.Framing.{FramedContent, FramedContentAuthData, auth_bytes, read_auth}
use pure_mls.Group.Update as Update
use pure_mls.Group.Update.{GroupUpdate}
use pure_mls.Group.Welcome as Welcome
use pure_mls.Group.Welcome.{Welcome}
pub mod Envelope

pub record PublicMessage : Type 0 where
  pub content : FramedContent
  pub auth : FramedContentAuthData
  pub membership_tag : Bytes

unfoldable pub public_bytes : PublicMessage → Result Bytes
public_bytes m =
    bind (Framing.to_bytes m.content) tls_opaque32
    ⊕ bind (auth_bytes m.auth) tls_opaque32
    ⊕ tls_opaque m.membership_tag

unfoldable pub parse_auth : Bytes → Result FramedContentAuthData
parse_auth = read_whole read_auth

-- The three parts are cut out before the first two are parsed.
unfoldable pub read_public : Reader PublicMessage
unfolding ◌>>=◌ pure lift
read_public = do
  content_bytes ← read_opaque32
  auth_raw ← read_opaque32
  tag ← read_opaque
  content' ← lift (Framing.from_bytes content_bytes)
  auth' ← lift (parse_auth auth_raw)
  pure (record { content = content'; auth = auth'; membership_tag = tag })

unfoldable pub public_from_bytes : Bytes → Result PublicMessage
public_from_bytes = read_whole read_public

-- `from_group_update`
unfoldable pub from_group_update :
    Primitives → GroupUpdate → Bytes → Bytes → GroupContext → Result PublicMessage
from_group_update p update confirmation_key transcript_hash old_ctx =
    bind (Update.to_bytes update) (λ commit_body. elim update.membership_tag [
      | none ↦ err value_error
      | some tag ↦ ok (record {
        content = record {
          group_id = old_ctx.group_id;
          epoch = old_ctx.epoch;
          sender_leaf_index = update.committer_index;
          authenticated_data = [];
          content = commit_body;
        };
        auth = record {
          signature = update.signature;
          confirmation_tag = p.hmac_sha256 confirmation_key transcript_hash;
        };
        membership_tag = tag;
      })
    ])

-- `to_group_update`
unfoldable pub to_group_update : PublicMessage → Result GroupUpdate
to_group_update m = bind (Update.from_bytes m.content.content) (λ update. ok (record update {
  signature = m.auth.signature;
  confirmation_tag = some m.auth.confirmation_tag;
  group_id = m.content.group_id;
  membership_tag = some m.membership_tag;
}))

-- `WireFormat`
abbrev pub mls_public_message : ℕ
mls_public_message = 0x0001

abbrev pub mls_welcome : ℕ
mls_welcome = 0x0003

abbrev pub mls_key_package : ℕ
mls_key_package = 0x0005

abbrev pub version : ℕ
version = 0x0001

pub record MlsMessage : Type 0 where
  pub wire_format : ℕ
  pub body : Bytes

unfoldable pub to_bytes : MlsMessage → Result Bytes
to_bytes m = tls_u16 version ⊕ tls_u16 m.wire_format ⊕ tls_opaque32 m.body

unfoldable pub read_message : Reader MlsMessage
unfolding ◌>>=◌ ◌>>◌ pure require
read_message = do
  version' ← read_u16
  require (version' == version) value_error
  format ← read_u16
  body' ← read_opaque32
  pure (record { wire_format = format; body = body' })

unfoldable pub from_bytes : Bytes → Result MlsMessage
from_bytes = read_whole read_message

unfoldable pub wrap_welcome : Registry → Welcome → Result MlsMessage
wrap_welcome registry w =
    bind (Welcome.to_bytes registry w) (λ b. ok (record { wire_format = mls_welcome; body = b }))

unfoldable pub unwrap_welcome : Registry → MlsMessage → Result Welcome
unwrap_welcome registry m =
    if not (m.wire_format == mls_welcome)
    then err value_error
    else Welcome.from_bytes registry m.body none

-- `x is not None`, for the six fields that `wrap_commit` looks at.
abbrev pub or_none {ℓ} : {A : Type ℓ} → Option A → Result A
or_none none = err value_error
or_none (some a) = ok a

unfoldable pub wrap_commit : Primitives → GroupUpdate → Result MlsMessage
unfolding from_group_update
wrap_commit p commit = bind (or_none commit.group_ctx) (λ ctx.
    bind (or_none commit.old_group_ctx) (λ old_ctx.
      bind (or_none commit.confirmation_key) (λ confirmation_key.
        bind (or_none commit.epoch_authenticator) (λ authenticator.
          bind (or_none commit.membership_key) (λ membership_key.
            bind (or_none commit.transcript_hash) (λ transcript_hash.
              bind (from_group_update p commit confirmation_key transcript_hash old_ctx) (λ pm.
                bind (public_bytes pm)
                  (λ b. ok (record { wire_format = mls_public_message; body = b })))))))))

unfoldable pub unwrap_commit : MlsMessage → Result GroupUpdate
unfolding to_group_update
unwrap_commit m =
    if not (m.wire_format == mls_public_message)
    then err value_error
    else bind (public_from_bytes m.body) to_group_update

unfoldable pub wrap_key_package : KeyPackage → Result MlsMessage
wrap_key_package kp =
    bind (KeyPackage.to_bytes kp) (λ b. ok (record { wire_format = mls_key_package; body = b }))

unfoldable pub unwrap_key_package : MlsMessage → Result KeyPackage
unwrap_key_package m =
    if not (m.wire_format == mls_key_package) then err value_error else KeyPackage.from_bytes m.body
