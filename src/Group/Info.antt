-- ===== src/Group/Info.antt =====
-- `GroupInfo` of src/pure_mls/group.py: what a joiner gets to know of the group, signed by the
-- committer. `_raw_data`, which nothing reads, is left out.
use pure_mls.Prelude.{
  ℕ, Bool, true, false, Bytes, List, [], length, Result, ok, err, bind, ◌⊕◌, join, value_error,
}
use pure_mls.Primitives.{Primitives, ascii}
use pure_mls.Ciphers.{Ciphers}
use pure_mls.Wire.Reader.{Reader, ◌>>=◌, pure}
use pure_mls.Tls.Ints.{tls_u32}
use pure_mls.Tls.Opaque.{tls_varint, tls_opaque, varint_decode, read_opaque, read_fixed}
use pure_mls.Tls.Extension.{Extension, tls_extension}
use pure_mls.Epoch.{read_int}
use pure_mls.Keys as Keys
use pure_mls.Keys.{SignatureKey}
use pure_mls.Group.Context as Context
use pure_mls.Group.Context.{GroupContext}
pub mod RoundTrip
pub mod Signing

pub record GroupInfo : Type 0 where
  pub group_context : GroupContext
  pub extensions_bytes : Bytes
  pub confirmation_tag : Bytes
  pub signer : ℕ
  pub signature : Bytes

-- `_tbs_bytes`
unfoldable pub tbs_bytes : GroupInfo → Result Bytes
tbs_bytes g =
    Context.to_bytes g.group_context
    ⊕ (tls_varint (length g.extensions_bytes) ⊕ ok g.extensions_bytes)
    ⊕ tls_opaque g.confirmation_tag
    ⊕ tls_u32 g.signer

unfoldable pub to_bytes : GroupInfo → Result Bytes
unfolding tbs_bytes
to_bytes g = tbs_bytes g ⊕ tls_opaque g.signature

-- The slices of the extensions and of the signer are not checked.
unfoldable pub read_info : Reader GroupInfo
unfolding ◌>>=◌ pure
read_info = do
  context ← Context.from_bytes_at
  ext_len ← varint_decode
  extensions ← read_fixed ext_len
  tag ← read_opaque
  signer' ← read_int 4
  signature' ← read_opaque
  pure (record {
    group_context = context;
    extensions_bytes = extensions;
    confirmation_tag = tag;
    signer = signer';
    signature = signature';
  })

unfoldable pub from_bytes : Bytes → Result GroupInfo
unfolding read_info
from_bytes raw = bind (read_info raw 0) (λ p. ok p.0)

-- `SignerContent`: the label and the content, which is what gets signed.
unfoldable pub signed_payload : GroupInfo → Result Bytes
unfolding tbs_bytes
signed_payload g =
    bind (tbs_bytes g) (λ tbs. tls_opaque (ascii "MLS 1.0 GroupInfoTBS") ⊕ tls_opaque tbs)

unfoldable pub build_and_sign :
    Ciphers → GroupContext → Bytes → ℕ → SignatureKey → List Extension → Result GroupInfo
build_and_sign c context tag signer' sig_key extensions =
    bind (join tls_extension extensions) (λ ext_bytes.
      let g : GroupInfo = record {
        group_context = context;
        extensions_bytes = ext_bytes;
        confirmation_tag = tag;
        signer = signer';
        signature = [];
      } in
      bind (signed_payload g)
        (λ payload. ok (record g { signature = Keys.sign c sig_key payload })))

-- `if not ...: raise ValueError`
abbrev pub verified_or_raise : Bool → Result (Unit {0})
verified_or_raise true = ok tt
verified_or_raise false = err value_error

unfoldable pub verify : Primitives → GroupInfo → Bytes → Result (Unit {0})
unfolding signed_payload
verify p g committer_key =
    bind (signed_payload g)
      (λ payload. bind (Keys.verify p committer_key g.signature payload) verified_or_raise)
