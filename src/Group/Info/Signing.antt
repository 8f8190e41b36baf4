-- ===== src/Group/Info/Signing.antt =====
-- `build_and_sign` and `verify` of `GroupInfo` of src/pure_mls/group.py together.
use pure_mls.Prelude.{ℕ, ◌≡◌, Bytes, List, [], ◌++◌, ok, ok-injective, bind-eq-ok, join, true}
use pure_mls.Primitives.{Primitives}
use pure_mls.Ciphers.{Ciphers}
use pure_mls.Tls.Extension.{Extension, tls_extension}
use pure_mls.Keys as Keys
use pure_mls.Keys.{SignatureKey}
use pure_mls.Node.Leaf.Signing.{Signs}
use pure_mls.Group.Context.{GroupContext}
use pure_mls.Group.Info.{
  GroupInfo, tbs_bytes, signed_payload, build_and_sign, verify, to_bytes, from_bytes,
}
use pure_mls.Group.Info.RoundTrip.{from_bytes-to_bytes_info}

verify-signed :
    (p : Primitives) (key : Bytes) (sign_fn : Bytes → Bytes) (message : Bytes)
    → Signs p key sign_fn
    → Keys.verify p key (sign_fn message) message ≡ ok true
unfolding Keys.verify
verify-signed p key sign_fn message s = rw (s.loads, s.accepts message)

-- If the signer's public key accepts what its private key signs, then a group info that was built and signed and
-- that can be written is read as it was built, whatever stands behind it, and verifies under that public key.
pub verify-build_and_sign :
    (p : Primitives) (c : Ciphers) (context : GroupContext) (tag : Bytes) (signer : ℕ)
    (key : SignatureKey) (extensions : List Extension) (info : GroupInfo) (e rest : Bytes)
    → Signs p key.public_bytes (Keys.sign c key)
    → build_and_sign c context tag signer key extensions ≡ ok info
    → to_bytes info ≡ ok e
    → (from_bytes (e ++ rest) ≡ ok info) × (verify p info key.public_bytes ≡ ok tt)
unfolding build_and_sign verify signed_payload tbs_bytes
verify-build_and_sign p c context tag signer key extensions info e rest s h he =
    let (ext, hx, h1) = bind-eq-ok (join tls_extension extensions) _ h in
    let g : GroupInfo = record {
      group_context = context;
      extensions_bytes = ext;
      confirmation_tag = tag;
      signer = signer;
      signature = [];
    } in
    let (payload, hp, h2) = bind-eq-ok (signed_payload g) _ h1 in
    let same = ok-injective h2 in
    (
      from_bytes-to_bytes_info info e rest he,
      rw (← same) (rw (hp, verify-signed p key.public_bytes (Keys.sign c key) payload s)),
    )
