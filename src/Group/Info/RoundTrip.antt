-- ===== src/Group/Info/RoundTrip.antt =====
-- The wire form of `GroupInfo` of src/pure_mls/group.py.
use pure_mls.Prelude.{ℕ, ◌≡◌, sym, ap, ◌∙◌, Bytes, [], ◌++◌, length, ok, refl, ◌⊕◌, ⊕_assoc, subst}
use pure_mls.Wire.RoundTrip.{RoundTrips, bind-RoundTrips, map-RoundTrips}
use pure_mls.Tls.Ints.{tls_u32}
use pure_mls.Tls.Ints.Digits.{pack-eq-ok, length-to_be, from_be-to_be}
use pure_mls.Tls.Opaque.{tls_opaque, tls_varint}
use pure_mls.Tls.Opaque.RoundTrip.{tls_opaque-RoundTrips}
use pure_mls.Tls.Opaque.Varint.{tls_varint-RoundTrips}
use pure_mls.Capabilities.RoundTrip.{read_fixed-RoundTrips}
use pure_mls.Epoch.{read_int}
use pure_mls.Group.Context as Context
use pure_mls.Group.Context.RoundTrip as ContextLaws
use pure_mls.Group.Info.{GroupInfo, to_bytes, read_info, from_bytes}
use pure_mls.Tls.Ints.{from_be}

u32_unchecked-RoundTrips : (v : ℕ) → RoundTrips (read_int 4) (tls_u32 v) v
unfolding read_int tls_u32
u32_unchecked-RoundTrips v = record {
  decodes = λ e h pre rest.
      let (small, digits) = pack-eq-ok 4 v e h in
      let size : length e ≡ 4 = ap length (sym digits) ∙ length-to_be 4 v in
      let back : from_be e ≡ v = ap from_be (sym digits) ∙ from_be-to_be 4 v small in
      let taken = (read_fixed-RoundTrips e).decodes e refl pre rest in rw (← size, taken, back);
}

flat :
    (g : GroupInfo)
    → to_bytes g ≡ (
        Context.to_bytes g.group_context
        ⊕ tls_varint (length g.extensions_bytes)
        ⊕ ok g.extensions_bytes
        ⊕ tls_opaque g.confirmation_tag
        ⊕ tls_u32 g.signer
        ⊕ tls_opaque g.signature)
unfolding to_bytes
flat g =
    let ctx = Context.to_bytes g.group_context in
    let size = tls_varint (length g.extensions_bytes) in
    let ext = ok g.extensions_bytes in
    let tag = tls_opaque g.confirmation_tag in
    let signer = tls_u32 g.signer in
    let sig = tls_opaque g.signature in
    ⊕_assoc ctx ((size ⊕ ext) ⊕ (tag ⊕ signer)) sig
    ∙ ap (λ m. ctx ⊕ m)
        (⊕_assoc (size ⊕ ext) (tag ⊕ signer) sig
          ∙ ⊕_assoc size ext ((tag ⊕ signer) ⊕ sig)
          ∙ ap (λ m. size ⊕ (ext ⊕ m)) (⊕_assoc tag signer sig))

pub to_bytes-RoundTrips : (g : GroupInfo) → RoundTrips read_info (to_bytes g) g
unfolding read_info
to_bytes-RoundTrips g =
    subst (λ m. RoundTrips read_info m g) (sym (flat g))
      (bind-RoundTrips _ (ContextLaws.to_bytes-RoundTrips g.group_context) (
        bind-RoundTrips _ (tls_varint-RoundTrips (length g.extensions_bytes)) (
          bind-RoundTrips _ (read_fixed-RoundTrips g.extensions_bytes) (
            bind-RoundTrips _ (tls_opaque-RoundTrips g.confirmation_tag) (
              bind-RoundTrips _ (u32_unchecked-RoundTrips g.signer)
                (map-RoundTrips _ (tls_opaque-RoundTrips g.signature)))))))

pub from_bytes-to_bytes_info :
    (g : GroupInfo) (e rest : Bytes) → to_bytes g ≡ ok e → from_bytes (e ++ rest) ≡ ok g
unfolding from_bytes
from_bytes-to_bytes_info g e rest h = rw ((to_bytes-RoundTrips g).decodes e h [] rest)
