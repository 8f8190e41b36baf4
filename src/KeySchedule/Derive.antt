-- ===== src/KeySchedule/Derive.antt =====
-- The derivations of src/pure_mls/keyschedule.py: their sizes, and the confirmation key by its two ways.
use pure_mls.Prelude.{
  ℕ, ◌*◌, ◌≡◌, ◌≤◌, refl, sym, ap, ◌∙◌, arith, Bytes, [], length, ok, bind, bind-eq-ok,
  ok-injective, List, Result-cases, inl, inr, subst, some,
}
use pure_mls.Primitives.{Primitives}
use pure_mls.Hkdf.{
  derive_secret, expand_with_label, hkdf_label, varint_encode, hkdf_expand, hkdf_extract,
  expand_rounds,
}
use pure_mls.Tls.Ints.{int_to_bytes}
use pure_mls.Hkdf.Expand.{HasDigestSize, hkdf_expand-length}
use pure_mls.KeySchedule.{
  KeySchedule, PreSharedKeyId, derive, derive_epoch_secret, from_epoch_secret,
  derive_confirmation_key, psk_secret,
}
use pure_mls.KeySchedule.RoundTrip.{HasSizes}
use Prim.Native.String.{String}

expand_with_label-length :
    (p : Primitives) (secret : Bytes) (label : String) (context : Bytes) (size : ℕ) (out : Bytes)
    → HasDigestSize p
    → size ≤ 255 * 32
    → expand_with_label p secret label context size ≡ ok out
    → length out ≡ size
unfolding expand_with_label
expand_with_label-length p secret label context size out s le h =
    let (info, hi, ho) = bind-eq-ok (hkdf_label label context size) _ h in
    let (okm, (he, hl)) = hkdf_expand-length p secret info size s le in
    ap length (ok-injective (sym ho ∙ he)) ∙ hl

derive_secret-length :
    (p : Primitives) (secret : Bytes) (label : String) (out : Bytes)
    → HasDigestSize p
    → derive_secret p secret label ≡ ok out
    → length out ≡ 32
unfolding derive_secret
derive_secret-length p secret label out s h =
    expand_with_label-length p secret label [] 32 out s (omega arith) h

-- Each of the nine secrets of an epoch is there, whatever the epoch secret is.
from_epoch_secret-returns :
    (p : Primitives) (epoch joiner : Bytes)
    → (k : KeySchedule) × ((from_epoch_secret p epoch joiner ≡ ok k)
        × (derive_secret p epoch "confirm" ≡ ok k.confirmation_key))
unfolding from_epoch_secret derive_secret expand_with_label hkdf_label hkdf_expand expand_rounds
    varint_encode int_to_bytes
from_epoch_secret-returns p epoch joiner = (_, (refl, refl))

-- The key that confirms a commit is the one of the schedule that the members then derive; the
-- two derivations fail together.
pub derive_confirmation_key-derive :
    (p : Primitives) (init commit context : Bytes) (psks : List (PreSharedKeyId × Bytes))
    → derive_confirmation_key p init commit context psks
      ≡ bind (derive p init commit context psks) (λ k. ok k.confirmation_key)
unfolding derive_confirmation_key derive
derive_confirmation_key-derive p init commit context psks =
    elim (Result-cases (derive_epoch_secret p init commit context psks)) [
      | inl ((epoch, joiner), h) ↦
          let (k, (hk, hc)) = from_epoch_secret-returns p epoch joiner in rw (h, hk, hc)
      | inr (e, h) ↦ rw h
    ]

from_epoch_secret-HasSizes :
    (p : Primitives) (epoch joiner : Bytes) (k : KeySchedule)
    → HasDigestSize p
    → length epoch ≡ 32
    → length joiner ≡ 32
    → from_epoch_secret p epoch joiner ≡ ok k
    → HasSizes k
unfolding from_epoch_secret
from_epoch_secret-HasSizes p epoch joiner k s he hj h =
    let (_, h0, h) = bind-eq-ok (derive_secret p epoch "sender data") _ h in
    let (_, h1, h) = bind-eq-ok (derive_secret p epoch "encryption") _ h in
    let (_, h2, h) = bind-eq-ok (derive_secret p epoch "exporter") _ h in
    let (_, h3, h) = bind-eq-ok (derive_secret p epoch "authentication") _ h in
    let (_, h4, h) = bind-eq-ok (derive_secret p epoch "external") _ h in
    let (_, h5, h) = bind-eq-ok (derive_secret p epoch "resumption") _ h in
    let (_, h6, h) = bind-eq-ok (derive_secret p epoch "confirm") _ h in
    let (_, h7, h) = bind-eq-ok (derive_secret p epoch "membership") _ h in
    let (_, h8, h) = bind-eq-ok (derive_secret p epoch "init") _ h in
    subst HasSizes (ok-injective h) (
      hj,
      (
        he,
        (
          derive_secret-length p epoch "sender data" _ s h0,
          (
            derive_secret-length p epoch "encryption" _ s h1,
            (
              derive_secret-length p epoch "exporter" _ s h2,
              (
                derive_secret-length p epoch "authentication" _ s h3,
                (
                  derive_secret-length p epoch "external" _ s h4,
                  (
                    derive_secret-length p epoch "resumption" _ s h5,
                    (
                      derive_secret-length p epoch "confirm" _ s h6,
                      (
                        derive_secret-length p epoch "membership" _ s h7,
                        (derive_secret-length p epoch "init" _ s h8, tt),
                      ),
                    ),
                  ),
                ),
              ),
            ),
          ),
        ),
      ),
    )

-- If HMAC gives 32 bytes, every secret of a schedule that the derivation returns has 32 bytes.
pub derive-HasSizes :
    (p : Primitives) (init commit context : Bytes) (psks : List (PreSharedKeyId × Bytes))
    (k : KeySchedule)
    → HasDigestSize p
    → derive p init commit context psks ≡ ok k
    → HasSizes k
unfolding derive derive_epoch_secret
derive-HasSizes p init commit context psks k s h =
    let ((epoch, joiner), hs, hk) =
      bind-eq-ok (derive_epoch_secret p init commit context psks) _ h in
    let (j, hj, h') =
      bind-eq-ok (expand_with_label p (hkdf_extract p (some init) commit) "joiner" context 32) _
        hs in
    let (psk, _, h'') = bind-eq-ok (psk_secret p psks) _ h' in
    let (e, he, hr) =
      bind-eq-ok (expand_with_label p (hkdf_extract p (some j) psk) "epoch" context 32) _ h'' in
    let both = ok-injective hr in
    from_epoch_secret-HasSizes p epoch joiner k s
      (ap length (sym (ap (λ q. q.0) both))
        ∙ expand_with_label-length p _ "epoch" context 32 e s (omega arith) he)
      (ap length (sym (ap (λ q. q.1) both))
        ∙ expand_with_label-length p _ "joiner" context 32 j s (omega arith) hj)
      hk
