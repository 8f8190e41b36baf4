-- ===== src/Keys/Loading.antt =====
-- Loading keys from bytes, in src/pure_mls/keys.py.
use pure_mls.Prelude.{
  ◌≡◌, refl, ◌⊎◌, inl, inr, ◌≢◌, ◌++◌, arith, Bytes, length, take, ok, err, value_error, ◌==◌,
  Bool-cases, ap, true, bind, some, [], ◌∷◌, length-take, ◌∙◌,
}
use pure_mls.Primitives.{Primitives, ascii}
use pure_mls.Ciphers.{Ciphers}
use pure_mls.Tls.Ints.{int_to_bytes, to_be}
use pure_mls.Hkdf.{hkdf_extract, hkdf_expand}
use pure_mls.Hkdf.Expand.{HasDigestSize, hkdf_expand-length}
use pure_mls.Keys.{
  new_signature_key, signature_key_from_private_bytes, new_kem_key, kem_key_from_private_bytes,
  from_secret, kem_suite_id,
}

-- A signature key is loaded from 32 bytes as they are, from 64 bytes by their first half, and a byte
-- string of any other length raises a `ValueError`.
pub signature_key_from_private_bytes-cases :
    (c : Ciphers) (raw : Bytes)
    → ((length raw ≡ 32) × (signature_key_from_private_bytes c raw ≡ ok (new_signature_key c raw)))
      ⊎ (((length raw ≡ 64)
            × (signature_key_from_private_bytes c raw ≡ ok (new_signature_key c (take 32 raw))))
          ⊎ ((length raw ≢ 32)
              × (length raw ≢ 64)
              × (signature_key_from_private_bytes c raw ≡ err value_error)))
unfolding signature_key_from_private_bytes
signature_key_from_private_bytes-cases c raw = elim (Bool-cases (length raw == 64)) [
  | inl expanded ↦
      let long : length raw ≡ 64 = ground arith in
      let half : (length (take 32 raw) == 32) ≡ true = ground (arith, long, length-take 32 raw) in
      inr (inl (long, rw (expanded, half)))
  | inr plain ↦ elim (Bool-cases (length raw == 32)) [
    | inl exact ↦ inl (ground arith, rw (plain, exact))
    | inr other ↦ inr (inr (ground arith, ground arith, rw (plain, other)))
  ]
]

-- If HMAC gives 32 bytes, a key pair is derived from any secret, and its private key has 32 bytes.
pub from_secret-derives :
    (p : Primitives) (c : Ciphers) (secret : Bytes)
    → HasDigestSize p
    → (sk : Bytes) × ((from_secret p c secret ≡ ok (new_kem_key c sk)) × (length sk ≡ 32))
unfolding from_secret kem_key_from_private_bytes int_to_bytes to_be
from_secret-derives p c secret s =
    let prk =
      hkdf_extract p (some []) (ascii "HPKE-v1" ++ kem_suite_id ++ ascii "dkp_prk" ++ secret) in
    let info = (0 ∷ 32 ∷ []) ++ (ascii "HPKE-v1" ++ kem_suite_id ++ ascii "sk") in
    let (sk, (he, hl)) = hkdf_expand-length p prk info 32 s (omega arith) in
    let exact : (length sk == 32) ≡ true = ground (arith, hl) in
    let opened : from_secret p c secret
        ≡ bind (hkdf_expand p prk info 32) (λ sk. kem_key_from_private_bytes c sk) =
      refl in
    (sk, (opened ∙ ap (λ m. bind m (λ sk. kem_key_from_private_bytes c sk)) he ∙ rw exact, hl))
