-- ===== src/Keys.antt =====
-- src/pure_mls/keys.py: signature keys and key encapsulation keys. A fresh key is an argument.
use pure_mls.Prelude.{
  ℕ, Bool, true, false, Bytes, [], ◌∷◌, ◌++◌, length, take, some, ◌==◌, not, if◌then◌else◌, Result,
  ok, err, bind, ◌⊕◌, Error, value_error, invalid_signature,
}
use pure_mls.Primitives.{Primitives, ascii}
use pure_mls.Ciphers.{Ciphers}
use pure_mls.Tls.Ints.{int_to_bytes}
use pure_mls.Hkdf.{hkdf_extract, hkdf_expand}
pub mod Loading

-- `_KEM_SUITE_ID`: "KEM" and the number of the key encapsulation.
abbrev pub kem_suite_id : Bytes
kem_suite_id = ascii "KEM" ++ (0x00 ∷ 0x20 ∷ [])

pub record SignatureKey : Type 0 where
  pub private_bytes : Bytes
  pub public_bytes : Bytes

unfoldable pub new_signature_key : Ciphers → Bytes → SignatureKey
new_signature_key c key = record { private_bytes = key; public_bytes = c.ed25519_public key }

unfoldable pub sign : Ciphers → SignatureKey → Bytes → Bytes
sign c key message = c.ed25519_sign key.private_bytes message

-- A 64-byte key is a seed and the public key behind it.
abbrev pub seed : Bytes → Bytes
seed raw = if length raw == 64 then take 32 raw else raw

unfoldable pub signature_key_from_private_bytes : Ciphers → Bytes → Result SignatureKey
unfolding new_signature_key
signature_key_from_private_bytes c raw =
    let raw' = seed raw in
    if not (length raw' == 32) then err value_error else ok (new_signature_key c raw')

-- `except (InvalidSignature, ValueError): return False`
abbrev pub accepted : Result (Unit {0}) → Result Bool
accepted (ok u) = ok true
accepted (err invalid_signature) = ok false
accepted (err value_error) = ok false
accepted (err e) = err e

unfoldable pub verify : Primitives → Bytes → Bytes → Bytes → Result Bool
verify p public signature message =
    accepted (bind (p.ed25519_load public) (λ _. p.ed25519_check public signature message))

pub record KemKey : Type 0 where
  pub private_bytes : Bytes
  pub public_bytes : Bytes

unfoldable pub new_kem_key : Ciphers → Bytes → KemKey
new_kem_key c key = record { private_bytes = key; public_bytes = c.x25519_public key }

unfoldable pub kem_key_from_private_bytes : Ciphers → Bytes → Result KemKey
unfolding new_kem_key
kem_key_from_private_bytes c raw =
    if not (length raw == 32) then err value_error else ok (new_kem_key c raw)

-- `DeriveKeyPair` of RFC 9180.
unfoldable pub from_secret : Primitives → Ciphers → Bytes → Result KemKey
unfolding hkdf_extract hkdf_expand kem_key_from_private_bytes
from_secret p c secret =
    let labeled_ikm = ascii "HPKE-v1" ++ kem_suite_id ++ ascii "dkp_prk" ++ secret in
    let dkp_prk = hkdf_extract p (some []) labeled_ikm in
    bind (int_to_bytes 2 32 ⊕ ok (ascii "HPKE-v1" ++ kem_suite_id ++ ascii "sk")) (λ labeled_info.
      bind (hkdf_expand p dkp_prk labeled_info 32) (λ sk. kem_key_from_private_bytes c sk))

-- `except ValueError as e: raise ValueError(...) from e`
unfoldable pub dh_exchange : Ciphers → KemKey → Bytes → Result Bytes
dh_exchange c key peer_public = c.x25519_exchange key.private_bytes peer_public
