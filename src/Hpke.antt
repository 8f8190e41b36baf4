-- ===== src/Hpke.antt =====
-- src/pure_mls/hpke.py: hybrid public key encryption in base mode. The ephemeral key of `seal` is an
-- argument, since the source draws it at random.
use pure_mls.Prelude.{ℕ, Bytes, List, [], ◌∷◌, ◌++◌, Option, some, bit_xor, Result, ok, bind, ◌⊕◌}
use pure_mls.Primitives.{Primitives, ascii}
use pure_mls.Ciphers.{Ciphers}
use pure_mls.Tls.Ints.{int_to_bytes}
use pure_mls.Hkdf.{hkdf_extract, hkdf_expand}
use pure_mls.Keys.{KemKey, dh_exchange}
use Prim.Native.String.{String}
pub mod Nonce
pub mod Opening

abbrev pub suite_id : Bytes
suite_id = ascii "HPKE" ++ (0x00 ∷ 0x20 ∷ 0x00 ∷ 0x01 ∷ 0x00 ∷ 0x01 ∷ [])

abbrev pub kem_suite_id : Bytes
kem_suite_id = ascii "KEM" ++ (0x00 ∷ 0x20 ∷ [])

unfoldable pub kem_extract : Primitives → Option Bytes → String → Bytes → Bytes
unfolding hkdf_extract
kem_extract p salt label ikm =
    hkdf_extract p salt (ascii "HPKE-v1" ++ kem_suite_id ++ ascii label ++ ikm)

unfoldable pub kem_expand : Primitives → Bytes → String → Bytes → ℕ → Result Bytes
unfolding hkdf_expand
kem_expand p prk label info size =
    bind (int_to_bytes 2 size ⊕ ok (ascii "HPKE-v1" ++ kem_suite_id ++ ascii label ++ info))
      (λ labeled_info. hkdf_expand p prk labeled_info size)

unfoldable pub labeled_extract : Primitives → Option Bytes → String → Bytes → Bytes
unfolding hkdf_extract
labeled_extract p salt label ikm =
    hkdf_extract p salt (ascii "HPKE-v1" ++ suite_id ++ ascii label ++ ikm)

unfoldable pub labeled_expand : Primitives → Bytes → String → Bytes → ℕ → Result Bytes
unfolding hkdf_expand
labeled_expand p prk label info size =
    bind (int_to_bytes 2 size ⊕ ok (ascii "HPKE-v1" ++ suite_id ++ ascii label ++ info))
      (λ labeled_info. hkdf_expand p prk labeled_info size)

-- `bytes(a ^ b for a, b in zip(xs, ys))`
unfoldable pub xor_bytes : Bytes → Bytes → Bytes
xor_bytes [] ys = []
xor_bytes (x ∷ xs) [] = []
xor_bytes (x ∷ xs) (y ∷ ys) = bit_xor x y ∷ xor_bytes xs ys

unfoldable pub xor_nonce : Bytes → ℕ → Result Bytes
unfolding xor_bytes
xor_nonce base_nonce seq = bind (int_to_bytes 12 seq) (λ s. ok (xor_bytes base_nonce s))

-- Both phases, from the exchanged secret to the key and the nonce, which `seal` and `hpke_open` share.
unfoldable pub key_and_nonce : Primitives → Bytes → Bytes → ℕ → Bytes → Result (Bytes × Bytes)
unfolding kem_extract kem_expand labeled_extract labeled_expand xor_nonce
key_and_nonce p dh kem_context seq info =
    let prk_kem = kem_extract p (some []) "eae_prk" dh in
    bind (kem_expand p prk_kem "shared_secret" kem_context 32) (λ shared_secret.
      let psk_id_hash = labeled_extract p (some []) "psk_id_hash" [] in
      let info_hash = labeled_extract p (some []) "info_hash" info in
      let ks_context = (0x00 ∷ []) ++ psk_id_hash ++ info_hash in
      let prk_key = labeled_extract p (some shared_secret) "secret" [] in
      bind (labeled_expand p prk_key "key" ks_context 16) (λ key.
        bind (labeled_expand p prk_key "base_nonce" ks_context 12)
          (λ base_nonce. bind (xor_nonce base_nonce seq) (λ nonce. ok (key, nonce)))))

-- The encapsulated key and the ciphertext.
unfoldable pub seal :
    Primitives → Ciphers → KemKey → Bytes → Bytes → Bytes → ℕ → Bytes → Result (Bytes × Bytes)
unfolding key_and_nonce dh_exchange
seal p c ephemeral receiver_pub plaintext aad seq info =
    bind (dh_exchange c ephemeral receiver_pub) (λ dh.
      bind (key_and_nonce p dh (ephemeral.public_bytes ++ receiver_pub) seq info) (λ k.
        bind (c.aes_gcm_encrypt k.0 k.1 plaintext aad)
          (λ ciphertext. ok (ephemeral.public_bytes, ciphertext))))

unfoldable pub hpke_open :
    Primitives → Ciphers → KemKey → Bytes → Bytes → Bytes → ℕ → Bytes → Result Bytes
unfolding key_and_nonce dh_exchange
hpke_open p c receiver enc ciphertext aad seq info = bind (dh_exchange c receiver enc) (λ dh.
    bind (key_and_nonce p dh (enc ++ receiver.public_bytes) seq info)
      (λ k. c.aes_gcm_decrypt k.0 k.1 ciphertext aad))
