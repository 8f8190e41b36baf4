-- ===== src/Hpke/Opening.antt =====
-- `seal` and `open` of src/pure_mls/hpke.py together, and the sizes of the key and the nonce.
use pure_mls.Prelude.{
  ℕ, ◌*◌, ◌^◌, ◌<◌, ◌≤◌, ◌≡◌, refl, sym, ap, ◌∙◌, arith, Bytes, length, ok, ok-injective,
  bind-eq-ok, ◌++◌, lt→ltb, some, [], ◌∷◌,
}
use pure_mls.Primitives.{Primitives, ascii}
use pure_mls.Ciphers.{Ciphers, Agrees, Decrypts}
use pure_mls.Hkdf.Expand.{HasDigestSize, hkdf_expand-length}
use pure_mls.Tls.Ints.{int_to_bytes, to_be}
use pure_mls.Tls.Ints.Digits.{length-to_be}
use Prim.Native.String.{String}
use pure_mls.Keys.{new_kem_key, dh_exchange}
use pure_mls.Hpke.{
  seal, hpke_open, key_and_nonce, kem_expand, kem_extract, labeled_extract, labeled_expand,
  xor_nonce, xor_bytes, suite_id, kem_suite_id,
}

-- If the two keys agree and AES-GCM decrypts what it encrypted, then what was sealed with an ephemeral
-- key to a receiver's public key is opened with the receiver's private key, given the same associated
-- data, sequence number and info.
pub hpke_open-seal :
    (p : Primitives) (c : Ciphers) (ephemeral receiver plaintext aad : Bytes) (seq : ℕ)
    (info enc ciphertext : Bytes)
    → Agrees c ephemeral receiver
    → Decrypts c
    → seal p c (new_kem_key c ephemeral) (c.x25519_public receiver) plaintext aad seq info
      ≡ ok (enc, ciphertext)
    → hpke_open p c (new_kem_key c receiver) enc ciphertext aad seq info ≡ ok plaintext
unfolding seal hpke_open new_kem_key dh_exchange
hpke_open-seal p c ephemeral receiver plaintext aad seq info enc ciphertext agree dec h =
    let (dh, hd, h1) = bind-eq-ok (c.x25519_exchange ephemeral (c.x25519_public receiver)) _ h in
    let (k, hk, h2) =
      bind-eq-ok
        (key_and_nonce p dh (c.x25519_public ephemeral ++ c.x25519_public receiver) seq info) _
        h1 in
    let (text, ht, h3) = bind-eq-ok (c.aes_gcm_encrypt k.0 k.1 plaintext aad) _ h2 in
    let same_enc : c.x25519_public ephemeral ≡ enc = ap (λ t. t.0) (ok-injective h3) in
    let same_text : text ≡ ciphertext = ap (λ t. t.1) (ok-injective h3) in
    rw (← same_enc, ← same_text, ← agree.agreed, hd, hk, dec.decrypts k.0 k.1 plaintext aad text ht)

kem_expand-length :
    (p : Primitives) (prk : Bytes) (label : String) (info : Bytes) (size : ℕ)
    → HasDigestSize p
    → size ≤ 255 * 32
    → (okm : Bytes) × ((kem_expand p prk label info size ≡ ok okm) × (length okm ≡ size))
unfolding kem_expand int_to_bytes
kem_expand-length p prk label info size s h =
    let labeled = to_be 2 size ++ (ascii "HPKE-v1" ++ kem_suite_id ++ ascii label ++ info) in
    let (okm, (he, hl)) = hkdf_expand-length p prk labeled size s h in
    (okm, (rw (lt→ltb size (256 ^ 2) (omega arith)) he, hl))

labeled_expand-length :
    (p : Primitives) (prk : Bytes) (label : String) (info : Bytes) (size : ℕ)
    → HasDigestSize p
    → size ≤ 255 * 32
    → (okm : Bytes) × ((labeled_expand p prk label info size ≡ ok okm) × (length okm ≡ size))
unfolding labeled_expand int_to_bytes
labeled_expand-length p prk label info size s h =
    let labeled = to_be 2 size ++ (ascii "HPKE-v1" ++ suite_id ++ ascii label ++ info) in
    let (okm, (he, hl)) = hkdf_expand-length p prk labeled size s h in
    (okm, (rw (lt→ltb size (256 ^ 2) (omega arith)) he, hl))

int_to_bytes-returns : (n v : ℕ) → v < 256 ^ n → int_to_bytes n v ≡ ok (to_be n v)
unfolding int_to_bytes
int_to_bytes-returns n v h = rw (lt→ltb v (256 ^ n) h)

xor_bytes-length : (xs ys : Bytes) → length xs ≡ length ys → length (xor_bytes xs ys) ≡ length xs
unfolding xor_bytes
xor_bytes-length [] ys h = refl
xor_bytes-length (x ∷ xs) [] h = omega (arith, h)
xor_bytes-length (x ∷ xs) (y ∷ ys) h = omega (arith, h, xor_bytes-length xs ys (omega (arith, h)))

-- If HMAC gives 32 bytes, the derivation returns for every exchanged secret, context and info and every
-- sequence number of at most 12 bytes, and gives a key of 16 bytes and a nonce of 12, the sizes of
-- AES-128-GCM.
pub key_and_nonce-length :
    (p : Primitives) (dh kem_context : Bytes) (seq : ℕ) (info : Bytes)
    → HasDigestSize p
    → seq < 256 ^ 12
    → (key : Bytes) × ((nonce : Bytes) × ((key_and_nonce p dh kem_context seq info
            ≡ ok (key, nonce))
          × (length key ≡ 16)
          × (length nonce ≡ 12)))
unfolding key_and_nonce xor_nonce
key_and_nonce-length p dh kem_context seq info s h =
    let (ss, (hs, ls)) =
      kem_expand-length p (kem_extract p (some []) "eae_prk" dh) "shared_secret" kem_context 32 s
        (omega arith) in
    let context =
      (0x00 ∷ [])
      ++ labeled_extract p (some []) "psk_id_hash" []
      ++ labeled_extract p (some []) "info_hash" info in
    let prk = labeled_extract p (some ss) "secret" [] in
    let (key, (hk, lk)) = labeled_expand-length p prk "key" context 16 s (omega arith) in
    let (base, (hb, lb)) = labeled_expand-length p prk "base_nonce" context 12 s (omega arith) in
    (
      key,
      (
        xor_bytes base (to_be 12 seq),
        (
          rw (hs, hk, hb, int_to_bytes-returns 12 seq h),
          lk,
          xor_bytes-length base (to_be 12 seq) (lb ∙ sym (length-to_be 12 seq)) ∙ lb,
        ),
      ),
    )
