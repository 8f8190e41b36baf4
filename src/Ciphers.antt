-- ===== src/Ciphers.antt =====
-- What the library takes from the `cryptography` package for private keys and for AES-GCM, as a
-- parameter, and what it relies on of them. A private key is its 32 raw bytes.
use pure_mls.Prelude.{◌≡◌, Bytes, Result, ok}

pub record Ciphers : Type 0 where
  -- `X25519PrivateKey.from_private_bytes(key).public_key()`, raw
  pub x25519_public : Bytes → Bytes
  -- `private.exchange(X25519PublicKey.from_public_bytes(peer))`, which raises `ValueError`
  pub x25519_exchange : Bytes → Bytes → Result Bytes
  -- `Ed25519PrivateKey.from_private_bytes(key).public_key()`, raw
  pub ed25519_public : Bytes → Bytes
  -- `private.sign(message)`
  pub ed25519_sign : Bytes → Bytes → Bytes
  -- `AESGCM(key).encrypt(nonce, plaintext, aad)`
  pub aes_gcm_encrypt : Bytes → Bytes → Bytes → Bytes → Result Bytes
  -- `AESGCM(key).decrypt(nonce, ciphertext, aad)`, which raises `InvalidTag`
  pub aes_gcm_decrypt : Bytes → Bytes → Bytes → Bytes → Result Bytes

-- Two private keys agree: each side gets the same secret from the other's public key.
pub record Agrees (c : Ciphers) (a b : Bytes) : Type 0 where
  pub agreed : c.x25519_exchange a (c.x25519_public b) ≡ c.x25519_exchange b (c.x25519_public a)

-- What was encrypted decrypts under the same key, nonce and associated data.
pub record Decrypts (c : Ciphers) : Type 0 where
  pub decrypts :
      (key nonce plaintext aad ciphertext : Bytes)
      → c.aes_gcm_encrypt key nonce plaintext aad ≡ ok ciphertext
      → c.aes_gcm_decrypt key nonce ciphertext aad ≡ ok plaintext
