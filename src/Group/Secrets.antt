-- ===== src/Group/Secrets.antt =====
-- `GroupSecrets` and `EncryptedGroupSecrets` of src/pure_mls/group.py.
use pure_mls.Prelude.{
  ℕ, ◌+◌, Bytes, List, [], ◌∷◌, length, Option, none, some, Result, ok, bind, ◌⊕◌, join, ltb, ◌==◌,
  if◌then◌else◌,
}
use pure_mls.Wire.Reader.{Reader, ◌>>=◌, pure, read_to}
use pure_mls.Tls.Ints.{byte_at}
use pure_mls.Tls.Opaque.{tls_varint, tls_opaque, varint_decode, read_opaque}
use pure_mls.KeySchedule.{PreSharedKeyId, psk_id_bytes, read_psk_id}
pub mod RoundTrip

pub record GroupSecrets : Type 0 where
  pub joiner_secret : Bytes
  pub path_secret : Option Bytes
  pub psks : List PreSharedKeyId

-- `present`: an empty path secret counts as none.
unfoldable pub path_bytes : Option Bytes → Result Bytes
path_bytes none = ok (0x00 ∷ [])
path_bytes (some []) = ok (0x00 ∷ [])
path_bytes (some (b ∷ bs)) = ok (0x01 ∷ []) ⊕ tls_opaque (b ∷ bs)

unfoldable pub to_bytes : GroupSecrets → Result Bytes
unfolding path_bytes
to_bytes s =
    tls_opaque s.joiner_secret
    ⊕ path_bytes s.path_secret
    ⊕ bind (join psk_id_bytes s.psks) tls_opaque

unfoldable pub read_path : ℕ → Reader (Option Bytes)
unfolding ◌>>=◌ pure
read_path has_path = if has_path == 0 then pure none else (read_opaque >>= λ b. pure (some b))

-- Each round of the loop takes a byte, so the length of the vector is fuel enough.
unfoldable pub psk_vector : Reader (List PreSharedKeyId)
unfolding ◌>>=◌ read_to
psk_vector = varint_decode >>= λ n buf offset. read_to read_psk_id n (offset + n) buf offset

-- `if offset < len(data)`
unfoldable pub read_psks : Reader (List PreSharedKeyId)
unfolding psk_vector
read_psks buf offset = if ltb offset (length buf) then psk_vector buf offset else ok ([], offset)

unfoldable pub read_secrets : Reader GroupSecrets
unfolding ◌>>=◌ pure read_path read_psks
read_secrets = do
  joiner ← read_opaque
  has_path ← byte_at
  path ← read_path has_path
  psks' ← read_psks
  pure (record { joiner_secret = joiner; path_secret = path; psks = psks' })

unfoldable pub from_bytes : Bytes → Result GroupSecrets
unfolding read_secrets
from_bytes raw = bind (read_secrets raw 0) (λ p. ok p.0)

pub record EncryptedGroupSecrets : Type 0 where
  pub new_member : Bytes
  pub kem_output : Bytes
  pub ciphertext : Bytes

unfoldable pub encrypted_bytes : EncryptedGroupSecrets → Result Bytes
encrypted_bytes s = tls_opaque s.new_member ⊕ tls_opaque s.kem_output ⊕ tls_opaque s.ciphertext

unfoldable pub read_encrypted : Reader EncryptedGroupSecrets
unfolding ◌>>=◌ pure
read_encrypted = do
  new_member' ← read_opaque
  kem_output' ← read_opaque
  ciphertext' ← read_opaque
  pure (record { new_member = new_member'; kem_output = kem_output'; ciphertext = ciphertext' })
