-- ===== src/Primitives.antt =====
-- What the library takes from `hashlib`, `hmac` and the `cryptography` package, as a parameter.
-- Byte strings that the code writes as text literals are given here too.
use pure_mls.Prelude.{Bytes, [], ◌∷◌, Result}
use Prim.Native.Char.{code}
use Prim.Native.String.{String}

-- The bytes of an ASCII text.
abbrev pub ascii : String → Bytes
ascii String.[] = []
ascii (String.◌∷◌ c s) = code c ∷ ascii s

pub record Primitives : Type 0 where
  -- `hashlib.sha256(data).digest()`
  pub sha256 : Bytes → Bytes
  -- `hmac.new(key, message, "sha256").digest()`
  pub hmac_sha256 : Bytes → Bytes → Bytes
  -- `Ed25519PublicKey.from_public_bytes(key)`, which raises `ValueError`
  pub ed25519_load : Bytes → Result (Unit {0})
  -- `pub.verify(signature, message)`, which raises `InvalidSignature`
  pub ed25519_check : Bytes → Bytes → Bytes → Result (Unit {0})
