-- ===== src/Capabilities.antt =====
-- src/pure_mls/extensions.py: `Capabilities` and the extension bodies.
use pure_mls.Prelude.{
  ℕ, Bytes, List, [], ◌∷◌, length, Result, ok, err, bind, ◌⊕◌, join, not, ◌==◌, value_error,
}
use pure_mls.Wire.Reader.{Reader, ◌>>=◌, ◌>>◌, pure, lift, require, read_whole}
use pure_mls.Tls.Ints.{tls_u8, tls_u16, read_u8, from_be}
use pure_mls.Tls.Opaque.{tls_varint, varint_decode, read_fixed, tls_opaque, read_opaque}
use pure_mls.Tls.Extension.{Extension, tls_extensions, read_extensions}
pub mod RoundTrip

pub record Capabilities : Type 0 where
  pub versions : List ℕ
  pub ciphersuites : List ℕ
  pub extensions : List ℕ
  pub proposals : List ℕ
  pub credentials : List ℕ

abbrev pub default : Capabilities
default = record {
  versions = 1 ∷ [];
  ciphersuites = 0x0001 ∷ [];
  extensions = 1 ∷ 2 ∷ 4 ∷ [];
  proposals = 1 ∷ 2 ∷ 3 ∷ [];
  credentials = 1 ∷ [];
}

-- `tls_vec_varint`, local to `marshal`.
unfoldable pub tls_vec_varint : List ℕ → Result Bytes
tls_vec_varint vals = bind (join tls_u16 vals) (λ body. tls_varint (length body) ⊕ ok body)

unfoldable pub marshal : Capabilities → Result Bytes
marshal c =
    tls_vec_varint c.versions
    ⊕ tls_vec_varint c.ciphersuites
    ⊕ tls_vec_varint c.extensions
    ⊕ tls_vec_varint c.proposals
    ⊕ tls_vec_varint c.credentials

-- `[int.from_bytes(raw[i:i+2], "big") for i in range(0, len(raw), 2)]`
unfoldable pub u16_items : Bytes → List ℕ
unfolding from_be
u16_items [] = []
u16_items (a ∷ []) = from_be (a ∷ []) ∷ []
u16_items (a ∷ b ∷ rest) = from_be (a ∷ b ∷ []) ∷ u16_items rest

-- `read_varint_vec`, local to `from_bytes_at`: the slice is not checked against the buffer.
unfoldable pub read_varint_vec : Reader (List ℕ)
unfolding ◌>>=◌ pure
read_varint_vec = varint_decode >>= λ n. (read_fixed n >>= λ raw. pure (u16_items raw))

unfoldable pub from_bytes_at : Reader Capabilities
unfolding ◌>>=◌ pure
from_bytes_at = do
  versions' ← read_varint_vec
  ciphersuites' ← read_varint_vec
  extensions' ← read_varint_vec
  proposals' ← read_varint_vec
  credentials' ← read_varint_vec
  pure (record {
    versions = versions';
    ciphersuites = ciphersuites';
    extensions = extensions';
    proposals = proposals';
    credentials = credentials';
  })

unfoldable pub unmarshal : Bytes → Result Capabilities
unmarshal = read_whole from_bytes_at

pub record ExternalPskExtension : Type 0 where
  pub psk_id : Bytes
  pub psk_nonce : Bytes

unfoldable pub marshal_psk : ExternalPskExtension → Result Bytes
marshal_psk x = tls_u8 1 ⊕ tls_opaque x.psk_id ⊕ tls_opaque x.psk_nonce

unfoldable pub read_psk : Reader ExternalPskExtension
unfolding ◌>>=◌ ◌>>◌ pure require
read_psk = do
  psk_type ← read_u8
  require (psk_type == 1) value_error
  psk_id' ← read_opaque
  psk_nonce' ← read_opaque
  pure (record { psk_id = psk_id'; psk_nonce = psk_nonce' })

unfoldable pub unmarshal_psk : Bytes → Result ExternalPskExtension
unmarshal_psk = read_whole read_psk

pub record GroupContextExtensions : Type 0 where
  pub extensions : List Extension

unfoldable pub marshal_group_context : GroupContextExtensions → Result Bytes
marshal_group_context x = tls_extensions x.extensions

unfoldable pub unmarshal_group_context : Bytes → Result GroupContextExtensions
unmarshal_group_context data' =
    bind (read_whole read_extensions data') (λ exts. ok (record { extensions = exts }))
