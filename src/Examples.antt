-- ===== src/Examples.antt =====
-- The theorems at concrete inputs. The primitives are instantiated by simple functions of the right shape.
use pure_mls.Prelude.{
  ℕ, ◌+◌, ◌*◌, ◌-◌, ◌^◌, ◌/◌, ◌≤◌, ◌<◌, ◌≡◌, ◌≢◌, ◌⊎◌, refl, arith, Bytes, List, [], ◌∷◌, ◌++◌,
  length, replicate, slice, Option, none, some, Result, ok, err, bind, out_of_fuel, value_error,
  join,
}
use pure_mls.Primitives.{Primitives}
use pure_mls.Tls.Opaque.{tls_opaque, read_opaque, tls_varint, varint_decode}
use pure_mls.Tls.Opaque.RoundTrip.{read_opaque-tls_opaque}
use pure_mls.Tls.Opaque.Bounds.{read_opaque_within}
use pure_mls.Tls.Ints.{tls_u16, pack, to_be}
use pure_mls.Tls.Extension.{tls_extensions, tls_extension, read_extensions}
use pure_mls.Tls.Extension.RoundTrip.{read_extensions-tls_extensions, read_extensions-ends}
use pure_mls.Hkdf.{hkdf_expand}
use pure_mls.Hkdf.Expand.{HasDigestSize, hkdf_expand-length}
pub mod Trees
pub mod Secrets
pub mod Groups
pub mod Messages

-- A hash that is far from secure, with the sizes of the real one.
abbrev pub toy : Primitives
toy = record {
  sha256 = λ raw. replicate 32 (length raw);
  hmac_sha256 = λ key message. replicate 32 (length key + length message);
  ed25519_load = λ key. ok tt;
  ed25519_check = λ key signature message. ok tt;
}

pub toy-HasDigestSize : HasDigestSize toy
toy-HasDigestSize = record { digest = λ key message. refl }

abbrev pub some_bytes : Bytes
some_bytes = 1 ∷ 2 ∷ 3 ∷ []

read_opaque-tls_opaque_example :
    (e : Bytes) × ((tls_opaque some_bytes ≡ ok e)
      × (read_opaque ((9 ∷ []) ++ (e ++ (7 ∷ []))) 1 ≡ ok (some_bytes, 1 + length e)))
read_opaque-tls_opaque_example = read_opaque-tls_opaque some_bytes (9 ∷ []) (7 ∷ []) (omega arith)

abbrev five_six : Bytes
five_six = 5 ∷ 6 ∷ []

read_opaque_within_example :
    (mid : ℕ) × (varint_decode (0 ∷ 2 ∷ 5 ∷ 6 ∷ 7 ∷ []) 1 ≡ ok (2, mid))
    × (1 < mid)
    × (five_six ≡ slice (0 ∷ 2 ∷ 5 ∷ 6 ∷ 7 ∷ []) mid (mid + 2))
    × (4 ≡ mid + 2)
    × (4 ≤ 5)
unfolding read_opaque
read_opaque_within_example = read_opaque_within (0 ∷ 2 ∷ 5 ∷ 6 ∷ 7 ∷ []) 1 five_six 4 refl

abbrev two_extensions : List (ℕ × Bytes)
two_extensions = (10, 1 ∷ 2 ∷ []) ∷ (0xFF01, []) ∷ []

abbrev two_extensions_bytes : Bytes
two_extensions_bytes = 8 ∷ 0 ∷ 10 ∷ 2 ∷ 1 ∷ 2 ∷ 0xFF ∷ 1 ∷ 0 ∷ []

two_extensions_written : tls_extensions two_extensions ≡ ok two_extensions_bytes
unfolding tls_extensions tls_extension tls_opaque tls_varint tls_u16 pack to_be join
two_extensions_written = refl

read_extensions-tls_extensions_example :
    read_extensions two_extensions_bytes 0 ≡ ok (two_extensions, 9)
read_extensions-tls_extensions_example =
    read_extensions-tls_extensions two_extensions two_extensions_bytes [] [] two_extensions_written

read_extensions-ends_example : read_extensions (4 ∷ 0 ∷ 10 ∷ []) 0 ≢ err out_of_fuel
read_extensions-ends_example = read_extensions-ends (4 ∷ 0 ∷ 10 ∷ []) 0

hkdf_expand-length_example :
    (okm : Bytes) × ((hkdf_expand toy some_bytes some_bytes 42 ≡ ok okm) × (length okm ≡ 42))
hkdf_expand-length_example =
    hkdf_expand-length toy some_bytes some_bytes 42 toy-HasDigestSize (omega arith)
