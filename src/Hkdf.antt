-- ===== src/Hkdf.antt =====
-- src/pure_mls/hkdf.py, with the default hash of every call: SHA-256, whose `digest_size` is 32.
use pure_mls.Prelude.{
  ℕ, zero, suc, ◌+◌, ◌-◌, ◌*◌, ◌/◌, Bytes, [], ◌∷◌, ◌++◌, length, take, replicate, Option, none,
  some, ltb, leb, if◌then◌else◌, Result, ok, err, bind, ◌⊕◌, value_error, bit_and, bit_or,
}
use pure_mls.Primitives.{Primitives, ascii}
use pure_mls.Tls.Ints.{int_to_bytes}
use Prim.Native.String.{String}
pub mod Expand

abbrev pub digest_size : ℕ
digest_size = 32

unfoldable pub varint_encode : ℕ → Result Bytes
unfolding int_to_bytes
varint_encode n =
    if leb n 63
    then ok (n ∷ [])
    else if leb n 16383
    then int_to_bytes 2 (bit_and (bit_or n 0x4000) 0xFFFF)
    else if leb n 0x3FFFFFFF
    then int_to_bytes 4 (bit_and (bit_or n 0x80000000) 0xFFFFFFFF)
    else err value_error

unfoldable pub hkdf_extract : Primitives → Option Bytes → Bytes → Bytes
hkdf_extract p none ikm = p.hmac_sha256 (replicate digest_size 0) ikm
hkdf_extract p (some salt) ikm = p.hmac_sha256 salt ikm

-- The rounds `i`, `i + 1`, … of `hkdf_expand`, `rounds` of them; `bytes([i])` raises above 255.
unfoldable pub expand_rounds : Primitives → Bytes → Bytes → ℕ → ℕ → Bytes → Result Bytes
expand_rounds p prk info zero i t = ok []
expand_rounds p prk info (suc rounds) i t =
    if ltb i 256
    then (let t' = p.hmac_sha256 prk (t ++ info ++ (i ∷ [])) in
        bind (expand_rounds p prk info rounds (i + 1) t') (λ okm. ok (t' ++ okm)))
    else err value_error

unfoldable pub hkdf_expand : Primitives → Bytes → Bytes → ℕ → Result Bytes
unfolding expand_rounds
hkdf_expand p prk info size =
    bind (expand_rounds p prk info ((size + digest_size - 1) / digest_size) 1 [])
      (λ okm. ok (take size okm))

-- `HkdfLabel`: the length, the label behind "MLS 1.0 " and the context.
unfoldable pub hkdf_label : String → Bytes → ℕ → Result Bytes
unfolding varint_encode
hkdf_label label context size =
    let full_label = ascii "MLS 1.0 " ++ ascii label in
    int_to_bytes 2 size
    ⊕ varint_encode (length full_label)
    ⊕ ok full_label
    ⊕ varint_encode (length context)
    ⊕ ok context

unfoldable pub expand_with_label : Primitives → Bytes → String → Bytes → ℕ → Result Bytes
unfolding hkdf_expand hkdf_label
expand_with_label p secret label context size =
    bind (hkdf_label label context size) (λ info. hkdf_expand p secret info size)

unfoldable pub derive_secret : Primitives → Bytes → String → Result Bytes
unfolding expand_with_label
derive_secret p secret label = expand_with_label p secret label [] digest_size
