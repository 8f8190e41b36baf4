-- ===== src/Tls/Opaque.antt =====
-- Variable-length byte strings of src/pure_mls/tls.py: the MLS VarInt, and the vectors with a
-- length prefix of each width.
use pure_mls.Prelude.{
  ℕ, ◌+◌, ◌*◌, ◌/◌, ◌^◌, Bytes, [], ◌∷◌, length, get_elem?, slice, ltb, leb, ◌==◌, if◌then◌else◌,
  Result, ok, err, bind, or_raise, ◌⊕◌, index_error, value_error, bit_and, bit_or,
}
use pure_mls.Wire.Reader.{Reader, ◌>>=◌}
use pure_mls.Tls.Ints.{int_to_bytes, pack, unpack_from, byte_at, tls_u16, tls_u32}
pub mod Varint
pub mod RoundTrip
pub mod Bounds

unfoldable pub tls_varint : ℕ → Result Bytes
unfolding int_to_bytes
tls_varint n =
    if leb n 0x3F
    then ok (n ∷ [])
    else if leb n 0x3FFF
    then int_to_bytes 2 (bit_and (bit_or n 0x4000) 0xFFFF)
    else if leb n 0x3FFFFFFF
    then int_to_bytes 4 (bit_and (bit_or n 0x80000000) 0xFFFFFFFF)
    else err value_error

-- `buf[i]`
abbrev pub index : Bytes → ℕ → Result ℕ
index buf i = or_raise index_error (get_elem? buf i)

-- `((first & 0x3F) << 8) | buf[offset + 1]`
unfoldable pub varint_two : ℕ → Reader ℕ
varint_two first buf offset =
    bind (index buf (offset + 1)) (λ b1. ok (bit_or (bit_and first 0x3F * 2 ^ 8) b1, offset + 2))

unfoldable pub varint_four : ℕ → Reader ℕ
varint_four first buf offset =
    if ltb (length buf) (offset + 4)
    then err value_error
    else bind (index buf (offset + 1)) (λ b1. bind (index buf (offset + 2)) (λ b2.
      bind (index buf (offset + 3)) (λ b3. ok (
        bit_or (bit_or (bit_or (bit_and first 0x3F * 2 ^ 24) (b1 * 2 ^ 16)) (b2 * 2 ^ 8)) b3,
        offset + 4,
      ))))

-- The two high bits of the first byte choose the form; 0b11 is refused.
unfoldable pub varint_form : ℕ → ℕ → Reader ℕ
unfolding varint_two varint_four
varint_form prefix first buf offset =
    if prefix == 0
    then ok (bit_and first 0x3F, offset + 1)
    else if prefix == 1
    then varint_two first buf offset
    else if prefix == 2
    then varint_four first buf offset
    else err value_error

unfoldable pub varint_decode : Reader ℕ
unfolding varint_form
varint_decode buf offset =
    bind (index buf offset) (λ first. varint_form (bit_and (first / 2 ^ 6) 0x3) first buf offset)

-- The check of every vector reader, and the slice that it returns.
unfoldable pub read_checked : ℕ → Reader Bytes
read_checked n buf offset =
    if ltb (length buf) (offset + n)
    then err value_error
    else ok (slice buf offset (offset + n), offset + n)

-- A slice without a check: short at the end of the buffer, while the offset moves by `n`.
unfoldable pub read_fixed : ℕ → Reader Bytes
read_fixed n buf offset = ok (slice buf offset (offset + n), offset + n)

unfoldable pub tls_opaque : Bytes → Result Bytes
unfolding tls_varint
tls_opaque d = tls_varint (length d) ⊕ ok d

unfoldable pub read_opaque : Reader Bytes
unfolding varint_decode read_checked ◌>>=◌
read_opaque = varint_decode >>= read_checked

unfoldable pub tls_opaque16 : Bytes → Result Bytes
unfolding tls_u16
tls_opaque16 d = tls_u16 (length d) ⊕ ok d

unfoldable pub tls_opaque32 : Bytes → Result Bytes
unfolding tls_u32
tls_opaque32 d = tls_u32 (length d) ⊕ ok d

unfoldable pub tls_vec8 : Bytes → Result Bytes
unfolding pack
tls_vec8 d = if ltb 0xFF (length d) then err value_error else pack 1 (length d) ⊕ ok d

unfoldable pub read_opaque16 : Reader Bytes
unfolding unpack_from read_checked ◌>>=◌
read_opaque16 = unpack_from 2 >>= read_checked

unfoldable pub read_opaque32 : Reader Bytes
unfolding unpack_from read_checked ◌>>=◌
read_opaque32 = unpack_from 4 >>= read_checked

unfoldable pub read_vector16 : Reader Bytes
unfolding unpack_from read_checked ◌>>=◌
read_vector16 = unpack_from 2 >>= read_checked

unfoldable pub read_vector32 : Reader Bytes
unfolding unpack_from read_checked ◌>>=◌
read_vector32 = unpack_from 4 >>= read_checked

unfoldable pub read_vec8 : Reader Bytes
unfolding byte_at read_checked ◌>>=◌
read_vec8 = byte_at >>= read_checked
