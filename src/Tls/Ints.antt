-- ===== src/Tls/Ints.antt =====
-- Fixed-width big-endian integers of src/pure_mls/tls.py, and the calls of `struct` and of
-- `int.to_bytes` and `int.from_bytes` that the library makes.
use pure_mls.Prelude.{
  ℕ, zero, suc, ◌+◌, ◌*◌, ◌/◌, ◌%◌, ◌^◌, ◌++◌, Bytes, [], ◌∷◌, length, get_elem?, slice, ltb, leb,
  if◌then◌else◌, Result, ok, err, bind, or_raise, index_error, struct_error, overflow_error,
}
use pure_mls.Wire.Reader.{Reader, ◌>>=◌, pure, lift}
pub mod Digits
pub mod RoundTrip
pub mod Steps

-- The `n` low base-256 digits of `v`, the highest first.
unfoldable pub to_be : ℕ → ℕ → Bytes
to_be zero v = []
to_be (suc n) v = to_be n (v / 256) ++ (v % 256 ∷ [])

unfoldable pub from_be_onto : ℕ → Bytes → ℕ
from_be_onto acc [] = acc
from_be_onto acc (b ∷ bs) = from_be_onto (acc * 256 + b) bs

-- `int.from_bytes(data, "big")`
unfoldable pub from_be : Bytes → ℕ
unfolding from_be_onto
from_be = from_be_onto 0

-- `v.to_bytes(n, "big")`, for a `v` that is not negative.
unfoldable pub int_to_bytes : ℕ → ℕ → Result Bytes
unfolding to_be
int_to_bytes n v = if ltb v (256 ^ n) then ok (to_be n v) else err overflow_error

-- `struct.pack` of one unsigned integer of `n` bytes.
unfoldable pub pack : ℕ → ℕ → Result Bytes
unfolding to_be
pack n v = if ltb v (256 ^ n) then ok (to_be n v) else err struct_error

-- `struct.unpack_from` of one unsigned integer of `n` bytes, and the offset behind it.
unfoldable pub unpack_from : ℕ → Reader ℕ
unfolding from_be
unpack_from n buf offset =
    if leb (offset + n) (length buf)
    then ok (from_be (slice buf offset (offset + n)), offset + n)
    else err struct_error

-- `buf[offset]`, and the offset behind it.
unfoldable pub byte_at : Reader ℕ
byte_at buf offset = bind (or_raise index_error (get_elem? buf offset)) (λ b. ok (b, offset + 1))

unfoldable pub tls_u8 : ℕ → Result Bytes
unfolding pack
tls_u8 v = pack 1 v

unfoldable pub tls_u16 : ℕ → Result Bytes
unfolding pack
tls_u16 v = pack 2 v

unfoldable pub tls_u32 : ℕ → Result Bytes
unfolding pack
tls_u32 v = pack 4 v

unfoldable pub tls_u64 : ℕ → Result Bytes
unfolding pack
tls_u64 v = pack 8 v

unfoldable pub read_u8 : Reader ℕ
unfolding byte_at
read_u8 buf offset = byte_at buf offset

unfoldable pub read_u16 : Reader ℕ
unfolding unpack_from
read_u16 buf offset = unpack_from 2 buf offset

unfoldable pub read_u32 : Reader ℕ
unfolding unpack_from
read_u32 buf offset = unpack_from 4 buf offset

unfoldable pub read_u64 : Reader ℕ
unfolding unpack_from
read_u64 buf offset = unpack_from 8 buf offset
