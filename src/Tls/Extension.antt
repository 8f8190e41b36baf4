-- ===== src/Tls/Extension.antt =====
-- Extensions of src/pure_mls/tls.py: a type and a byte string, one by one and in vectors.
use pure_mls.Prelude.{
  ℕ, zero, suc, ◌+◌, Bytes, List, [], ◌∷◌, length, slice, ltb, if◌then◌else◌, Result, ok, err, bind,
  ◌⊕◌, join, true, false, value_error, out_of_fuel,
}
use pure_mls.Wire.Reader.{Reader, ◌>>=◌, pure, lift, read_all}
use pure_mls.Tls.Ints.{tls_u16, read_u16, from_be}
use pure_mls.Tls.Opaque.{
  tls_varint, tls_opaque, tls_opaque16, read_opaque, read_opaque16, read_vector16, read_vector32,
}
pub mod RoundTrip

abbrev pub Extension : Type 0
Extension = ℕ × Bytes

unfoldable pub tls_extension : Extension → Result Bytes
tls_extension x = tls_u16 x.0 ⊕ tls_opaque x.1

unfoldable pub tls_extension16 : Extension → Result Bytes
tls_extension16 x = tls_u16 x.0 ⊕ tls_opaque16 x.1

unfoldable pub read_extension : Reader Extension
unfolding ◌>>=◌ pure
read_extension = do ext_type ← read_u16; ext_data ← read_opaque; pure (ext_type, ext_data)

unfoldable pub read_extension16 : Reader Extension
unfolding ◌>>=◌ pure
read_extension16 = do ext_type ← read_u16; ext_data ← read_opaque16; pure (ext_type, ext_data)

unfoldable pub tls_extensions : List Extension → Result Bytes
tls_extensions exts = bind (join tls_extension exts) (λ body. tls_varint (length body) ⊕ ok body)

unfoldable pub tls_extensions16 : List Extension → Result Bytes
tls_extensions16 exts = bind (join tls_extension16 exts) (λ body. tls_u16 (length body) ⊕ ok body)

-- `read_vector` and `read_extensions`: items up to the end of one opaque byte string.
unfoldable pub read_vector {ℓ} : {A : Type ℓ} → Reader A → Reader (List A)
unfolding ◌>>=◌ lift
read_vector item = read_opaque >>= λ raw. lift (read_all item raw)

unfoldable pub read_extensions : Reader (List Extension)
unfolding ◌>>=◌ lift
read_extensions = read_opaque >>= λ raw. lift (read_all read_extension raw)

-- `_parse_extensions_internal`: blocks of a 16-bit type, a 16-bit length and the data.
unfoldable pub parse_extensions_loop : ℕ → Bytes → ℕ → Result (List Extension)
parse_extensions_loop zero raw i = if ltb i (length raw) then err out_of_fuel else ok []
parse_extensions_loop (suc fuel) raw i =
    let etype = from_be (slice raw i (i + 2)) in
    let elen = from_be (slice raw (i + 2) (i + 4)) in
    let rest =
      bind (parse_extensions_loop fuel raw (i + 4 + elen))
        (λ exts. ok ((etype, slice raw (i + 4) (i + 4 + elen)) ∷ exts)) in
    if ltb i (length raw)
    then (if ltb (length raw) (i + 4)
        then err value_error
        else if ltb (length raw) (i + 4 + elen)
        then err value_error
        else rest)
    else ok []

-- Each round takes four bytes at least, so `len(data)` rounds are enough.
unfoldable pub parse_extensions : Bytes → Result (List Extension)
unfolding parse_extensions_loop
parse_extensions raw = parse_extensions_loop (length raw) raw 0

unfoldable pub read_extensions16 : Reader (List Extension)
unfolding ◌>>=◌ lift
read_extensions16 = read_vector16 >>= λ raw. lift (parse_extensions raw)

unfoldable pub read_extensions32 : Reader (List Extension)
unfolding ◌>>=◌ lift
read_extensions32 = read_vector32 >>= λ raw. lift (parse_extensions raw)
