-- ===== src/Codecs.antt =====
-- src/pure_mls/codecs.py: the dialects of the wire format and their registry.
use pure_mls.Prelude.{
  ℕ, zero, suc, ◌+◌, Bool, true, false, ◌&&◌, Bytes, List, [], ◌∷◌, ◌++◌, length, get_elem?, slice,
  ltb, leb, ◌==◌, if◌then◌else◌, Result, ok, err, bind, ◌⊕◌, join, key_error, out_of_fuel,
  value_error, Option, none, some,
}
use pure_mls.Primitives.{ascii}
use pure_mls.Wire.Reader.{Reader, ◌>>=◌, pure}
use pure_mls.Tls.Ints.{tls_u16, tls_u32, read_u16, unpack_from}
use pure_mls.Tls.Opaque.{tls_varint, tls_opaque, varint_decode, read_checked, read_fixed}
use pure_mls.Tls.Extension.{Extension, tls_extension, tls_extension16, read_extensions}
pub mod RoundTrip

-- `SerializerStrategy`: what a dialect provides.
pub record SerializerStrategy : Type 0 where
  pub name : Bytes
  pub header : Bytes
  pub welcome_label : Bytes
  pub encode_extensions : List Extension → Result Bytes
  pub decode_extensions : Reader (List Extension)
  pub encode_vector : List Bytes → Result Bytes
  pub decode_vector : Reader (List Bytes)
  pub detect : Bytes → Bool

-- `data.startswith(prefix)`
abbrev pub startswith : Bytes → Bytes → Bool
startswith raw [] = true
startswith [] (b ∷ bs) = false
startswith (a ∷ raw) (b ∷ bs) = (a == b) && startswith raw bs

-- `b"".join(items)` behind a length
abbrev pub joined : List Bytes → Bytes
joined [] = []
joined (b ∷ bs) = b ++ joined bs

unfoldable pub with_length : (ℕ → Result Bytes) → Result Bytes → Result Bytes
with_length prefix body = bind body (λ b. prefix (length b) ⊕ ok b)

-- The whole vector as one block, after the check.
unfoldable pub read_block : Reader ℕ → Reader (List Bytes)
unfolding ◌>>=◌ pure
read_block read_length = read_length >>= λ n. (read_checked n >>= λ b. pure (b ∷ []))

-- `while offset < end` of the Cisco dialect; each round takes four bytes, so `end - offset` rounds are enough.
unfoldable pub cisco_loop : ℕ → ℕ → Reader (List Extension)
cisco_loop zero stop buf offset = if ltb offset stop then err out_of_fuel else ok ([], offset)
cisco_loop (suc fuel) stop buf offset = elim (ltb offset stop) [
  | true ↦ bind (read_u16 buf offset) (λ t. bind (unpack_from 2 buf t.1) (λ n.
      bind (read_fixed n.0 buf n.1)
        (λ d. bind (cisco_loop fuel stop buf d.1) (λ rest. ok ((t.0, d.0) ∷ rest.0, rest.1)))))
  | false ↦ ok ([], offset)
]

unfoldable pub cisco_extensions : Reader (List Extension)
unfolding cisco_loop
cisco_extensions buf offset =
    bind (unpack_from 2 buf offset) (λ n. cisco_loop n.0 (n.1 + n.0) buf n.1)

abbrev pub standard : SerializerStrategy
standard = record {
  name = ascii "standard";
  header = [];
  welcome_label = ascii "MLS 1.0 Welcome";
  encode_extensions = λ xs. with_length tls_varint (join tls_extension xs);
  decode_extensions = read_extensions;
  encode_vector = λ items. with_length tls_varint (ok (joined items));
  decode_vector = read_block varint_decode;
  detect = λ raw. startswith raw (0x00 ∷ 0x01 ∷ 0x00 ∷ 0x03 ∷ []);
}

abbrev pub cisco : SerializerStrategy
cisco = record {
  name = ascii "cisco";
  header = 0xCC ∷ 0x01 ∷ [];
  welcome_label = ascii "Cisco MLS Welcome";
  encode_extensions = λ xs. with_length tls_u16 (join tls_extension16 xs);
  decode_extensions = cisco_extensions;
  encode_vector = λ items. with_length tls_u16 (ok (joined items));
  decode_vector = read_block (unpack_from 2);
  detect = λ raw. startswith raw (0xCC ∷ 0x01 ∷ []);
}

abbrev pub mlspp : SerializerStrategy
mlspp = record {
  name = ascii "mlspp";
  header = 0xAA ∷ 0x02 ∷ [];
  welcome_label = ascii "mlspp Welcome";
  encode_extensions = λ xs. with_length tls_varint (join tls_extension xs);
  decode_extensions = read_extensions;
  encode_vector = λ items. with_length tls_u32 (ok (joined items));
  decode_vector = read_block (unpack_from 4);
  detect = λ raw. startswith raw (0xAA ∷ 0x02 ∷ []);
}

-- `_REGISTRY`: a dictionary in the order of its insertions.
abbrev pub Registry : Type 0
Registry = List SerializerStrategy

abbrev pub initial : Registry
initial = standard ∷ cisco ∷ mlspp ∷ []

abbrev pub same_bytes : Bytes → Bytes → Bool
same_bytes [] [] = true
same_bytes [] (b ∷ bs) = false
same_bytes (a ∷ more) [] = false
same_bytes (a ∷ more) (b ∷ bs) = (a == b) && same_bytes more bs

-- A name that is registered keeps its place; a new one goes to the end.
unfoldable pub register_dialect : Registry → SerializerStrategy → Registry
register_dialect [] strategy = strategy ∷ []
register_dialect (s ∷ ss) strategy =
    let rest = register_dialect ss strategy in
    if same_bytes s.name strategy.name then strategy ∷ ss else s ∷ rest

unfoldable pub get_dialect : Registry → Bytes → Result SerializerStrategy
get_dialect [] name = err key_error
get_dialect (s ∷ ss) name =
    let rest = get_dialect ss name in if same_bytes s.name name then ok s else rest

unfoldable pub first_match : Registry → Bytes → Option SerializerStrategy
first_match [] raw = none
first_match (s ∷ ss) raw = let rest = first_match ss raw in if s.detect raw then some s else rest

unfoldable pub detect_dialect : Registry → Bytes → Result SerializerStrategy
unfolding first_match get_dialect
detect_dialect registry raw = elim (first_match registry raw) [
  | some s ↦ ok s
  | none ↦ get_dialect registry (ascii "standard")
]
