-- ===== src/Codecs/RoundTrip.antt =====
-- The vectors of the dialects of src/pure_mls/codecs.py, and look-up in their registry.
use pure_mls.Prelude.{
  ℕ, ◌+◌, ◌≡◌, refl, Bytes, List, [], ◌∷◌, ◌++◌, length, Result, ok, true, false, ap₂, ==_iff, ◌==◌,
  ==_refl, Bool-cases, inl, inr,
}
use pure_mls.Wire.Reader.{Reader}
use pure_mls.Wire.RoundTrip.{RoundTrips, bind-RoundTrips, map-RoundTrips}
use pure_mls.Tls.Ints.{tls_u16, tls_u32}
use pure_mls.Tls.Ints.RoundTrip.{pack-RoundTrips}
use pure_mls.Tls.Opaque.Varint.{tls_varint-RoundTrips}
use pure_mls.Tls.Opaque.RoundTrip.{read_checked-RoundTrips}
use pure_mls.Codecs.{
  SerializerStrategy, Registry, standard, cisco, mlspp, joined, with_length, read_block,
  register_dialect, get_dialect, same_bytes,
}

block-RoundTrips :
    {read : Reader ℕ} {prefix : ℕ → Result Bytes} (body : Bytes)
    → ((n : ℕ) → RoundTrips read (prefix n) n)
    → RoundTrips (read_block read) (with_length prefix (ok body)) (body ∷ [])
unfolding read_block with_length
block-RoundTrips body f =
    bind-RoundTrips _ (f (length body))
      (map-RoundTrips (λ b. b ∷ []) (read_checked-RoundTrips body))

pub same_bytes_refl : (a : Bytes) → same_bytes a a ≡ true
same_bytes_refl [] = refl
same_bytes_refl (x ∷ a) = rw (==_refl x) (same_bytes_refl a)

pub same_bytes-eq : (a b : Bytes) → same_bytes a b ≡ true → a ≡ b
same_bytes-eq [] [] h = refl
same_bytes-eq [] (y ∷ b) h = cc
same_bytes-eq (x ∷ a) [] h = cc
same_bytes-eq (x ∷ a) (y ∷ b) h = elim (Bool-cases (x == y)) [
  | inl same ↦ ap₂ (λ u v. u ∷ v) ((==_iff x y).0 same) (same_bytes-eq a b (rw same at h))
  | inr other ↦ absurd (false-ne-true (rw other at h))
]
  where
    false-ne-true : ¬ (false ≡ true)
    false-ne-true k = cc

-- A dialect that was registered is the one that its name gives.
pub get_dialect-register_dialect :
    (registry : Registry) (s : SerializerStrategy)
    → get_dialect (register_dialect registry s) s.name ≡ ok s
unfolding get_dialect register_dialect
get_dialect-register_dialect [] s = rw (same_bytes_refl s.name)
get_dialect-register_dialect (t ∷ ts) s = elim (Bool-cases (same_bytes t.name s.name)) [
  | inl same ↦ rw (same, same_bytes_refl s.name)
  | inr other ↦ rw (other, other, get_dialect-register_dialect ts s)
]

-- The dialects that the registry holds from the start.
pub data Built : SerializerStrategy → Type 0 where
  is_standard : Built standard
  is_cisco : Built cisco
  is_mlspp : Built mlspp

pub decode_vector-RoundTrips :
    (s : SerializerStrategy) (items : List Bytes)
    → Built s
    → RoundTrips s.decode_vector (s.encode_vector items) (joined items ∷ [])
unfolding tls_u16 tls_u32
decode_vector-RoundTrips s items is_standard = block-RoundTrips (joined items) tls_varint-RoundTrips
decode_vector-RoundTrips s items is_cisco = block-RoundTrips (joined items) (pack-RoundTrips 2)
decode_vector-RoundTrips s items is_mlspp = block-RoundTrips (joined items) (pack-RoundTrips 4)

-- Each of the three dialects that the registry starts with reads a vector as it wrote it, wherever it
-- stands in a buffer: the items come back as one block.
pub decode_vector-encode_vector :
    (s : SerializerStrategy) (items : List Bytes) (e pre rest : Bytes)
    → Built s
    → s.encode_vector items ≡ ok e
    → s.decode_vector (pre ++ (e ++ rest)) (length pre)
      ≡ ok (joined items ∷ [], length pre + length e)
decode_vector-encode_vector s items e pre rest b h =
    (decode_vector-RoundTrips s items b).decodes e h pre rest
