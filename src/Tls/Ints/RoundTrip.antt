-- ===== src/Tls/Ints/RoundTrip.antt =====
-- The wire forms of the integers of src/pure_mls/tls.py.
use pure_mls.Prelude.{
  ℕ, ◌+◌, ◌-◌, ◌≤◌, ◌≡◌, sym, ap, ◌∙◌, ◌++◌, arith, Bytes, [], ◌∷◌, length, length-append, slice,
  drop-append, take-append, get_elem?-append, le→leb, Result, ok,
}
use native.Mathlib.Nat.{mod-eq_of_lt}
use pure_mls.Wire.RoundTrip.{RoundTrips}
use pure_mls.Tls.Ints.{
  to_be, from_be, pack, unpack_from, byte_at, tls_u8, tls_u16, tls_u32, tls_u64, read_u8, read_u16,
  read_u32, read_u64,
}
use pure_mls.Tls.Ints.Digits.{from_be-to_be, length-to_be, pack-eq-ok}

pub slice-append :
    (pre e rest : Bytes) → slice (pre ++ (e ++ rest)) (length pre) (length pre + length e) ≡ e
slice-append pre e rest = rw (drop-append pre (e ++ rest), size) (take-append e rest)
  where
    size : length pre + length e - length pre ≡ length e
    size = omega arith

pub unpack_from-append :
    (n : ℕ) (pre e rest : Bytes)
    → length e ≡ n
    → unpack_from n (pre ++ (e ++ rest)) (length pre) ≡ ok (from_be e, length pre + length e)
unfolding unpack_from
unpack_from-append n pre e rest h = rw (
  ← h,
  le→leb (length pre + length e) (length (pre ++ (e ++ rest))) fits,
  slice-append pre e rest,
)
  where
    fits : length pre + length e ≤ length (pre ++ (e ++ rest))
    fits = omega (arith, length-append pre (e ++ rest), length-append e rest)

pub pack-RoundTrips : (n v : ℕ) → RoundTrips (unpack_from n) (pack n v) v
pack-RoundTrips n v = record {
  decodes = λ e h pre rest.
      let (small, digits) = pack-eq-ok n v e h in
      let size : length e ≡ n = ap length (sym digits) ∙ length-to_be n v in
      unpack_from-append n pre e rest size
      ∙ ap (λ t. ok (t, length pre + length e)) (ap from_be (sym digits) ∙ from_be-to_be n v small);
}

pub byte_at-append :
    (pre : Bytes) (b : ℕ) (rest : Bytes)
    → byte_at (pre ++ (b ∷ rest)) (length pre) ≡ ok (b, length pre + 1)
unfolding byte_at
byte_at-append pre b rest = rw (get_elem?-append pre rest b)

-- An encoder that writes one byte.
pub single-RoundTrips :
    (m : Result Bytes) (b : ℕ) → ((e : Bytes) → m ≡ ok e → e ≡ b ∷ []) → RoundTrips byte_at m b
single-RoundTrips m b one = record {
  decodes = λ e h pre rest. rw (one e h) (byte_at-append pre b rest);
}

pub tls_u8-RoundTrips : (v : ℕ) → RoundTrips read_u8 (tls_u8 v) v
unfolding tls_u8 read_u8 to_be
tls_u8-RoundTrips v = record { decodes = (single-RoundTrips (pack 1 v) v one).decodes }
  where
    one : (e : Bytes) → pack 1 v ≡ ok e → e ≡ v ∷ []
    one e h =
        let (small, digits) = pack-eq-ok 1 v e h in
        sym digits ∙ ap (λ t. t ∷ []) (mod-eq_of_lt small)

pub tls_u16-RoundTrips : (v : ℕ) → RoundTrips read_u16 (tls_u16 v) v
unfolding tls_u16 read_u16
tls_u16-RoundTrips v = record { decodes = (pack-RoundTrips 2 v).decodes }

pub tls_u32-RoundTrips : (v : ℕ) → RoundTrips read_u32 (tls_u32 v) v
unfolding tls_u32 read_u32
tls_u32-RoundTrips v = record { decodes = (pack-RoundTrips 4 v).decodes }

pub tls_u64-RoundTrips : (v : ℕ) → RoundTrips read_u64 (tls_u64 v) v
unfolding tls_u64 read_u64
tls_u64-RoundTrips v = record { decodes = (pack-RoundTrips 8 v).decodes }
