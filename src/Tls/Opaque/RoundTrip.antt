-- ===== src/Tls/Opaque/RoundTrip.antt =====
-- The wire forms of the vectors of src/pure_mls/tls.py.
use pure_mls.Prelude.{
  ℕ, ◌+◌, ◌≤◌, ◌<◌, ◌≡◌, sym, ap, ◌∙◌, ◌++◌, arith, Bytes, [], ◌∷◌, length, length-append, le→ltb,
  ok, ok-injective, err-ne-ok, ltb, ◌⊕◌, Bool-cases, inl, inr,
}
use pure_mls.Wire.RoundTrip.{RoundTrips, bind-RoundTrips}
use pure_mls.Tls.Ints.{to_be, pack, byte_at}
use pure_mls.Tls.Ints.Digits.{pack-eq-ok}
use pure_mls.Tls.Ints.RoundTrip.{slice-append, pack-RoundTrips, single-RoundTrips}
use pure_mls.Tls.Opaque.{
  read_checked, tls_opaque, read_opaque, tls_opaque16, read_opaque16, tls_opaque32, read_opaque32,
  tls_vec8, read_vec8, read_vector16, read_vector32, tls_varint,
}
use pure_mls.Tls.Opaque.Varint.{ranges_of, one, two, four, beyond, tls_varint-RoundTrips}
use native.Mathlib.Nat.{mod-eq_of_lt}

-- The bytes behind a length prefix.
pub read_checked-RoundTrips : (d : Bytes) → RoundTrips (read_checked (length d)) (ok d) d
unfolding read_checked
read_checked-RoundTrips d = record { decodes = λ e h pre rest. back e (ok-injective h) pre rest }
  where
    back :
        (e : Bytes)
        → d ≡ e
        → (pre rest : Bytes)
        → read_checked (length d) (pre ++ (e ++ rest)) (length pre) ≡ ok (d, length pre + length e)
    back e h pre rest =
        let fits : length pre + length e ≤ length (pre ++ (e ++ rest)) =
          omega (arith, length-append pre (e ++ rest), length-append e rest) in
        rw (
          h,
          le→ltb (length (pre ++ (e ++ rest))) (length pre + length e) fits,
          slice-append pre e rest,
        )

pub tls_opaque-RoundTrips : (d : Bytes) → RoundTrips read_opaque (tls_opaque d) d
unfolding tls_opaque read_opaque
tls_opaque-RoundTrips d = record {
  decodes =
      (bind-RoundTrips read_checked (tls_varint-RoundTrips (length d))
        (read_checked-RoundTrips d)).decodes;
}

pub tls_opaque16-RoundTrips : (d : Bytes) → RoundTrips read_opaque16 (tls_opaque16 d) d
unfolding tls_opaque16 read_opaque16
tls_opaque16-RoundTrips d = record {
  decodes =
      (bind-RoundTrips read_checked (pack-RoundTrips 2 (length d))
        (read_checked-RoundTrips d)).decodes;
}

pub tls_opaque32-RoundTrips : (d : Bytes) → RoundTrips read_opaque32 (tls_opaque32 d) d
unfolding tls_opaque32 read_opaque32
tls_opaque32-RoundTrips d = record {
  decodes =
      (bind-RoundTrips read_checked (pack-RoundTrips 4 (length d))
        (read_checked-RoundTrips d)).decodes;
}

pub read_vector16-RoundTrips : (d : Bytes) → RoundTrips read_vector16 (tls_opaque16 d) d
unfolding tls_opaque16 read_vector16
read_vector16-RoundTrips d = record {
  decodes =
      (bind-RoundTrips read_checked (pack-RoundTrips 2 (length d))
        (read_checked-RoundTrips d)).decodes;
}

pub read_vector32-RoundTrips : (d : Bytes) → RoundTrips read_vector32 (tls_opaque32 d) d
unfolding tls_opaque32 read_vector32
read_vector32-RoundTrips d = record {
  decodes =
      (bind-RoundTrips read_checked (pack-RoundTrips 4 (length d))
        (read_checked-RoundTrips d)).decodes;
}

pack_one-RoundTrips : (v : ℕ) → RoundTrips byte_at (pack 1 v) v
unfolding to_be
pack_one-RoundTrips v = single-RoundTrips (pack 1 v) v one
  where
    one : (e : Bytes) → pack 1 v ≡ ok e → e ≡ v ∷ []
    one e h =
        let (small, digits) = pack-eq-ok 1 v e h in
        sym digits ∙ ap (λ t. t ∷ []) (mod-eq_of_lt small)

pub tls_vec8-RoundTrips : (d : Bytes) → RoundTrips read_vec8 (tls_vec8 d) d
unfolding tls_vec8 read_vec8
tls_vec8-RoundTrips d = elim (Bool-cases (ltb 0xFF (length d))) [
  | inl large ↦ record { decodes = λ e h. absurd (err-ne-ok (rw large at h)) }
  | inr small ↦ record {
    decodes = λ e h.
        (bind-RoundTrips read_checked (pack_one-RoundTrips (length d))
            (read_checked-RoundTrips d)).decodes
          e (rw small at h);
  }
]

behind_head : (head d : Bytes) → tls_varint (length d) ≡ ok head → tls_opaque d ≡ ok (head ++ d)
unfolding tls_opaque
behind_head head d h = ap (λ m. m ⊕ ok d) h

written : (d : Bytes) → length d < 0x40000000 → (e : Bytes) × (tls_opaque d ≡ ok e)
written d h = elim (ranges_of (length d)) [
  | one _ head ↦ (_, behind_head _ d head)
  | two _ _ head ↦ (_, behind_head _ d head)
  | four _ _ head ↦ (_, behind_head _ d head)
  | beyond large _ ↦ absurd (omega (arith, large))
]

-- A byte string behind its variable-length size is read as it was written, wherever it stands in a
-- buffer, and the offset moves behind it; it can be written if it has fewer than 2 ^ 30 bytes.
pub read_opaque-tls_opaque :
    (d pre rest : Bytes)
    → length d < 0x40000000
    → (e : Bytes) × ((tls_opaque d ≡ ok e)
        × (read_opaque (pre ++ (e ++ rest)) (length pre) ≡ ok (d, length pre + length e)))
read_opaque-tls_opaque d pre rest h =
    let (e, he) = written d h in (e, (he, (tls_opaque-RoundTrips d).decodes e he pre rest))
