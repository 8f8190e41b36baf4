-- ===== src/Tls/Opaque/Bounds.antt =====
-- The vector readers of src/pure_mls/tls.py on any buffer.
use pure_mls.Prelude.{
  ℕ, ◌+◌, ◌-◌, ◌≤◌, ◌<◌, ◌≡◌, ◌≢◌, sym, ap, ◌∙◌, arith, le→ltb, lt→ltb, err-ne-ok, Bytes, length,
  length-take, length-drop, drop, slice, Result, ok, err, out_of_fuel, bind-eq-ok, ◌^◌, ◌/◌,
  bit_and,
}
use native.Mathlib.Decide.{dec_le}
use pure_mls.Wire.Steps.{Steps, Steps-le, bind-Steps, bind-ends}
use pure_mls.Tls.Opaque.{index, read_checked, read_opaque, varint_decode, varint_form, read_fixed}

pub read_checked-Steps : (n : ℕ) → Steps n (read_checked n)
unfolding read_checked
read_checked-Steps n = record {
  moves = λ buf off v off' h. ground arith;
  ends = λ buf off h. ground arith;
}

pub read_fixed-Steps : (n : ℕ) → Steps n (read_fixed n)
unfolding read_fixed
read_fixed-Steps n = record { moves = λ buf off v off' h. ground arith; ends = λ buf off h. cc }

varint_form-moves :
    (p first : ℕ) (buf : Bytes) (off v off' : ℕ)
    → varint_form p first buf off ≡ ok (v, off')
    → off + 1 ≤ off'
unfolding varint_form
varint_form-moves p first buf off v off' h = ground arith

varint_form-ends :
    (p first : ℕ) (buf : Bytes) (off : ℕ) → varint_form p first buf off ≢ err out_of_fuel
unfolding varint_form
varint_form-ends p first buf off h = ground arith

pub varint_decode-Steps : Steps 1 varint_decode
unfolding varint_decode
varint_decode-Steps = record {
  moves = λ buf off v off' h.
      let (first, _, rest) =
        bind-eq-ok (index buf off) (λ b. varint_form (bit_and (b / 2 ^ 6) 0x3) b buf off) h in
      varint_form-moves (bit_and (first / 2 ^ 6) 0x3) first buf off v off' rest;
  ends = λ buf off.
      bind-ends (index buf off) (λ b. varint_form (bit_and (b / 2 ^ 6) 0x3) b buf off)
        (λ h. ground arith)
        (λ first _. varint_form-ends (bit_and (first / 2 ^ 6) 0x3) first buf off);
}

pub read_opaque-Steps : Steps 1 read_opaque
unfolding read_opaque
read_opaque-Steps =
    let s =
      bind-Steps 1 0 read_checked varint_decode-Steps
        (λ n. Steps-le 0 n (omega arith) (read_checked-Steps n)) in
    record { moves = s.moves; ends = s.ends }

abbrev read_slice : ℕ → Bytes → ℕ → Result (Bytes × ℕ)
read_slice n buf off = ok (slice buf off (off + n), off + n)

-- A checked slice is all there: it has the length that was asked for, and ends in the buffer.
pub read_checked_within :
    (n : ℕ) (buf : Bytes) (off : ℕ) (d : Bytes) (off' : ℕ)
    → read_checked n buf off ≡ ok (d, off')
    → (n ≡ length d) × (d ≡ slice buf off (off + n)) × (off' ≡ off + n) × (off' ≤ length buf)
unfolding read_checked
read_checked_within n buf off d off' h = elim (dec_le (off + n) (length buf)) [
  | yes fits ↦
      let e : read_slice n buf off ≡ ok (d, off') = rw (le→ltb (length buf) (off + n) fits) at h in
      let same : slice buf off (off + n) ≡ d = cc e in
      let end : off + n ≡ off' = cc e in
      let size : length (slice buf off (off + n)) ≡ n =
        omega (arith, length-take (off + n - off) (drop off buf), length-drop off buf) in
      (sym size ∙ ap length same, sym same, sym end, omega arith)
  | no large ↦ absurd (err-ne-ok (rw (lt→ltb (length buf) (off + n) (omega arith)) at h))
]

behind_length :
    (buf : Bytes) (off n mid : ℕ) (d : Bytes) (off' : ℕ)
    → varint_decode buf off ≡ ok (n, mid)
    → read_checked n buf mid ≡ ok (d, off')
    → (m : ℕ) × (varint_decode buf off ≡ ok (length d, m))
      × (off < m)
      × (d ≡ slice buf m (m + length d))
      × (off' ≡ m + length d)
      × (off' ≤ length buf)
behind_length buf off n mid d off' first second =
    let (size, same, end, inside) = read_checked_within n buf mid d off' second in
    (
      mid,
      first ∙ ap (λ t. ok (t, mid)) size,
      omega (arith, varint_decode-Steps.moves buf off n mid first),
      same ∙ ap (λ t. slice buf mid (mid + t)) size,
      end ∙ ap (λ t. mid + t) size,
      inside,
    )

-- Where `read_opaque` returns, the length in front decodes to the length of what it returns,
-- which is the slice right behind that length; the new offset is behind the slice and inside the
-- buffer.
pub read_opaque_within :
    (buf : Bytes) (off : ℕ) (d : Bytes) (off' : ℕ)
    → read_opaque buf off ≡ ok (d, off')
    → (mid : ℕ) × (varint_decode buf off ≡ ok (length d, mid))
      × (off < mid)
      × (d ≡ slice buf mid (mid + length d))
      × (off' ≡ mid + length d)
      × (off' ≤ length buf)
unfolding read_opaque
read_opaque_within buf off d off' h =
    let (p, first, second) = bind-eq-ok (varint_decode buf off) (λ p. read_checked p.0 buf p.1) h in
    behind_length buf off p.0 p.1 d off' first second
