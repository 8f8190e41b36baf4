-- ===== src/Tls/Opaque/Varint.antt =====
-- The MLS VarInt of src/pure_mls/tls.py: what is written for each range, and how it is read.
use pure_mls.Prelude.{
  ℕ, ◌+◌, ◌*◌, ◌/◌, ◌%◌, ◌^◌, ◌≤◌, ◌<◌, ◌≡◌, sym, ◌∙◌, ◌++◌, arith, Bytes, [], ◌∷◌, length,
  length-append, get_elem?-append_at, ok-injective, err-ne-ok, get_elem?-append, Result, ok, err,
  value_error, bit_and, bit_or,
}
use pure_mls.Prelude.Bits.{bit_and_mask, bit_or_shifted, shifted-bit_or}
use native.Mathlib.Decide.{dec_le}
use pure_mls.Wire.RoundTrip.{RoundTrips}
use pure_mls.Tls.Ints.{to_be}
use pure_mls.Tls.Opaque.{tls_varint, varint_decode}

-- The bytes of `n` in each form.
pub varint_bytes_one : (n : ℕ) → n ≤ 0x3F → tls_varint n ≡ ok (n ∷ [])
unfolding tls_varint
varint_bytes_one n h = ground arith

two_value : (n : ℕ) → n ≤ 0x3FFF → bit_and (bit_or n 0x4000) 0xFFFF ≡ n + 0x4000
two_value n h =
    omega (arith, bit_and_mask 16 (bit_or n 0x4000), bit_or_shifted 14 1 n (omega arith))

four_value : (n : ℕ) → n ≤ 0x3FFFFFFF → bit_and (bit_or n 0x80000000) 0xFFFFFFFF ≡ n + 0x80000000
four_value n h =
    omega (arith, bit_and_mask 32 (bit_or n 0x80000000), bit_or_shifted 30 2 n (omega arith))

abbrev pub two_bytes : ℕ → Bytes
two_bytes n = (64 + n / 256) ∷ (n % 256) ∷ []

abbrev pub four_bytes : ℕ → Bytes
four_bytes n = (128 + n / 2 ^ 24) ∷ (n / 2 ^ 16 % 256) ∷ (n / 2 ^ 8 % 256) ∷ (n % 256) ∷ []

pub varint_bytes_two : (n : ℕ) → 0x3F < n → n ≤ 0x3FFF → tls_varint n ≡ ok (two_bytes n)
unfolding tls_varint to_be
varint_bytes_two n l h = ground (arith, two_value n)

pub varint_bytes_four : (n : ℕ) → 0x3FFF < n → n ≤ 0x3FFFFFFF → tls_varint n ≡ ok (four_bytes n)
unfolding tls_varint to_be
varint_bytes_four n l h = ground (arith, four_value n)

pub varint_too_large : (n : ℕ) → 0x3FFFFFFF < n → tls_varint n ≡ err value_error
unfolding tls_varint
varint_too_large n h = ground arith

-- The form that the first byte selects.
form_of : (b : ℕ) → b < 256 → bit_and (b / 2 ^ 6) 0x3 ≡ b / 64
form_of b h = omega (arith, bit_and_mask 2 (b / 64))

low_six : (b : ℕ) → bit_and b 0x3F ≡ b % 64
low_six b = bit_and_mask 6 b

decode_one :
    (n : ℕ) (pre rest : Bytes)
    → n ≤ 0x3F
    → varint_decode (pre ++ (n ∷ rest)) (length pre) ≡ ok (n, length pre + 1)
unfolding varint_decode
decode_one n pre rest h = ground (arith, get_elem?-append pre rest n, form_of n, low_six n)

or_two : (a b : ℕ) → b < 256 → bit_or (a * 2 ^ 8) b ≡ a * 256 + b
or_two a b h = shifted-bit_or 8 a b h

or_four :
    (a b c d : ℕ)
    → b < 256
    → c < 256
    → d < 256
    → bit_or (bit_or (bit_or (a * 2 ^ 24) (b * 2 ^ 16)) (c * 2 ^ 8)) d
      ≡ a * 2 ^ 24 + b * 2 ^ 16 + c * 2 ^ 8 + d
or_four a b c d hb hc hd =
    rw (first, second) (omega (arith, shifted-bit_or 8 ((a * 256 + b) * 256 + c) d hd))
  where
    first : bit_or (a * 2 ^ 24) (b * 2 ^ 16) ≡ (a * 256 + b) * 2 ^ 16
    first = omega (arith, shifted-bit_or 24 a (b * 2 ^ 16) (omega arith))

    second : bit_or ((a * 256 + b) * 2 ^ 16) (c * 2 ^ 8) ≡ ((a * 256 + b) * 256 + c) * 2 ^ 8
    second = omega (arith, shifted-bit_or 16 (a * 256 + b) (c * 2 ^ 8) (omega arith))

decode_two :
    (n : ℕ) (pre rest : Bytes)
    → n ≤ 0x3FFF
    → varint_decode (pre ++ (two_bytes n ++ rest)) (length pre) ≡ ok (n, length pre + 2)
unfolding varint_decode
decode_two n pre rest h = ground (
  arith,
  get_elem?-append pre ((n % 256) ∷ rest) (64 + n / 256),
  get_elem?-append_at pre ((64 + n / 256) ∷ (n % 256) ∷ rest) 1,
  form_of (64 + n / 256),
  low_six (64 + n / 256),
  or_two (bit_and (64 + n / 256) 0x3F) (n % 256),
)

decode_four :
    (n : ℕ) (pre rest : Bytes)
    → n ≤ 0x3FFFFFFF
    → varint_decode (pre ++ (four_bytes n ++ rest)) (length pre) ≡ ok (n, length pre + 4)
unfolding varint_decode
decode_four n pre rest h = ground (
  arith,
  length-append pre (four_bytes n ++ rest),
  get_elem?-append pre ((n / 2 ^ 16 % 256) ∷ (n / 2 ^ 8 % 256) ∷ (n % 256) ∷ rest)
      (128 + n / 2 ^ 24),
  get_elem?-append_at pre (four_bytes n ++ rest) 1,
  get_elem?-append_at pre (four_bytes n ++ rest) 2,
  get_elem?-append_at pre (four_bytes n ++ rest) 3,
  form_of (128 + n / 2 ^ 24),
  low_six (128 + n / 2 ^ 24),
  or_four (bit_and (128 + n / 2 ^ 24) 0x3F) (n / 2 ^ 16 % 256) (n / 2 ^ 8 % 256) (n % 256),
)

-- The ranges of the encoder.
pub data Range (n : ℕ) : Type 0 where
  one : n ≤ 0x3F → tls_varint n ≡ ok (n ∷ []) → Range n
  two : 0x3F < n → n ≤ 0x3FFF → tls_varint n ≡ ok (two_bytes n) → Range n
  four : 0x3FFF < n → n ≤ 0x3FFFFFFF → tls_varint n ≡ ok (four_bytes n) → Range n
  beyond : 0x3FFFFFFF < n → tls_varint n ≡ err value_error → Range n

pub ranges_of : (n : ℕ) → Range n
ranges_of n = elim (dec_le n 0x3F) [
  | yes a ↦ one a (varint_bytes_one n a)
  | no a ↦ elim (dec_le n 0x3FFF) [
    | yes b ↦ two (omega arith) b (varint_bytes_two n (omega arith) b)
    | no b ↦ elim (dec_le n 0x3FFFFFFF) [
      | yes c ↦ four (omega arith) c (varint_bytes_four n (omega arith) c)
      | no c ↦ beyond (omega arith) (varint_too_large n (omega arith))
    ]
  ]
]

read_back :
    (n : ℕ) {m : Result Bytes} (b : Bytes)
    → m ≡ ok b
    → ((pre rest : Bytes)
        → varint_decode (pre ++ (b ++ rest)) (length pre) ≡ ok (n, length pre + length b))
    → RoundTrips varint_decode m n
read_back n b w d = record {
  decodes = λ e h pre rest. rw (sym (ok-injective (sym w ∙ h))) (d pre rest);
}

pub tls_varint-RoundTrips : (n : ℕ) → RoundTrips varint_decode (tls_varint n) n
tls_varint-RoundTrips n = elim (ranges_of n) [
  | one h w ↦ read_back n (n ∷ []) w (λ pre rest. decode_one n pre rest h)
  | two l h w ↦ read_back n (two_bytes n) w (λ pre rest. decode_two n pre rest h)
  | four l h w ↦ read_back n (four_bytes n) w (λ pre rest. decode_four n pre rest h)
  | beyond h w ↦ record { decodes = λ e k. absurd (err-ne-ok (sym w ∙ k)) }
]
