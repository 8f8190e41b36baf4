-- ===== src/KeySchedule/RoundTrip.antt =====
-- The stored form of `KeySchedule` of src/pure_mls/keyschedule.py.
use pure_mls.Prelude.{
  ℕ, zero, suc, ◌+◌, ◌*◌, ◌≡◌, ◌<◌, refl, sym, ap, ◌∙◌, arith, Bytes, [], ◌∷◌, ◌++◌, length,
  length-append, ok, All, append_assoc, append-nil, List,
}
use native.Mathlib.Nat.{zero-add}
use pure_mls.Tls.Ints.RoundTrip.{slice-append}
use pure_mls.KeySchedule.{KeySchedule, to_bytes, from_bytes, field_at}

-- Every secret has 32 bytes.
abbrev pub secrets : KeySchedule → List Bytes
secrets k =
    k.joiner_secret ∷ k.epoch_secret ∷ k.sender_data_secret ∷ k.encryption_secret
    ∷ k.exporter_secret ∷ k.epoch_authenticator ∷ k.external_secret ∷ k.resumption_psk_secret
    ∷ k.confirmation_key ∷ k.membership_key ∷ k.init_secret ∷ []

abbrev pub HasSizes : KeySchedule → Type 0
HasSizes k = All (λ s. length s ≡ 32) (secrets k)

-- A list of 32-byte fields, one behind the other.
abbrev concat : List Bytes → Bytes
concat [] = []
concat (s ∷ ss) = s ++ concat ss

abbrev nth : List Bytes → ℕ → Bytes
nth [] n = []
nth (s ∷ ss) zero = s
nth (s ∷ ss) (suc n) = nth ss n

length-concat :
    (ss : List Bytes) → All (λ s. length s ≡ 32) ss → length (concat ss) ≡ 32 * length ss
length-concat [] h = refl
length-concat (s ∷ ss) (h, hs) = omega (arith, length-append s (concat ss), length-concat ss hs)

field_behind : (pre s rest : Bytes) → length s ≡ 32 → field_at (pre ++ (s ++ rest)) (length pre) ≡ s
field_behind pre s rest h = rw h at (slice-append pre s rest)

field_at-concat :
    (ss : List Bytes) (n : ℕ) (pre : Bytes)
    → All (λ s. length s ≡ 32) ss
    → n < length ss
    → field_at (pre ++ concat ss) (length pre + 32 * n) ≡ nth ss n
field_at-concat [] n pre hs lt = absurd (omega (arith, lt))
field_at-concat (s ∷ ss) zero pre (h, hs) lt =
    let here : length pre + 32 * 0 ≡ length pre = omega arith in
    rw here (field_behind pre s (concat ss) h)
field_at-concat (s ∷ ss) (suc n) pre (h, hs) lt =
    rw (← append_assoc pre s (concat ss), position)
      (field_at-concat ss n (pre ++ s) hs (omega arith))
  where
    position : length pre + 32 * suc n ≡ length (pre ++ s) + 32 * n
    position = omega (arith, length-append pre s, h)

to_bytes-concat : (k : KeySchedule) → to_bytes k ≡ concat (secrets k)
unfolding to_bytes
to_bytes-concat k = simp (append_assoc, append-nil)

field_at-secrets :
    (k : KeySchedule) (n : ℕ)
    → HasSizes k
    → n < 11
    → field_at (concat (secrets k)) (32 * n) ≡ nth (secrets k) n
field_at-secrets k n h lt = rw (sym (zero-add (32 * n))) (field_at-concat (secrets k) n [] h lt)

-- Secrets of the size that the derivation gives them are loaded as they were stored.
pub from_bytes-to_bytes_secrets : (k : KeySchedule) → HasSizes k → from_bytes (to_bytes k) ≡ ok k
unfolding from_bytes
from_bytes-to_bytes_secrets k h =
    let size : length (concat (secrets k)) ≡ 352 = length-concat (secrets k) h in
    let f : (n : ℕ) → n < 11 → field_at (concat (secrets k)) (32 * n) ≡ nth (secrets k) n =
      λ n lt. field_at-secrets k n h lt in
    rw (
      to_bytes-concat k,
      size,
      f 0 (omega arith),
      f 1 (omega arith),
      f 2 (omega arith),
      f 3 (omega arith),
      f 4 (omega arith),
      f 5 (omega arith),
      f 6 (omega arith),
      f 7 (omega arith),
      f 8 (omega arith),
      f 9 (omega arith),
      f 10 (omega arith),
    )

pub length-to_bytes : (k : KeySchedule) → HasSizes k → length (to_bytes k) ≡ 352
length-to_bytes k h = ap length (to_bytes-concat k) ∙ length-concat (secrets k) h
