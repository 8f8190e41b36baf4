-- ===== src/Tls/Extension/RoundTrip.antt =====
-- The wire forms of extensions in src/pure_mls/tls.py, and the loop over a vector of them.
use pure_mls.Prelude.{
  ℕ, ◌≡◌, ◌≢◌, ◌++◌, ◌+◌, out_of_fuel, Bytes, List, [], ◌∷◌, length, All, Result, ok, err, bind,
  join,
}
use pure_mls.Wire.Reader.{Reader, read_all}
use pure_mls.Wire.RoundTrip.{RoundTrips, bind-RoundTrips, map-RoundTrips, nested-RoundTrips}
use pure_mls.Wire.Steps.{
  Steps, Steps-le, bind-Steps, pure-Steps, lift-Steps, read_all-ends, read_all-join,
}
use pure_mls.Tls.Ints.RoundTrip.{tls_u16-RoundTrips}
use pure_mls.Tls.Ints.Steps.{read_u16-Steps}
use pure_mls.Tls.Opaque.{tls_opaque}
use pure_mls.Tls.Opaque.RoundTrip.{tls_opaque-RoundTrips, tls_opaque16-RoundTrips}
use pure_mls.Tls.Opaque.Bounds.{read_opaque-Steps}
use pure_mls.Tls.Extension.{
  Extension, tls_extension, read_extension, tls_extension16, read_extension16, tls_extensions,
  read_extensions, read_vector,
}
use native.Mathlib.Omega.{arith}

pub tls_extension-RoundTrips : (x : Extension) → RoundTrips read_extension (tls_extension x) x
unfolding tls_extension read_extension
tls_extension-RoundTrips x =
    bind-RoundTrips _ (tls_u16-RoundTrips x.0) (map-RoundTrips _ (tls_opaque-RoundTrips x.1))

pub tls_extension16-RoundTrips : (x : Extension) → RoundTrips read_extension16 (tls_extension16 x) x
unfolding tls_extension16 read_extension16
tls_extension16-RoundTrips x =
    bind-RoundTrips _ (tls_u16-RoundTrips x.0) (map-RoundTrips _ (tls_opaque16-RoundTrips x.1))

pub read_extension-Steps : Steps 3 read_extension
unfolding read_extension
read_extension-Steps =
    bind-Steps 2 1 _ read_u16-Steps
      (λ t. bind-Steps 1 0 _ read_opaque-Steps (λ d. pure-Steps (t, d)))

-- A vector of items that are read as they were written.
pub vector-RoundTrips {ℓ} :
    {A : Type ℓ} {item : Reader A} (f : A → Result Bytes) (xs : List A)
    → Steps 1 item
    → All (λ x. RoundTrips item (f x) x) xs
    → RoundTrips (read_vector item) (bind (join f xs) tls_opaque) xs
unfolding read_vector
vector-RoundTrips {item} f xs s rt =
    nested-RoundTrips (join f xs) (read_all item) tls_opaque-RoundTrips
      (λ d h. read_all-join s f xs d rt h)

every_extension :
    (xs : List Extension) → All (λ x. RoundTrips read_extension (tls_extension x) x) xs
every_extension [] = tt
every_extension (x ∷ xs) = (tls_extension-RoundTrips x, every_extension xs)

-- A vector of extensions is read as it was written.
pub tls_extensions-RoundTrips :
    (xs : List Extension) → RoundTrips read_extensions (tls_extensions xs) xs
unfolding read_extensions tls_extensions tls_opaque
tls_extensions-RoundTrips xs =
    nested-RoundTrips (join tls_extension xs) (read_all read_extension) tls_opaque-RoundTrips
      (λ d h.
        read_all-join (Steps-le 1 3 (omega arith) read_extension-Steps) tls_extension xs d
          (every_extension xs) h)

-- Reading a vector ends on any input, if each item takes a byte.
pub read_vector-Steps {ℓ} :
    {A : Type ℓ} {item : Reader A} → Steps 1 item → Steps 1 (read_vector item)
unfolding read_vector
read_vector-Steps {item} s =
    bind-Steps 1 0 _ read_opaque-Steps (λ raw. lift-Steps (read_all item raw) (read_all-ends s raw))

pub read_extensions-Steps : Steps 1 read_extensions
unfolding read_extensions
read_extensions-Steps = bind-Steps 1 0 _ read_opaque-Steps (λ raw.
    lift-Steps (read_all read_extension raw)
      (read_all-ends (Steps-le 1 3 (omega arith) read_extension-Steps) raw))

-- A vector of extensions is read as it was written, wherever it stands in a buffer, and the offset
-- moves behind it.
pub read_extensions-tls_extensions :
    (xs : List Extension) (e pre rest : Bytes)
    → tls_extensions xs ≡ ok e
    → read_extensions (pre ++ (e ++ rest)) (length pre) ≡ ok (xs, length pre + length e)
read_extensions-tls_extensions xs e pre rest h = (tls_extensions-RoundTrips xs).decodes e h pre rest

-- Reading a vector of extensions ends, on any buffer and at any offset: a round for each byte is
-- enough for its loop.
pub read_extensions-ends : (buf : Bytes) (off : ℕ) → read_extensions buf off ≢ err out_of_fuel
read_extensions-ends = read_extensions-Steps.ends
