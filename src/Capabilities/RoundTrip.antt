-- ===== src/Capabilities/RoundTrip.antt =====
-- The wire forms of src/pure_mls/extensions.py.
use pure_mls.Prelude.{
  ℕ, ◌≡◌, refl, sym, ap, ◌∙◌, Bytes, List, [], ◌∷◌, length, ◌++◌, ◌+◌, ok, ◌⊕◌, join, bind-eq-ok,
  ⊕-eq-ok, ok-injective, arith, ap₂, subst, value_error,
}
use pure_mls.Wire.RoundTrip.{RoundTrips, bind-RoundTrips, map-RoundTrips, require-RoundTrips}
use pure_mls.Wire.Steps.{Steps, Steps-le, bind-Steps, pure-Steps}
use pure_mls.Tls.Ints.{to_be, tls_u16, from_be, pack}
use pure_mls.Tls.Ints.Digits.{pack-eq-ok, from_be-to_be}
use pure_mls.Tls.Ints.RoundTrip.{tls_u8-RoundTrips, slice-append}
use pure_mls.Tls.Opaque.{read_fixed, tls_varint}
use pure_mls.Tls.Opaque.Varint.{tls_varint-RoundTrips}
use pure_mls.Tls.Opaque.RoundTrip.{tls_opaque-RoundTrips}
use pure_mls.Tls.Opaque.Bounds.{varint_decode-Steps, read_fixed-Steps}
use pure_mls.Capabilities.{
  Capabilities, marshal, from_bytes_at, tls_vec_varint, read_varint_vec, u16_items,
  ExternalPskExtension, marshal_psk, read_psk,
}

pub read_fixed-RoundTrips : (d : Bytes) → RoundTrips (read_fixed (length d)) (ok d) d
unfolding read_fixed
read_fixed-RoundTrips d = record {
  decodes = λ e h pre rest. rw (ok-injective h, slice-append pre e rest);
}

u16_items_two :
    (v : ℕ) (rest : Bytes) → u16_items (to_be 2 v ++ rest) ≡ from_be (to_be 2 v) ∷ u16_items rest
unfolding u16_items to_be
u16_items_two v rest = refl

u16_items-join :
    (vals : List ℕ) (body : Bytes) → join tls_u16 vals ≡ ok body → u16_items body ≡ vals
unfolding join tls_u16
u16_items-join [] body h = rw (← ok-injective h) (unfold u16_items in refl)
u16_items-join (v ∷ vals) body h =
    let (a, b, ha, hb, he) = ⊕-eq-ok (pack 2 v) (join tls_u16 vals) h in
    let (small, digits) = pack-eq-ok 2 v a ha in
    ap u16_items (he ∙ ap (λ t. t ++ b) (sym digits))
    ∙ u16_items_two v b
    ∙ ap₂ (λ x xs. x ∷ xs) (from_be-to_be 2 v small) (u16_items-join vals b hb)

read_varint_vec-RoundTrips : (vals : List ℕ) → RoundTrips read_varint_vec (tls_vec_varint vals) vals
unfolding read_varint_vec tls_vec_varint
read_varint_vec-RoundTrips vals = record {
  decodes = λ e h.
      let (body, hj, hw) = bind-eq-ok (join tls_u16 vals) _ h in
      (subst (λ t. RoundTrips read_varint_vec (tls_varint (length body) ⊕ ok body) t)
          (u16_items-join vals body hj)
          (bind-RoundTrips _ (tls_varint-RoundTrips (length body))
            (map-RoundTrips u16_items (read_fixed-RoundTrips body)))).decodes
        e hw;
}

-- Capabilities are read as they were marshalled.
pub marshal-RoundTrips : (c : Capabilities) → RoundTrips from_bytes_at (marshal c) c
unfolding from_bytes_at marshal
marshal-RoundTrips c = bind-RoundTrips _ (read_varint_vec-RoundTrips c.versions) (
    bind-RoundTrips _ (read_varint_vec-RoundTrips c.ciphersuites) (
      bind-RoundTrips _ (read_varint_vec-RoundTrips c.extensions) (
        bind-RoundTrips _ (read_varint_vec-RoundTrips c.proposals)
          (map-RoundTrips _ (read_varint_vec-RoundTrips c.credentials)))))

pub marshal_psk-RoundTrips : (x : ExternalPskExtension) → RoundTrips read_psk (marshal_psk x) x
unfolding read_psk marshal_psk
marshal_psk-RoundTrips x = bind-RoundTrips _ (tls_u8-RoundTrips 1) (
    require-RoundTrips _ value_error refl (
      bind-RoundTrips _ (tls_opaque-RoundTrips x.psk_id)
        (map-RoundTrips _ (tls_opaque-RoundTrips x.psk_nonce))))

read_varint_vec-Steps : Steps 1 read_varint_vec
unfolding read_varint_vec
read_varint_vec-Steps = bind-Steps 1 0 _ varint_decode-Steps (λ n.
    bind-Steps 0 0 _ (Steps-le 0 n (omega arith) (read_fixed-Steps n))
      (λ raw. pure-Steps (u16_items raw)))

pub from_bytes_at-Steps : Steps 5 from_bytes_at
unfolding from_bytes_at
from_bytes_at-Steps = bind-Steps 1 4 _ read_varint_vec-Steps (λ a.
    bind-Steps 1 3 _ read_varint_vec-Steps (λ b. bind-Steps 1 2 _ read_varint_vec-Steps (λ c.
      bind-Steps 1 1 _ read_varint_vec-Steps
        (λ d. bind-Steps 1 0 _ read_varint_vec-Steps (λ e. pure-Steps _)))))

-- Capabilities are read as they were marshalled, wherever they stand in a buffer.
pub from_bytes_at-marshal :
    (c : Capabilities) (e pre rest : Bytes)
    → marshal c ≡ ok e
    → from_bytes_at (pre ++ (e ++ rest)) (length pre) ≡ ok (c, length pre + length e)
from_bytes_at-marshal c e pre rest h = (marshal-RoundTrips c).decodes e h pre rest
