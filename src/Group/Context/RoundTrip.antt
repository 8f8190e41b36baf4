-- ===== src/Group/Context/RoundTrip.antt =====
-- The wire form of `GroupContext` of src/pure_mls/group.py.
use pure_mls.Prelude.{ℕ, ◌+◌, ◌≡◌, refl, sym, ap, ◌∙◌, length, ok, value_error}
use pure_mls.Wire.RoundTrip.{RoundTrips, bind-RoundTrips, map-RoundTrips, require-RoundTrips}
use pure_mls.Tls.Ints.{int_to_bytes, unpack_from, read_u16, read_u64, from_be}
use pure_mls.Tls.Ints.RoundTrip.{unpack_from-append}
use pure_mls.Tls.Ints.Digits.{int_to_bytes-eq-ok, length-to_be, from_be-to_be}
use pure_mls.Tls.Opaque.{tls_opaque}
use pure_mls.Tls.Opaque.RoundTrip.{tls_opaque-RoundTrips}
use pure_mls.Tls.Opaque.Varint.{tls_varint-RoundTrips}
use pure_mls.Capabilities.RoundTrip.{read_fixed-RoundTrips}
use pure_mls.Group.Context.{GroupContext, to_bytes, from_bytes_at, version, cipher_suite}

int_to_bytes-RoundTrips : (n v : ℕ) → RoundTrips (unpack_from n) (int_to_bytes n v) v
int_to_bytes-RoundTrips n v = record {
  decodes = λ e h pre rest.
      let (small, digits) = int_to_bytes-eq-ok n v e h in
      let size : length e ≡ n = ap length (sym digits) ∙ length-to_be n v in
      let back : from_be e ≡ v = ap from_be (sym digits) ∙ from_be-to_be n v small in
      unpack_from-append n pre e rest size ∙ ap (λ t. ok (t, length pre + length e)) back;
}

pub u16-RoundTrips : (v : ℕ) → RoundTrips read_u16 (int_to_bytes 2 v) v
unfolding read_u16
u16-RoundTrips v = record { decodes = (int_to_bytes-RoundTrips 2 v).decodes }

pub u64-RoundTrips : (v : ℕ) → RoundTrips read_u64 (int_to_bytes 8 v) v
unfolding read_u64
u64-RoundTrips v = record { decodes = (int_to_bytes-RoundTrips 8 v).decodes }

pub to_bytes-RoundTrips : (g : GroupContext) → RoundTrips from_bytes_at (to_bytes g) g
unfolding from_bytes_at to_bytes tls_opaque
to_bytes-RoundTrips g = bind-RoundTrips _ (u16-RoundTrips version) (
    require-RoundTrips _ value_error refl (
      bind-RoundTrips _ (u16-RoundTrips cipher_suite) (
        require-RoundTrips _ value_error refl (
          bind-RoundTrips _ (tls_opaque-RoundTrips g.group_id) (
            bind-RoundTrips _ (u64-RoundTrips g.epoch) (
              bind-RoundTrips _ (tls_opaque-RoundTrips g.tree_hash) (
                bind-RoundTrips _ (tls_opaque-RoundTrips g.confirmed_transcript_hash) (
                  bind-RoundTrips _ (tls_varint-RoundTrips (length g.extensions_bytes))
                    (map-RoundTrips _ (read_fixed-RoundTrips g.extensions_bytes))))))))))
