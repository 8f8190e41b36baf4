-- ===== src/KeySchedule/Psk.antt =====
-- The wire form of `PreSharedKeyID` of src/pure_mls/keyschedule.py. Its type says which fields are written.
use pure_mls.Prelude.{
  ◌≡◌, ◌++◌, Bytes, [], ◌+◌, Bool-cases, inl, inr, ◌==◌, if◌then◌else◌, ok, length,
}
use pure_mls.Wire.RoundTrip.{RoundTrips, bind-RoundTrips, map-RoundTrips}
use pure_mls.Tls.Ints.{tls_u8, tls_u64}
use pure_mls.Tls.Ints.RoundTrip.{tls_u8-RoundTrips, tls_u64-RoundTrips}
use pure_mls.Tls.Opaque.{read_opaque, tls_opaque, tls_varint}
use pure_mls.Tls.Opaque.RoundTrip.{tls_opaque-RoundTrips}
use pure_mls.Hkdf.{varint_encode}
use pure_mls.KeySchedule.{
  PreSharedKeyId, psk_type_external, opaque, external_bytes, resumption_bytes, psk_id_bytes,
  read_external, read_resumption, read_psk_id,
}

abbrev pub on_the_wire : PreSharedKeyId → PreSharedKeyId
on_the_wire i =
    if i.psk_type == psk_type_external
    then record i { usage = 0; psk_group_id = []; psk_epoch = 0 }
    else record i { psk_id = [] }

opaque-RoundTrips : (d : Bytes) → RoundTrips read_opaque (opaque d) d
unfolding opaque tls_opaque varint_encode tls_varint
opaque-RoundTrips d = tls_opaque-RoundTrips d

external-RoundTrips :
    (i : PreSharedKeyId)
    → RoundTrips
        (read_external i.psk_type)
        (external_bytes i)
        (record i { usage = 0; psk_group_id = []; psk_epoch = 0 })
unfolding read_external external_bytes
external-RoundTrips i =
    bind-RoundTrips _ (opaque-RoundTrips i.psk_id)
      (map-RoundTrips _ (opaque-RoundTrips i.psk_nonce))

resumption-RoundTrips :
    (i : PreSharedKeyId)
    → RoundTrips (read_resumption i.psk_type) (resumption_bytes i) (record i { psk_id = [] })
unfolding read_resumption resumption_bytes tls_u8 tls_u64
resumption-RoundTrips i = bind-RoundTrips _ (tls_u8-RoundTrips i.usage) (
    bind-RoundTrips _ (opaque-RoundTrips i.psk_group_id) (
      bind-RoundTrips _ (tls_u64-RoundTrips i.psk_epoch)
        (map-RoundTrips _ (opaque-RoundTrips i.psk_nonce))))

type-RoundTrips :
    (i : PreSharedKeyId)
    → RoundTrips
        (if i.psk_type == psk_type_external
          then read_external i.psk_type
          else read_resumption i.psk_type)
        (if i.psk_type == psk_type_external then external_bytes i else resumption_bytes i)
        (on_the_wire i)
type-RoundTrips i = elim (Bool-cases (i.psk_type == psk_type_external)) [
  | inl external ↦ rw external (external-RoundTrips i)
  | inr resumption ↦ rw resumption (resumption-RoundTrips i)
]

pub psk_id_bytes-RoundTrips :
    (i : PreSharedKeyId) → RoundTrips read_psk_id (psk_id_bytes i) (on_the_wire i)
unfolding read_psk_id psk_id_bytes tls_u8
psk_id_bytes-RoundTrips i = bind-RoundTrips _ (tls_u8-RoundTrips i.psk_type) (type-RoundTrips i)

-- A pre-shared key identifier is read as it was written, wherever it stands in a buffer, up to the
-- fields that its type does not write.
pub read_psk_id-psk_id_bytes :
    (i : PreSharedKeyId) (e pre rest : Bytes)
    → psk_id_bytes i ≡ ok e
    → read_psk_id (pre ++ (e ++ rest)) (length pre) ≡ ok (on_the_wire i, length pre + length e)
read_psk_id-psk_id_bytes i e pre rest h = (psk_id_bytes-RoundTrips i).decodes e h pre rest
