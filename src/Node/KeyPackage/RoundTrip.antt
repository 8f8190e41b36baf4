-- ===== src/Node/KeyPackage/RoundTrip.antt =====
-- The wire form of `KeyPackage` of src/pure_mls/tree.py. The leaf in it keeps only what is on the wire.
use pure_mls.Prelude.{◌≡◌, Bytes, ◌++◌, ◌+◌, length, refl, [], ok, value_error, join}
use pure_mls.Wire.RoundTrip.{RoundTrips, bind-RoundTrips, map-RoundTrips, require-RoundTrips}
use pure_mls.Tls.Ints.RoundTrip.{tls_u16-RoundTrips}
use pure_mls.Tls.Opaque.{tls_varint}
use pure_mls.Tls.Opaque.RoundTrip.{tls_opaque-RoundTrips}
use pure_mls.Tls.Extension.{read_extensions, tls_extensions}
use pure_mls.Tls.Extension.RoundTrip.{tls_extensions-RoundTrips}
use pure_mls.Node.Leaf.RoundTrip as LeafLaws
use pure_mls.Node.KeyPackage.{KeyPackage, to_bytes, from_bytes_at, version, cipher_suite}

abbrev pub on_the_wire : KeyPackage → KeyPackage
on_the_wire kp = record kp { leaf_node = LeafLaws.on_the_wire kp.leaf_node }

-- `tls_varint(0)` is an empty vector of extensions.
no_extensions-RoundTrips : RoundTrips read_extensions (tls_varint 0) []
unfolding tls_extensions tls_varint join
no_extensions-RoundTrips = tls_extensions-RoundTrips []

pub to_bytes-RoundTrips :
    (kp : KeyPackage) → RoundTrips from_bytes_at (to_bytes kp) (on_the_wire kp)
unfolding from_bytes_at to_bytes
to_bytes-RoundTrips kp = bind-RoundTrips _ (tls_u16-RoundTrips version) (
    require-RoundTrips _ value_error refl (
      bind-RoundTrips _ (tls_u16-RoundTrips cipher_suite) (
        require-RoundTrips _ value_error refl (
          bind-RoundTrips _ (tls_opaque-RoundTrips kp.init_key_pub) (
            bind-RoundTrips _ (LeafLaws.to_bytes-RoundTrips kp.leaf_node) (
              bind-RoundTrips _ no_extensions-RoundTrips
                (map-RoundTrips _ (tls_opaque-RoundTrips kp.leaf_node_signature))))))))

-- A key package is read as it was written, wherever it stands in a buffer, up to the leaf's fields
-- that its source does not put on the wire.
pub from_bytes_at-to_bytes_package :
    (kp : KeyPackage) (e pre rest : Bytes)
    → to_bytes kp ≡ ok e
    → from_bytes_at (pre ++ (e ++ rest)) (length pre) ≡ ok (on_the_wire kp, length pre + length e)
from_bytes_at-to_bytes_package kp e pre rest h = (to_bytes-RoundTrips kp).decodes e h pre rest
