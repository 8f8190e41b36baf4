-- ===== src/Group/Path/RoundTrip.antt =====
-- The wire form of `UpdatePath` of src/pure_mls/group.py. The leaf in it keeps only what is on the wire.
use pure_mls.Prelude.{◌+◌, ◌≡◌, refl, ap, Bytes, List, [], ◌∷◌, ◌++◌, length, map, ok, join, subst}
use pure_mls.Wire.Reader.{read_count}
use pure_mls.Wire.RoundTrip.{
  RoundTrips, bind-RoundTrips, map-RoundTrips, nested_then-RoundTrips, read_whole-RoundTrips,
}
use pure_mls.Wire.Counted.{read_count-RoundTrips}
use pure_mls.Tls.Ints.RoundTrip.{tls_u32-RoundTrips}
use pure_mls.Tls.Opaque.RoundTrip.{tls_opaque-RoundTrips}
use pure_mls.Node.KeyPackage as KeyPackage
use pure_mls.Node.KeyPackage.RoundTrip as KeyPackageLaws
use pure_mls.Group.Path.{
  HpkeCiphertext, ciphertext_bytes, read_ciphertext, UpdatePathNode, node_bytes, read_node,
  UpdatePath, to_bytes, from_bytes_at,
}

ciphertext_bytes-RoundTrips :
    (c : HpkeCiphertext) → RoundTrips read_ciphertext (ciphertext_bytes c) c
unfolding read_ciphertext ciphertext_bytes
ciphertext_bytes-RoundTrips c =
    bind-RoundTrips _ (tls_opaque-RoundTrips c.kem_output)
      (map-RoundTrips _ (tls_opaque-RoundTrips c.ciphertext))

map_same {ℓ} : {A : Type ℓ} (xs : List A) → map (λ x. x) xs ≡ xs
map_same [] = refl
map_same (x ∷ xs) = ap (λ t. x ∷ t) (map_same xs)

node_bytes-RoundTrips : (n : UpdatePathNode) → RoundTrips read_node (node_bytes n) n
unfolding read_node node_bytes
node_bytes-RoundTrips n =
    let secrets = n.encrypted_path_secret in
    bind-RoundTrips _ (tls_opaque-RoundTrips n.new_public_key) (
      bind-RoundTrips _ (tls_u32-RoundTrips (length secrets)) (
        map-RoundTrips _ (
          subst
            (RoundTrips (read_count read_ciphertext (length secrets))
              (join ciphertext_bytes secrets))
            (map_same secrets)
            (read_count-RoundTrips read_ciphertext ciphertext_bytes (λ c. c)
              ciphertext_bytes-RoundTrips secrets))))

abbrev pub on_the_wire : UpdatePath → UpdatePath
on_the_wire u = record u { leaf_key_package = KeyPackageLaws.on_the_wire u.leaf_key_package }

pub to_bytes-RoundTrips : (u : UpdatePath) → RoundTrips from_bytes_at (to_bytes u) (on_the_wire u)
unfolding from_bytes_at to_bytes KeyPackage.from_bytes
to_bytes-RoundTrips u =
    nested_then-RoundTrips (KeyPackage.to_bytes u.leaf_key_package) KeyPackage.from_bytes _
      tls_opaque-RoundTrips
      (λ d h. rw (read_whole-RoundTrips (KeyPackageLaws.to_bytes-RoundTrips u.leaf_key_package) h))
      (bind-RoundTrips _ (tls_u32-RoundTrips (length u.nodes)) (
        map-RoundTrips _ (
          subst (RoundTrips (read_count read_node (length u.nodes)) (join node_bytes u.nodes))
            (map_same u.nodes)
            (read_count-RoundTrips read_node node_bytes (λ n. n) node_bytes-RoundTrips u.nodes))))

-- An update path is read as it was written, wherever it stands in a buffer, up to the fields of its
-- leaf that are not on the wire.
pub from_bytes_at-to_bytes_path :
    (u : UpdatePath) (e pre rest : Bytes)
    → to_bytes u ≡ ok e
    → from_bytes_at (pre ++ (e ++ rest)) (length pre) ≡ ok (on_the_wire u, length pre + length e)
from_bytes_at-to_bytes_path u e pre rest h = (to_bytes-RoundTrips u).decodes e h pre rest
