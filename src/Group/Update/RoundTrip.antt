-- ===== src/Group/Update/RoundTrip.antt =====
-- The wire form of `GroupUpdate` of src/pure_mls/group.py; `on_the_wire` is what is left of a commit behind it.
use pure_mls.Prelude.{
  ℕ, ◌≡◌, sym, ap, ◌∙◌, Bytes, [], ◌∷◌, ◌++◌, append-nil, append_assoc, length, Option, none, some,
  ok, bind, ◌⊕◌, ⊕_assoc, ⊕_nil, join, subst,
}
use pure_mls.Wire.Reader.{◌>>=◌, pure}
use pure_mls.Wire.RoundTrip.{
  RoundTrips, bind-RoundTrips, map-RoundTrips, pure-RoundTrips, assoc-RoundTrips,
  nested_then-RoundTrips, read_whole-RoundTrips,
}
use pure_mls.Tls.Ints.{tls_u32, tls_u64, byte_at}
use pure_mls.Tls.Ints.RoundTrip.{tls_u32-RoundTrips, tls_u64-RoundTrips}
use pure_mls.Tls.Opaque.{tls_opaque, tls_opaque32}
use pure_mls.Tls.Opaque.RoundTrip.{tls_opaque-RoundTrips, tls_opaque32-RoundTrips}
use pure_mls.Proposals.RoundTrip.{byte-RoundTrips}
use pure_mls.Tree.Paths.{IsFull}
use pure_mls.Tree.Wire as TreeWire
use pure_mls.Tree.Wire.RoundTrip as TreeLaws
use pure_mls.Group.Path as PathWire
use pure_mls.Group.Path.{UpdatePath}
use pure_mls.Group.Path.RoundTrip as PathLaws
use pure_mls.Group.Dict.{Dict, sort, item_leb}
use pure_mls.Group.Dict.Distinct.{DistinctKeys, sort-DistinctKeys, length-sort, dict_set_fresh}
use pure_mls.Group.Update.{
  GroupUpdate, new, item_bytes, optional_path, body_bytes, to_bytes, read_items, parse_path,
  read_path, read_update, from_bytes,
}

items-RoundTrips :
    (done xs : Dict)
    → DistinctKeys (done ++ xs)
    → RoundTrips (read_items (length xs) done) (join item_bytes xs) (done ++ xs)
unfolding read_items join item_bytes
items-RoundTrips done [] d =
    subst (λ v. RoundTrips (pure done) (ok []) v) (sym (append-nil done)) (pure-RoundTrips done)
items-RoundTrips done (kv ∷ xs) d =
    let set = dict_set_fresh done kv xs d in
    let next = append_assoc done (kv ∷ []) xs in
    subst (λ m. RoundTrips (read_items (length (kv ∷ xs)) done) m (done ++ (kv ∷ xs)))
      (sym (⊕_assoc (tls_opaque kv.0) (tls_opaque kv.1) (join item_bytes xs)))
      (bind-RoundTrips _ (tls_opaque-RoundTrips kv.0) (
        bind-RoundTrips _ (tls_opaque-RoundTrips kv.1) (
          subst
            (λ s. RoundTrips (read_items (length xs) s) (join item_bytes xs) (done ++ (kv ∷ xs)))
            (sym set)
            (subst
              (λ v. RoundTrips (read_items (length xs) (done ++ (kv ∷ []))) (join item_bytes xs) v)
              next (items-RoundTrips (done ++ (kv ∷ [])) xs (subst DistinctKeys (sym next) d))))))

abbrev pub path_on_the_wire : Option UpdatePath → Option UpdatePath
path_on_the_wire none = none
path_on_the_wire (some path) = some (PathLaws.on_the_wire path)

path-RoundTrips :
    (o : Option UpdatePath)
    → RoundTrips (byte_at >>= read_path) (optional_path o) (path_on_the_wire o)
unfolding read_path optional_path parse_path
path-RoundTrips none = bind-RoundTrips read_path (byte-RoundTrips 0x00) (pure-RoundTrips none)
path-RoundTrips (some path) = bind-RoundTrips read_path (byte-RoundTrips 0x01) (
    subst (λ m. RoundTrips (read_path 0x01) m (some (PathLaws.on_the_wire path)))
      (⊕_nil (bind (PathWire.to_bytes path) tls_opaque32))
      (nested_then-RoundTrips (PathWire.to_bytes path) parse_path _ tls_opaque32-RoundTrips
        (λ d h. rw (read_whole-RoundTrips (PathLaws.to_bytes-RoundTrips path) h))
        (pure-RoundTrips (some (PathLaws.on_the_wire path)))))

-- What the wire keeps of a commit: the secrets come back in the order of their keys, and the group and
-- the epoch's keys are not on the wire.
abbrev pub on_the_wire : GroupUpdate → GroupUpdate
on_the_wire u =
    new u.epoch_id (TreeLaws.on_the_wire u.tree) (sort item_leb u.encrypted_commit_secrets)
      u.committer_index u.signature [] (path_on_the_wire u.update_path)

flat :
    (u : GroupUpdate)
    → to_bytes u ≡ (
        tls_u64 u.epoch_id
        ⊕ bind (TreeWire.to_bytes u.tree) tls_opaque32
        ⊕ tls_u32 (length u.encrypted_commit_secrets)
        ⊕ join item_bytes (sort item_leb u.encrypted_commit_secrets)
        ⊕ tls_u32 u.committer_index
        ⊕ optional_path u.update_path
        ⊕ tls_opaque u.signature)
unfolding to_bytes body_bytes
flat u =
    let epoch = tls_u64 u.epoch_id in
    let tree = bind (TreeWire.to_bytes u.tree) tls_opaque32 in
    let count = tls_u32 (length u.encrypted_commit_secrets) in
    let items = join item_bytes (sort item_leb u.encrypted_commit_secrets) in
    let committer = tls_u32 u.committer_index in
    let path = optional_path u.update_path in
    let sig = tls_opaque u.signature in
    ⊕_assoc epoch (tree ⊕ count ⊕ items ⊕ committer ⊕ path) sig
    ∙ ap (λ m. epoch ⊕ m)
        (⊕_assoc tree (count ⊕ items ⊕ committer ⊕ path) sig
          ∙ ap (λ m. tree ⊕ m)
              (⊕_assoc count (items ⊕ committer ⊕ path) sig
                ∙ ap (λ m. count ⊕ m)
                    (⊕_assoc items (committer ⊕ path) sig
                      ∙ ap (λ m. items ⊕ m) (⊕_assoc committer path sig))))

secrets-RoundTrips :
    (xs : Dict)
    → DistinctKeys xs
    → RoundTrips (read_items (length xs) []) (join item_bytes (sort item_leb xs)) (sort item_leb xs)
secrets-RoundTrips xs d =
    subst
      (λ n. RoundTrips (read_items n []) (join item_bytes (sort item_leb xs)) (sort item_leb xs))
      (length-sort item_leb xs)
      (items-RoundTrips [] (sort item_leb xs) (sort-DistinctKeys item_leb xs d))

pub to_bytes-RoundTrips :
    (u : GroupUpdate) (d : ℕ)
    → IsFull d u.tree
    → DistinctKeys u.encrypted_commit_secrets
    → RoundTrips read_update (to_bytes u) (on_the_wire u)
unfolding read_update
to_bytes-RoundTrips u d f k =
    subst (λ m. RoundTrips read_update m (on_the_wire u)) (sym (flat u))
      (bind-RoundTrips _ (tls_u64-RoundTrips u.epoch_id) (
        nested_then-RoundTrips (TreeWire.to_bytes u.tree) TreeWire.from_bytes _
          tls_opaque32-RoundTrips (λ b h. TreeLaws.from_bytes-to_bytes u.tree d b f h)
          (bind-RoundTrips _ (tls_u32-RoundTrips (length u.encrypted_commit_secrets)) (
            bind-RoundTrips _ (secrets-RoundTrips u.encrypted_commit_secrets k) (
              bind-RoundTrips _ (tls_u32-RoundTrips u.committer_index) (
                assoc-RoundTrips byte_at read_path _ (
                  bind-RoundTrips _ (path-RoundTrips u.update_path)
                    (map-RoundTrips _ (tls_opaque-RoundTrips u.signature)))))))))

-- A commit whose tree's array is full and whose secrets have distinct keys is read as it was written,
-- whatever stands behind it: with its epoch, its committer, its signature, its secrets in the order of their
-- keys, and its tree and its path up to the leaf fields that are not on the wire.
pub from_bytes-to_bytes_commit :
    (u : GroupUpdate) (d : ℕ) (e rest : Bytes)
    → IsFull d u.tree
    → DistinctKeys u.encrypted_commit_secrets
    → to_bytes u ≡ ok e
    → from_bytes (e ++ rest) ≡ ok (on_the_wire u)
unfolding from_bytes
from_bytes-to_bytes_commit u d e rest f k h = rw ((to_bytes-RoundTrips u d f k).decodes e h [] rest)
