-- ===== src/Examples/Trees.antt =====
-- The theorems on leaves, key packages, trees, proposals and dialects at concrete inputs.
use pure_mls.Prelude.{
  ◌≢◌, err, out_of_fuel, ℕ, ◌+◌, ◌*◌, ◌^◌, ◌≤◌, ◌<◌, ◌≡◌, ◌⊎◌, refl, arith, Bytes, List, [], ◌∷◌,
  ◌++◌, length, replicate, none, some, ok, join, false,
}
use pure_mls.Examples.{toy, some_bytes}
use pure_mls.Tls.Ints.{pack, to_be, int_to_bytes, tls_u8, tls_u16, tls_u32, tls_u64}
use pure_mls.Tls.Opaque.{tls_opaque, tls_varint}
use pure_mls.Tls.Extension.{tls_extensions}
use pure_mls.Capabilities.{Capabilities, default, marshal, tls_vec_varint}
use pure_mls.Capabilities as Capabilities
use pure_mls.Capabilities.RoundTrip.{from_bytes_at-marshal}
use pure_mls.Node.Credential as Credential
use pure_mls.Node.Leaf as Leaf
use pure_mls.Node.Leaf.{LeafNode}
use pure_mls.Node.Leaf.Signing.{Signs}
use pure_mls.Node.KeyPackage as KeyPackage
use pure_mls.Node.KeyPackage.{KeyPackage}
use pure_mls.Node.KeyPackage.RoundTrip as KeyPackageLaws
use pure_mls.Node.KeyPackage.Signing as KeyPackageSigning
use pure_mls.TreeMath.{parent}
use pure_mls.TreeMath.Parent.{parent-node}
use pure_mls.Tree.{RatchetTree, leaf, direct_path, copath, next_pow2}
use pure_mls.Tree.Paths.{IsFull, direct_path-leaf, copath-leaf}
use pure_mls.Tree.Pow2.{next_pow2-least}
use pure_mls.Tree.Wire as TreeWire
use pure_mls.Tree.Wire.RoundTrip as TreeLaws
use pure_mls.Proposals as Proposals
use pure_mls.Proposals.{Proposal, psk_proposal, ProposalOrRef, Commit, commit_bytes, read_commit}
use pure_mls.Proposals.RoundTrip as ProposalLaws
use pure_mls.Codecs.{cisco, initial, register_dialect, get_dialect, with_length}
use pure_mls.Codecs.RoundTrip.{is_cisco, decode_vector-encode_vector, get_dialect-register_dialect}

default_written : (e : Bytes) × (marshal default ≡ ok e)
unfolding marshal tls_vec_varint tls_varint tls_u16 pack to_be join
default_written = (_, refl)

from_bytes_at-marshal_example :
    Capabilities.from_bytes_at ((9 ∷ []) ++ (default_written.0 ++ [])) 1
    ≡ ok (default, 1 + length default_written.0)
from_bytes_at-marshal_example =
    from_bytes_at-marshal default default_written.0 (9 ∷ []) [] default_written.1

abbrev key_of : ℕ → Bytes
key_of n = replicate 32 n

abbrev alice : LeafNode
alice = Leaf.new_leaf (key_of 1) (key_of 2) some_bytes

abbrev always : Bytes → Bytes
always tbs = 5 ∷ []

toy-Signs : Signs toy (key_of 2) always
toy-Signs = record { loads = refl; nonempty = λ tbs. omega arith; accepts = λ tbs. refl }

abbrev package_of_alice : KeyPackage
package_of_alice = record {
  leaf_node = alice;
  init_key_pub = key_of 3;
  leaf_node_signature = some_bytes;
}

package_written : (e : Bytes) × (KeyPackage.to_bytes package_of_alice ≡ ok e)
unfolding KeyPackage.to_bytes Leaf.to_bytes Leaf.source_block Credential.to_bytes marshal
    tls_vec_varint tls_extensions tls_opaque tls_varint tls_u8 tls_u16 tls_u64 int_to_bytes pack
    to_be join
package_written = (_, refl)

from_bytes_at-to_bytes_package_example :
    KeyPackage.from_bytes_at ((9 ∷ []) ++ (package_written.0 ++ [])) 1
    ≡ ok (KeyPackageLaws.on_the_wire package_of_alice, 1 + length package_written.0)
from_bytes_at-to_bytes_package_example =
    KeyPackageLaws.from_bytes_at-to_bytes_package package_of_alice package_written.0 (9 ∷ []) []
      package_written.1

package_created :
    (kp : KeyPackage) × (KeyPackage.create (key_of 1) (key_of 3) (key_of 2) some_bytes always
      ≡ ok kp)
unfolding KeyPackage.create KeyPackage.tbs_bytes Leaf.create Leaf.sign Leaf.tbs_bytes Leaf.to_bytes
    Leaf.source_block Credential.to_bytes marshal tls_vec_varint tls_extensions tls_opaque
    tls_varint tls_u8 tls_u16 tls_u32 tls_u64 int_to_bytes pack to_be join
package_created = (_, refl)

verify_signature-create_example : KeyPackage.verify_signature toy package_created.0 ≡ ok tt
verify_signature-create_example =
    KeyPackageSigning.verify_signature-create toy (key_of 1) (key_of 3) (key_of 2) some_bytes always
      toy-Signs package_created.1

abbrev two_leaves : RatchetTree
two_leaves = record { num_leaves = 2; nodes = some (leaf alice) ∷ none ∷ none ∷ []; frozen = false }

two_leaves-IsFull : IsFull 1 two_leaves
two_leaves-IsFull = record { leaves = refl; size = refl }

tree_written : (e : Bytes) × (TreeWire.to_bytes two_leaves ≡ ok e)
unfolding TreeWire.to_bytes TreeWire.node_bytes Leaf.to_bytes Leaf.source_block Credential.to_bytes
    marshal tls_vec_varint tls_extensions tls_opaque tls_varint tls_u8 tls_u16 tls_u64 int_to_bytes
    pack to_be join
tree_written = (_, refl)

from_bytes_at-to_bytes_example :
    TreeWire.from_bytes_at ((9 ∷ []) ++ (tree_written.0 ++ [])) 1
    ≡ ok (TreeLaws.on_the_wire two_leaves, 1 + length tree_written.0)
from_bytes_at-to_bytes_example =
    TreeLaws.from_bytes_at-to_bytes two_leaves 1 tree_written.0 (9 ∷ []) [] two_leaves-IsFull
      tree_written.1

abbrev eight_leaves : RatchetTree
eight_leaves = record { num_leaves = 8; nodes = replicate 15 none; frozen = false }

eight_leaves-IsFull : IsFull 3 eight_leaves
eight_leaves-IsFull = record { leaves = refl; size = refl }

direct_path-leaf_example : direct_path eight_leaves 10 ≡ ok (9 ∷ 11 ∷ 7 ∷ [])
direct_path-leaf_example =
    direct_path-leaf eight_leaves 3 5 eight_leaves-IsFull (omega arith) (omega arith)

copath-leaf_example : copath eight_leaves 10 ≡ ok (some 8 ∷ some 13 ∷ some 3 ∷ [])
copath-leaf_example = copath-leaf eight_leaves 3 5 eight_leaves-IsFull (omega arith) (omega arith)

parent-node_example : parent 8 9 ≡ ok 11
parent-node_example = parent-node 1 1 2 (omega arith) (omega arith)

next_pow2-least_example :
    (k : ℕ) × ((next_pow2 5 ≡ 2 ^ k)
      × (5 ≤ next_pow2 5)
      × ((next_pow2 5 < 2 * 5) ⊎ (next_pow2 5 ≡ 1)))
next_pow2-least_example = next_pow2-least 5

abbrev psk : Proposal
psk = psk_proposal some_bytes (7 ∷ [])

psk_written : (e : Bytes) × (Proposals.to_bytes psk ≡ ok e)
unfolding Proposals.to_bytes Proposals.psk_id_wire tls_opaque tls_varint tls_u16 pack to_be
psk_written = (_, refl)

from_bytes_at-to_bytes_proposal_example :
    Proposals.from_bytes_at ((9 ∷ []) ++ (psk_written.0 ++ [])) 1
    ≡ ok (psk, 1 + length psk_written.0)
from_bytes_at-to_bytes_proposal_example =
    ProposalLaws.from_bytes_at-to_bytes_proposal psk psk_written.0 (9 ∷ []) [] psk_written.1

abbrev commit : Commit
commit = record {
  proposals =
      record { value = some some_bytes; reference = none }
      ∷ record { value = none; reference = some (4 ∷ []) }
      ∷ [];
  update_path_bytes = some (6 ∷ []);
}

commit_written : (e : Bytes) × (commit_bytes commit ≡ ok e)
unfolding commit_bytes Proposals.or_ref_bytes Proposals.optional_bytes tls_opaque tls_varint join
commit_written = (_, refl)

read_commit-commit_bytes_example :
    read_commit ((9 ∷ []) ++ (commit_written.0 ++ [])) 1 ≡ ok (commit, 1 + length commit_written.0)
read_commit-commit_bytes_example =
    ProposalLaws.read_commit-commit_bytes commit commit_written.0 (9 ∷ []) [] commit_written.1

abbrev items : List Bytes
items = some_bytes ∷ (4 ∷ []) ∷ []

abbrev items_written : Bytes
items_written = 0 ∷ 4 ∷ 1 ∷ 2 ∷ 3 ∷ 4 ∷ []

items_encoded : cisco.encode_vector items ≡ ok items_written
unfolding with_length tls_u16 pack to_be
items_encoded = refl

decode_vector-encode_vector_example :
    cisco.decode_vector ((9 ∷ []) ++ (items_written ++ [])) 1 ≡ ok ((1 ∷ 2 ∷ 3 ∷ 4 ∷ []) ∷ [], 7)
decode_vector-encode_vector_example =
    decode_vector-encode_vector cisco items items_written (9 ∷ []) [] is_cisco items_encoded

get_dialect-register_dialect_example :
    get_dialect (register_dialect initial cisco) cisco.name ≡ ok cisco
get_dialect-register_dialect_example = get_dialect-register_dialect initial cisco

parse-ends_example : TreeWire.parse (1 ∷ 1 ∷ 0 ∷ 1 ∷ []) ≢ err out_of_fuel
parse-ends_example = TreeLaws.parse-ends (1 ∷ 1 ∷ 0 ∷ 1 ∷ [])
