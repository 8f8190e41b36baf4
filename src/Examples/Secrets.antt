-- ===== src/Examples/Secrets.antt =====
-- The theorems on the key schedule, the epochs and the secret tree at concrete inputs.
use pure_mls.Prelude.{
  ◌+◌, ◌≡◌, refl, arith, Bytes, [], ◌∷◌, ◌++◌, length, replicate, none, some, ok, err, bind,
  value_error, true, join,
}
use pure_mls.Examples.{toy, toy-HasDigestSize, some_bytes}
use pure_mls.KeySchedule.{
  PreSharedKeyId, KeySchedule, derive, derive_confirmation_key, derive_epoch_secret,
  from_epoch_secret, psk_secret, psk_rounds, psk_id_bytes, external_bytes, opaque, read_psk_id,
}
use pure_mls.Hkdf.{
  derive_secret, expand_with_label, hkdf_label, hkdf_expand, expand_rounds, varint_encode,
}
use pure_mls.Tls.Ints.{int_to_bytes, pack, to_be}
use pure_mls.Tls.Opaque.{tls_varint}
use pure_mls.TreeMath.{bit_length, bit_length_loop, level_loop, bit_at}
use pure_mls.Tree.{RatchetTree, leaf}
use pure_mls.Node.Leaf.{new_leaf}
use pure_mls.Tree.Paths.{IsFull}
use pure_mls.Tree.Wire as TreeWire
use pure_mls.Epoch as Epoch
use pure_mls.Epoch.{EpochState}
use pure_mls.Epoch.RoundTrip as EpochLaws
use pure_mls.KeySchedule as Schedule
use pure_mls.KeySchedule.Psk as Psk
use pure_mls.KeySchedule.Derive.{derive_confirmation_key-derive, derive-HasSizes}
use pure_mls.KeySchedule.RoundTrip.{HasSizes, from_bytes-to_bytes_secrets}
use pure_mls.SecretTree.{
  SecretTree, application, handshake, new, get_ratchet_secret, get_key_and_nonce, next_generation,
  get_key_and_nonce_for_gen, key_and_nonce, from_tip, first_secret, derive_leaf_node_secret, down,
  get_path, climb, left, parent, reparent, parent_step, root, level, log2, ratchet,
}
use pure_mls.TreeMath as TreeMath
use pure_mls.SecretTree.Root.{root_agrees}
use pure_mls.SecretTree.Ratchet.{
  reference, IsCoherent, get_ratchet_secret-reference, get_ratchet_secret-forgets, IsAhead,
}
use pure_mls.SecretTree.Coherence.{new-IsCoherent, get_ratchet_secret-IsCoherent}
use pure_mls.SecretTree.Sender.{get_key_and_nonce-counts}

abbrev external : PreSharedKeyId
external = record {
  psk_type = 1;
  psk_id = some_bytes;
  psk_nonce = 8 ∷ [];
  usage = 0;
  psk_group_id = [];
  psk_epoch = 0;
}

derive_confirmation_key-derive_example :
    derive_confirmation_key toy some_bytes some_bytes some_bytes ((external, some_bytes) ∷ [])
    ≡ bind
        (derive toy some_bytes some_bytes some_bytes ((external, some_bytes) ∷ []))
        (λ k. ok k.confirmation_key)
derive_confirmation_key-derive_example =
    derive_confirmation_key-derive toy some_bytes some_bytes some_bytes
      ((external, some_bytes) ∷ [])

abbrev secret : Bytes
secret = replicate 32 7

abbrev stored : KeySchedule
stored = record {
  joiner_secret = secret;
  epoch_secret = secret;
  sender_data_secret = secret;
  encryption_secret = secret;
  exporter_secret = secret;
  epoch_authenticator = secret;
  external_secret = secret;
  resumption_psk_secret = secret;
  confirmation_key = replicate 32 8;
  membership_key = secret;
  init_secret = replicate 32 9;
}

stored-HasSizes : HasSizes stored
stored-HasSizes =
    (refl, (refl, (refl, (refl, (refl, (refl, (refl, (refl, (refl, (refl, (refl, tt)))))))))))

from_bytes-to_bytes_secrets_example : Schedule.from_bytes (Schedule.to_bytes stored) ≡ ok stored
from_bytes-to_bytes_secrets_example = from_bytes-to_bytes_secrets stored stored-HasSizes

abbrev fresh : SecretTree
fresh = new some_bytes 2

fresh-IsCoherent : IsCoherent toy fresh
fresh-IsCoherent = new-IsCoherent toy some_bytes 2

derived : (k : KeySchedule) × (derive toy some_bytes some_bytes some_bytes [] ≡ ok k)
unfolding derive derive_epoch_secret from_epoch_secret psk_secret psk_rounds derive_secret
    expand_with_label hkdf_label hkdf_expand expand_rounds varint_encode int_to_bytes
derived = (_, refl)

derive-HasSizes_example : HasSizes derived.0
derive-HasSizes_example =
    derive-HasSizes toy some_bytes some_bytes some_bytes [] derived.0 toy-HasDigestSize derived.1

external_written : (e : Bytes) × (psk_id_bytes external ≡ ok e)
unfolding psk_id_bytes external_bytes opaque varint_encode pack to_be
external_written = (_, refl)

read_psk_id-psk_id_bytes_example :
    read_psk_id ((9 ∷ []) ++ (external_written.0 ++ [])) 1
    ≡ ok (external, 1 + length external_written.0)
read_psk_id-psk_id_bytes_example =
    Psk.read_psk_id-psk_id_bytes external external_written.0 (9 ∷ []) [] external_written.1

-- The third generation of the second leaf.
third : (r : Bytes × SecretTree) × (get_ratchet_secret toy fresh 1 3 application ≡ ok r)
unfolding new get_ratchet_secret from_tip first_secret derive_leaf_node_secret down get_path climb
    left parent reparent parent_step root level log2 bit_length bit_length_loop level_loop bit_at
    ratchet expand_with_label hkdf_label hkdf_expand expand_rounds varint_encode int_to_bytes pack
    to_be
third = (_, refl)

get_ratchet_secret-reference_example :
    bind (get_ratchet_secret toy fresh 1 3 application) (λ r. ok r.0)
    ≡ reference toy fresh 1 3 application
unfolding new IsAhead
get_ratchet_secret-reference_example =
    get_ratchet_secret-reference toy fresh 1 3 application fresh-IsCoherent tt

get_ratchet_secret-IsCoherent_example : IsCoherent toy third.0.1
unfolding new IsAhead
get_ratchet_secret-IsCoherent_example =
    get_ratchet_secret-IsCoherent toy fresh 1 3 application third.0.0 third.0.1 fresh-IsCoherent tt
      third.1

get_ratchet_secret-forgets_example :
    get_ratchet_secret toy third.0.1 1 2 application ≡ err value_error
get_ratchet_secret-forgets_example =
    get_ratchet_secret-forgets toy fresh 1 2 3 application third.0.0 third.0.1 third.1 (omega arith)

abbrev KeyNonceTree : Type 0
KeyNonceTree = Bytes × (Bytes × SecretTree)

first_key :
    (r : KeyNonceTree) × (get_key_and_nonce toy fresh 1 handshake ≡ (ok (r.0, (r.1.0, 0)), r.1.1))
unfolding new next_generation get_key_and_nonce get_key_and_nonce_for_gen key_and_nonce
    get_ratchet_secret from_tip first_secret derive_leaf_node_secret down get_path climb left parent
    reparent parent_step root level log2 bit_length bit_length_loop level_loop bit_at ratchet
    expand_with_label hkdf_label hkdf_expand expand_rounds varint_encode int_to_bytes pack to_be
first_key = ((_, (_, _)), refl)

get_key_and_nonce-counts_example :
    (0 ≡ next_generation fresh 1) × (next_generation first_key.0.1.1 1 ≡ 1)
get_key_and_nonce-counts_example =
    get_key_and_nonce-counts toy fresh 1 0 handshake first_key.0.0 first_key.0.1.0 first_key.0.1.1
      first_key.1

abbrev blank_tree : RatchetTree
blank_tree = record { num_leaves = 2; nodes = none ∷ none ∷ none ∷ []; frozen = true }

abbrev epoch_two : EpochState
epoch_two = record { group_id = some_bytes; epoch_id = 2; tree = blank_tree; key_schedule = stored }

-- The tree has a leaf without a lifetime, which is loaded with a lifetime of zeros.
abbrev member_tree : RatchetTree
member_tree = record {
  num_leaves = 2;
  nodes = some (leaf (new_leaf some_bytes secret some_bytes)) ∷ none ∷ none ∷ [];
  frozen = true;
}

abbrev epoch_with_member : EpochState
epoch_with_member = record epoch_two { tree = member_tree }

epoch_with_member_written : (e : Bytes) × (Epoch.to_bytes epoch_with_member ≡ ok e)
unfolding Epoch.to_bytes TreeWire.to_bytes TreeWire.node_bytes Schedule.to_bytes tls_varint
    int_to_bytes to_be join pure_mls.Node.Leaf.to_bytes pure_mls.Node.Leaf.source_block
    pure_mls.Node.Credential.to_bytes pure_mls.Capabilities.marshal
    pure_mls.Capabilities.tls_vec_varint pure_mls.Tls.Extension.tls_extensions
    pure_mls.Tls.Opaque.tls_opaque pure_mls.Tls.Ints.tls_u8 pure_mls.Tls.Ints.tls_u16
    pure_mls.Tls.Ints.tls_u64 pack
epoch_with_member_written = (_, refl)

member_tree-IsFull : IsFull 1 member_tree
member_tree-IsFull = record { leaves = refl; size = refl }

from_bytes-to_bytes_stored_example :
    Epoch.from_bytes epoch_with_member_written.0 ≡ ok (EpochLaws.on_the_wire epoch_with_member)
from_bytes-to_bytes_stored_example =
    EpochLaws.from_bytes-to_bytes_stored epoch_with_member 1 epoch_with_member_written.0
      member_tree-IsFull stored-HasSizes epoch_with_member_written.1

epoch_three :
    (next : EpochState) × (Epoch.advance_epoch toy epoch_two some_bytes blank_tree some_bytes []
      ≡ ok next)
unfolding Epoch.advance_epoch derive derive_epoch_secret from_epoch_secret psk_secret psk_rounds
    derive_secret expand_with_label hkdf_label hkdf_expand expand_rounds varint_encode int_to_bytes
epoch_three = (_, refl)

advance_epoch-confirmed_example :
    (epoch_three.0.group_id ≡ some_bytes)
    × (epoch_three.0.epoch_id ≡ 2 + 1)
    × (derive_confirmation_key toy (replicate 32 9) some_bytes some_bytes []
        ≡ ok epoch_three.0.key_schedule.confirmation_key)
advance_epoch-confirmed_example =
    EpochLaws.advance_epoch-confirmed toy epoch_two epoch_three.0 some_bytes some_bytes blank_tree
      [] epoch_three.1

root_agrees_example : root 6 ≡ TreeMath.root 6
root_agrees_example = root_agrees 6
