-- ===== src/Examples/Groups.antt =====
-- The theorems on groups, messages and hybrid encryption at concrete inputs. The ciphers are far from
-- secure: what is encrypted is itself, and every exchange gives the same secret.
use pure_mls.Prelude.{
  ℕ, ◌+◌, ◌*◌, ◌≡◌, refl, sym, ap, arith, inr, ok-injective, true, false, Bytes, [], ◌∷◌, ◌++◌,
  length, replicate, none, some, Result, ok, err, bind, value_error,
}
use pure_mls.Examples.{toy, some_bytes}
use pure_mls.Ciphers.{Ciphers, Agrees, Decrypts}
use pure_mls.Keys as Keys
use pure_mls.Keys.{SignatureKey, KemKey, new_signature_key, new_kem_key}
use pure_mls.Group.State as State
use pure_mls.Group.State.{MlsGroup}
use pure_mls.Node.Leaf as Leaf
use pure_mls.Node.Leaf.{LeafNode}
use pure_mls.Node.Leaf.Signing.{Signs}
use pure_mls.Tree.{RatchetTree, leaf}
use pure_mls.KeySchedule.{KeySchedule}
use pure_mls.Epoch.{EpochState}
use pure_mls.Group.Update.{GroupUpdate}
use pure_mls.Group.Commit.{Fresh, Pathed, Committed, make_path, finish}
use pure_mls.Group.Receive.{taken_up, processed, process_update}
use pure_mls.Group.Receive.Agreement.{taken_up-finish}
use pure_mls.Group.Receive.Refusal.{process_update-refused}
use pure_mls.Group.Receive.Guards.{signed_content, process_update-accepted}
use pure_mls.Tree.{get_node}
use pure_mls.Group.Member.Replay.{add_member-replayed}
use pure_mls.Group.Context.{make_kp_ref}
use pure_mls.Node.KeyPackage.{of_leaf}
use pure_mls.Hpke.{seal, hpke_open, xor_nonce}
use pure_mls.Hpke.Opening.{hpke_open-seal}
use pure_mls.Hpke.Nonce.{xor_nonce-injective}
use pure_mls.Group.Member.Epochs.{by_update, by_commit, here, then, Steps-epochs}
use pure_mls.Group.Member.{update_key, add_member}

abbrev pub toy_ciphers : Ciphers
toy_ciphers = record {
  x25519_public = λ key. replicate 32 9;
  x25519_exchange = λ key peer. ok (replicate 32 5);
  ed25519_public = λ key. replicate 32 8;
  ed25519_sign = λ key message. replicate 64 1;
  aes_gcm_encrypt = λ key nonce plaintext aad. ok plaintext;
  aes_gcm_decrypt = λ key nonce ciphertext aad. ok ciphertext;
}

abbrev pub sig_key : SignatureKey
sig_key = new_signature_key toy_ciphers (replicate 32 1)

abbrev pub kem_key : KemKey
kem_key = new_kem_key toy_ciphers (replicate 32 2)

abbrev pub drawn : Fresh
drawn = record {
  leaf_path_secret = replicate 32 3;
  leaf_key = kem_key;
  init_key = kem_key;
  path_key = λ i j. kem_key;
  secret_key = λ i. kem_key;
  welcome_key = kem_key;
}

abbrev alice : LeafNode
alice = record (Leaf.new_leaf (replicate 32 9) (replicate 32 8) some_bytes) {
  signature = some_bytes;
}

abbrev pub two_members : RatchetTree
two_members = record {
  num_leaves = 2;
  nodes = some (leaf alice) ∷ none ∷ some (leaf alice) ∷ [];
  frozen = true;
}

abbrev pub secret : Bytes
secret = replicate 32 7

abbrev secrets : KeySchedule
secrets = record {
  joiner_secret = secret;
  epoch_secret = secret;
  sender_data_secret = secret;
  encryption_secret = secret;
  exporter_secret = secret;
  epoch_authenticator = secret;
  external_secret = secret;
  resumption_psk_secret = secret;
  confirmation_key = secret;
  membership_key = secret;
  init_secret = secret;
}

abbrev pub epoch_four : EpochState
epoch_four = record {
  group_id = some_bytes;
  epoch_id = 4;
  tree = two_members;
  key_schedule = secrets;
}

abbrev pub member : ℕ → MlsGroup
member i = record {
  state = epoch_four;
  my_index = i;
  my_sig_key = sig_key;
  my_kem_key = kem_key;
  secret_tree = none;
  interim_transcript_hash = [];
  consumed = [];
}

pub toy-Signs_group : Signs toy sig_key.public_bytes (Keys.sign toy_ciphers sig_key)
unfolding new_signature_key Keys.sign
toy-Signs_group = record { loads = refl; nonempty = λ tbs. omega arith; accepts = λ tbs. refl }

finished :
    (r : Pathed × Committed) × ((make_path toy toy_ciphers
          (member 0)
          drawn
          (record two_members { frozen = false })
        ≡ ok r.0)
      × (finish toy toy_ciphers (member 0) r.0 [] ≡ ok r.1))
unfolding Keys.from_secret Keys.sign Leaf.create Leaf.source_block Leaf.tbs_bytes Leaf.to_bytes
    finish make_path new_signature_key pure_mls.Capabilities.marshal
    pure_mls.Capabilities.tls_vec_varint pure_mls.Epoch.advance_epoch
    pure_mls.Group.Context.make_group_context pure_mls.Group.Context.to_bytes
    pure_mls.Group.Dict.sort pure_mls.Group.Framing.confirmed_input
    pure_mls.Group.Framing.confirmed_transcript_hash pure_mls.Group.Framing.framed_content_tbs
    pure_mls.Group.Path.ciphertext_bytes pure_mls.Group.Path.node_bytes pure_mls.Group.Path.to_bytes
    pure_mls.Group.Update.body_bytes pure_mls.Hkdf.derive_secret pure_mls.Hpke.seal
    pure_mls.KeySchedule.derive pure_mls.KeySchedule.derive_confirmation_key
    pure_mls.KeySchedule.psk_secret pure_mls.Node.Credential.to_bytes
    pure_mls.Node.KeyPackage.create pure_mls.Node.KeyPackage.tbs_bytes
    pure_mls.Node.KeyPackage.to_bytes pure_mls.Node.Parent.to_bytes pure_mls.Prelude.join
    pure_mls.Tls.Extension.tls_extensions pure_mls.Tls.Ints.tls_u16 pure_mls.Tls.Ints.tls_u64
    pure_mls.Tls.Ints.tls_u8 pure_mls.Tls.Opaque.tls_opaque pure_mls.Tls.Opaque.tls_opaque32
    pure_mls.Tree.Hash.compute_parent_hash pure_mls.Tree.Hash.leaf_input
    pure_mls.Tree.Hash.parent_input pure_mls.Tree.Hash.right_in_range
    pure_mls.Tree.Hash.subtree_hash pure_mls.Tree.Hash.tree_hash pure_mls.Tree.Hash.up_info
    pure_mls.Tree.Wire.node_bytes pure_mls.Tree.Wire.to_bytes pure_mls.Tree.copath
    pure_mls.Tree.direct_path pure_mls.Tree.get_node pure_mls.Tree.resolution pure_mls.Tree.set_leaf
    pure_mls.Tree.set_parent pure_mls.TreeMath.bit_at pure_mls.TreeMath.bit_length
    pure_mls.TreeMath.bit_length_loop pure_mls.TreeMath.level pure_mls.TreeMath.level_loop
    pure_mls.TreeMath.parent pure_mls.TreeMath.parent_step pure_mls.TreeMath.reparent
    pure_mls.TreeMath.root pure_mls.TreeMath.sibling
finished = ((_, _), (refl, refl))

taken_up-finish_example :
    taken_up toy (member 1) finished.0.1.update alice finished.0.0.commit_secret
    ≡ ok (State.new finished.0.1.next_state 1 sig_key kem_key finished.0.1.interim)
unfolding new_signature_key
taken_up-finish_example =
    taken_up-finish toy toy_ciphers (member 0) (member 1) finished.0.0 [] finished.0.1 alice
      toy-Signs_group refl refl refl finished.1.1

accepted :
    (r : (MlsGroup × (GroupUpdate × MlsGroup)) × (MlsGroup × MlsGroup)) × ((update_key toy
          toy_ciphers drawn
          (member 0)
        ≡ (ok (r.0.0, r.0.1.0), r.0.1.1))
      × (process_update toy toy_ciphers (member 1) r.0.1.0 ≡ (ok r.1.0, r.1.1)))
unfolding Keys.from_secret Keys.sign Leaf.create Leaf.source_block Leaf.tbs_bytes Leaf.to_bytes
    Leaf.verify_signature finish make_path new_signature_key process_update
    pure_mls.Capabilities.marshal pure_mls.Capabilities.tls_vec_varint pure_mls.Epoch.advance_epoch
    pure_mls.Group.Context.make_group_context pure_mls.Group.Context.make_kp_ref
    pure_mls.Group.Context.to_bytes pure_mls.Group.Dict.dict_set pure_mls.Group.Dict.sort
    pure_mls.Group.Framing.confirmed_input pure_mls.Group.Framing.confirmed_transcript_hash
    pure_mls.Group.Framing.framed_content_tbs pure_mls.Group.Path.ciphertext_bytes
    pure_mls.Group.Path.node_bytes pure_mls.Group.Path.to_bytes pure_mls.Group.Update.body_bytes
    pure_mls.Hkdf.derive_secret pure_mls.Hpke.hpke_open pure_mls.Hpke.seal
    pure_mls.KeySchedule.derive pure_mls.KeySchedule.derive_confirmation_key
    pure_mls.KeySchedule.psk_secret pure_mls.Node.Credential.to_bytes
    pure_mls.Node.KeyPackage.create pure_mls.Node.KeyPackage.tbs_bytes
    pure_mls.Node.KeyPackage.to_bytes pure_mls.Node.Parent.to_bytes pure_mls.Prelude.join
    pure_mls.Tls.Extension.tls_extensions pure_mls.Tls.Ints.tls_u16 pure_mls.Tls.Ints.tls_u64
    pure_mls.Tls.Ints.tls_u8 pure_mls.Tls.Opaque.tls_opaque pure_mls.Tls.Opaque.tls_opaque32
    pure_mls.Tree.Hash.compute_parent_hash pure_mls.Tree.Hash.leaf_input
    pure_mls.Tree.Hash.parent_input pure_mls.Tree.Hash.right_in_range
    pure_mls.Tree.Hash.subtree_hash pure_mls.Tree.Hash.tree_hash pure_mls.Tree.Hash.up_info
    pure_mls.Tree.Wire.node_bytes pure_mls.Tree.Wire.to_bytes pure_mls.Tree.copath
    pure_mls.Tree.direct_path pure_mls.Tree.get_node pure_mls.Tree.new pure_mls.Tree.resolution
    pure_mls.Tree.set_leaf pure_mls.Tree.set_parent pure_mls.TreeMath.bit_at
    pure_mls.TreeMath.bit_length pure_mls.TreeMath.bit_length_loop pure_mls.TreeMath.level
    pure_mls.TreeMath.level_loop pure_mls.TreeMath.parent pure_mls.TreeMath.parent_step
    pure_mls.TreeMath.reparent pure_mls.TreeMath.root pure_mls.TreeMath.sibling update_key
accepted = (((_, (_, _)), (_, _)), (refl, refl))

process_update-accepted_example :
    ((accepted.0.0.1.0.group_id ≡ some_bytes) × (accepted.0.0.1.0.epoch_id ≡ 4 + 1))
    × ((committer : LeafNode) × ((get_node two_members (2 * accepted.0.0.1.0.committer_index)
            ≡ some (leaf committer))
          × ((tbs : Bytes) × ((signed_content toy (member 1) accepted.0.0.1.0 ≡ ok tbs)
                × (toy.ed25519_check committer.signature_key accepted.0.0.1.0.signature tbs ≡ ok tt)
                × (accepted.0.0.1.0.membership_tag ≡ some (toy.hmac_sha256 secret tbs))))))
    × ((hash : Bytes) × (accepted.0.0.1.0.confirmation_tag
          ≡ some (toy.hmac_sha256 accepted.0.1.0.state.key_schedule.confirmation_key hash)))
    × ((accepted.0.1.0.state.group_id ≡ some_bytes) × (accepted.0.1.0.state.epoch_id ≡ 4 + 1))
process_update-accepted_example =
    process_update-accepted toy toy_ciphers (member 1) accepted.0.0.1.0 accepted.0.1.0
      accepted.0.1.1 accepted.1.1

process_update-refused_example :
    process_update toy toy_ciphers
      (record (member 1) { state = record epoch_four { epoch_id = 5 } })
      accepted.0.0.1.0
    ≡ (err value_error, record (member 1) { state = record epoch_four { epoch_id = 5 } })
process_update-refused_example =
    process_update-refused toy toy_ciphers
      (record (member 1) { state = record epoch_four { epoch_id = 5 } }) accepted.0.0.1.0
      (inr (λ same. absurd (omega (arith, same, process_update-accepted_example.0.1))))

twice :
    (r : (MlsGroup × (GroupUpdate × MlsGroup))
      × ((MlsGroup × MlsGroup) × (MlsGroup × (GroupUpdate × MlsGroup))))
    × ((update_key toy toy_ciphers drawn (member 0) ≡ (ok (r.0.0, r.0.1.0), r.0.1.1))
        × (process_update toy toy_ciphers (member 1) r.0.1.0 ≡ (ok r.1.0.0, r.1.0.1))
        × (update_key toy toy_ciphers drawn r.1.0.0 ≡ (ok (r.1.1.0, r.1.1.1.0), r.1.1.1.1)))
unfolding Keys.from_secret Keys.sign Leaf.create Leaf.sign Leaf.source_block Leaf.tbs_bytes
    pure_mls.Capabilities.tls_vec_varint pure_mls.Epoch.advance_epoch Leaf.to_bytes
    Leaf.verify_signature State.new finish make_path new_kem_key new_signature_key process_update
    processed pure_mls.Capabilities.marshal pure_mls.Group.Commit.old_context
    pure_mls.Group.Commit.path_nodes pure_mls.Group.Commit.path_secrets
    pure_mls.Group.Commit.seal_to pure_mls.Group.Commit.set_parents
    pure_mls.Group.Context.make_group_context pure_mls.Group.Context.make_kp_ref
    pure_mls.Group.Context.to_bytes pure_mls.Group.Dict.dict_set pure_mls.Group.Dict.sort
    pure_mls.Group.Framing.confirmed_input pure_mls.Group.Framing.confirmed_transcript_hash
    pure_mls.Group.Framing.framed_content_tbs pure_mls.Group.Framing.interim_transcript_hash
    pure_mls.Group.Framing.to_bytes pure_mls.Group.Member.commit_secrets
    pure_mls.Group.Member.copy_into pure_mls.Group.Member.updated
    pure_mls.Group.Path.ciphertext_bytes pure_mls.Group.Path.node_bytes pure_mls.Group.Path.to_bytes
    pure_mls.Group.Receive.commit_secret_of pure_mls.Group.Receive.fallback_secret
    pure_mls.Group.Receive.from_path pure_mls.Group.Receive.move_up
    pure_mls.Group.Receive.my_ciphertext pure_mls.Group.Receive.path_commit_secret
    pure_mls.Group.Receive.position pure_mls.Group.Receive.taken_up
    pure_mls.Group.Receive.verified_tbs pure_mls.Group.Receive.verify_leaves
    pure_mls.Group.State.wipe_secret_tree pure_mls.Group.Update.body_bytes
    pure_mls.Hkdf.derive_secret pure_mls.Hkdf.expand_rounds pure_mls.Hkdf.expand_with_label
    pure_mls.Hkdf.hkdf_expand pure_mls.Hkdf.hkdf_extract pure_mls.Hkdf.hkdf_label
    pure_mls.Hkdf.varint_encode pure_mls.Hpke.hpke_open pure_mls.Hpke.key_and_nonce
    pure_mls.Hpke.seal pure_mls.Hpke.xor_bytes pure_mls.KeySchedule.derive
    pure_mls.KeySchedule.derive_confirmation_key pure_mls.KeySchedule.derive_epoch_secret
    pure_mls.KeySchedule.from_epoch_secret pure_mls.KeySchedule.psk_rounds
    pure_mls.KeySchedule.psk_secret pure_mls.Keys.dh_exchange pure_mls.Node.Credential.to_bytes
    pure_mls.Node.KeyPackage.create pure_mls.Node.KeyPackage.tbs_bytes
    pure_mls.Node.KeyPackage.to_bytes pure_mls.Node.Parent.to_bytes
    pure_mls.Node.Parent.unmerged_leaves_bytes pure_mls.Prelude.join
    pure_mls.Tls.Extension.tls_extension pure_mls.Tls.Extension.tls_extensions
    pure_mls.Tls.Ints.int_to_bytes pure_mls.Tls.Ints.pack pure_mls.Tls.Ints.tls_u16
    pure_mls.Tls.Ints.tls_u32 pure_mls.Tls.Ints.tls_u64 pure_mls.Tls.Ints.tls_u8
    pure_mls.Tls.Ints.to_be pure_mls.Tls.Opaque.tls_opaque pure_mls.Tls.Opaque.tls_opaque32
    pure_mls.Tls.Opaque.tls_varint pure_mls.Tree.Hash.compute_parent_hash
    pure_mls.Tree.Hash.leaf_input pure_mls.Tree.Hash.node_hash pure_mls.Tree.Hash.optional_node
    pure_mls.Tree.Hash.parent_input pure_mls.Tree.Hash.right_in_range
    pure_mls.Tree.Hash.subtree_hash pure_mls.Tree.Hash.tree_hash pure_mls.Tree.Hash.up_info
    pure_mls.Tree.Wire.node_bytes pure_mls.Tree.Wire.to_bytes pure_mls.Tree.climb
    pure_mls.Tree.copath pure_mls.Tree.direct_path pure_mls.Tree.freeze pure_mls.Tree.get_node
    pure_mls.Tree.new pure_mls.Tree.resolution pure_mls.Tree.resolution_at pure_mls.Tree.set_leaf
    pure_mls.Tree.set_parent pure_mls.Tree.siblings_along pure_mls.Tree.store
    pure_mls.TreeMath.bit_at pure_mls.TreeMath.bit_length pure_mls.TreeMath.bit_length_loop
    pure_mls.TreeMath.level pure_mls.TreeMath.level_loop pure_mls.TreeMath.parent
    pure_mls.TreeMath.parent_step pure_mls.TreeMath.reparent pure_mls.TreeMath.root
    pure_mls.TreeMath.sibling update_key
twice = (((_, (_, _)), ((_, _), (_, (_, _)))), (refl, refl, refl))

Steps-epochs_example :
    (twice.0.1.1.0.state.epoch_id ≡ 4 + 2)
    × (twice.0.1.1.0.state.group_id ≡ some_bytes)
    × (twice.0.1.1.0.my_index ≡ 1)
Steps-epochs_example =
    Steps-epochs toy toy_ciphers 2 (member 1) twice.0.1.1.0
      (then (by_commit twice.0.0.1.0 twice.1.1) (then (by_update drawn twice.1.2) here))

reference : (ref : Bytes) × (make_kp_ref toy (of_leaf alice) ≡ ok ref)
unfolding Leaf.source_block Leaf.to_bytes pure_mls.Capabilities.marshal
    pure_mls.Capabilities.tls_vec_varint pure_mls.Group.Context.make_kp_ref
    pure_mls.Node.Credential.to_bytes pure_mls.Node.KeyPackage.to_bytes pure_mls.Prelude.join
    pure_mls.Tls.Extension.tls_extensions pure_mls.Tls.Ints.tls_u16 pure_mls.Tls.Ints.tls_u64
    pure_mls.Tls.Ints.tls_u8 pure_mls.Tls.Opaque.tls_opaque
reference = (_, refl)

add_member-replayed_example :
    add_member toy toy_ciphers drawn
      (add_member toy toy_ciphers drawn (member 0) (of_leaf alice)).1
      (of_leaf alice)
    ≡ (err value_error, (add_member toy toy_ciphers drawn (member 0) (of_leaf alice)).1)
add_member-replayed_example =
    add_member-replayed toy toy_ciphers drawn drawn (member 0) (of_leaf alice) reference.0
      reference.1

pub toy-Decrypts : Decrypts toy_ciphers
toy-Decrypts = record {
  decrypts = λ key nonce plaintext aad ciphertext h. ap ok (ok-injective (sym h));
}

toy-Agrees : Agrees toy_ciphers some_bytes secret
toy-Agrees = record { agreed = refl }

sealed_bytes :
    (r : Bytes × Bytes) × (seal toy toy_ciphers
        (new_kem_key toy_ciphers some_bytes)
        (replicate 32 9)
        (4 ∷ 2 ∷ [])
        []
        1
        some_bytes
      ≡ ok (r.0, r.1))
unfolding pure_mls.Hpke.seal pure_mls.Tls.Opaque.tls_opaque
sealed_bytes = ((_, _), refl)

hpke_open-seal_example :
    hpke_open toy toy_ciphers
      (new_kem_key toy_ciphers secret)
      sealed_bytes.0.0
      sealed_bytes.0.1
      []
      1
      some_bytes
    ≡ ok (4 ∷ 2 ∷ [])
hpke_open-seal_example =
    hpke_open-seal toy toy_ciphers some_bytes secret (4 ∷ 2 ∷ []) [] 1 some_bytes sealed_bytes.0.0
      sealed_bytes.0.1 toy-Agrees toy-Decrypts sealed_bytes.1

nonce_five : (nonce : Bytes) × (xor_nonce (replicate 12 7) 5 ≡ ok nonce)
unfolding xor_nonce pure_mls.Tls.Ints.int_to_bytes
nonce_five = (_, refl)

xor_nonce-injective_example : 5 ≡ 2 + 3
xor_nonce-injective_example =
    xor_nonce-injective (replicate 12 7) nonce_five.0 5 (2 + 3) refl nonce_five.1 nonce_five.1
