-- ===== src/Examples/Messages.antt =====
-- The theorems on messages and on stored groups at concrete inputs.
use pure_mls.Prelude.{
  ℕ, ◌+◌, ◌≡◌, ◌<◌, refl, sym, ap, arith, Bytes, [], ◌∷◌, ◌++◌, length, some, Result, ok,
}
use pure_mls.Examples.{toy, some_bytes}
use pure_mls.Examples.Groups.{
  toy_ciphers, drawn, member, secret, sig_key, toy-Signs_group, toy-Decrypts,
}
use pure_mls.Epoch.RoundTrip as EpochLaws
use pure_mls.SecretTree.{next_generation, application}
use pure_mls.SecretTree.Ratchet.{IsCoherent, IsAhead}
use pure_mls.SecretTree.Coherence.{new-IsCoherent}
use pure_mls.Tree.Paths.{IsFull}
use pure_mls.Keys.{new_signature_key, new_kem_key}
use pure_mls.Group.Context.{GroupContext}
use pure_mls.Group.Info as Info
use pure_mls.Group.Info.{GroupInfo, build_and_sign}
use pure_mls.Group.Info.Signing.{verify-build_and_sign}
use pure_mls.Group.Dict.{bytes_leb, sort}
use pure_mls.Group.Dict.Distinct.{DistinctKeys}
use pure_mls.Group.Update.{GroupUpdate}
use pure_mls.Group.State as State
use pure_mls.Group.State.{MlsGroup, get_secret_tree}
use pure_mls.Group.Member.{update_key}
use pure_mls.Group.Message as Message
use pure_mls.Group.Message.{MlsMessage, wrap_commit, unwrap_commit}
use pure_mls.Group.Message.Envelope.{received, unwrap_commit-wrap_commit}
use pure_mls.Group.Stored as Stored
use pure_mls.Group.Stored.{collected}
use pure_mls.Group.Stored.RoundTrip.{from_bytes-to_bytes_group}
use pure_mls.Group.Application.{encrypt_application_message, decrypt_application_message}
use pure_mls.Group.Application.Delivery.{
  SameEpoch, decrypt_application_message-encrypt_application_message,
}

sent_to_group :
    (r : Bytes × MlsGroup) × (encrypt_application_message toy toy_ciphers (member 0) some_bytes
      ≡ (ok r.0, r.1))
unfolding pure_mls.Group.Application.encrypt_application_message
    pure_mls.Group.State.get_secret_tree pure_mls.Hkdf.derive_secret
    pure_mls.SecretTree.derive_sender_data_key pure_mls.SecretTree.derive_sender_data_nonce
    pure_mls.SecretTree.first_secret pure_mls.SecretTree.get_key_and_nonce
    pure_mls.SecretTree.get_key_and_nonce_for_gen pure_mls.SecretTree.get_path
    pure_mls.SecretTree.get_ratchet_secret pure_mls.SecretTree.key_and_nonce
    pure_mls.SecretTree.left pure_mls.SecretTree.level pure_mls.SecretTree.new
    pure_mls.SecretTree.parent pure_mls.SecretTree.parent_step pure_mls.SecretTree.ratchet
    pure_mls.SecretTree.reparent pure_mls.SecretTree.root pure_mls.Tls.Ints.tls_u16
    pure_mls.TreeMath.bit_at pure_mls.TreeMath.bit_length pure_mls.TreeMath.bit_length_loop
    pure_mls.TreeMath.level_loop
sent_to_group = ((_, _), refl)

member-SameEpoch : SameEpoch (member 0) (member 1)
unfolding get_secret_tree
member-SameEpoch = record {
  same_group = refl;
  same_epoch = refl;
  same_sender_data = refl;
  same_encryption = refl;
  same_leaves = refl;
}

member-IsCoherent : (i : ℕ) → IsCoherent toy (get_secret_tree (member i))
unfolding get_secret_tree
member-IsCoherent i = new-IsCoherent toy secret 2

member-IsAhead : (i gen : ℕ) → IsAhead gen ((get_secret_tree (member i)).leaf_cache 0 application)
unfolding get_secret_tree IsAhead pure_mls.SecretTree.new
member-IsAhead i gen = tt

decrypt_application_message-encrypt_application_message_example :
    (decrypt_application_message toy toy_ciphers (member 1) sent_to_group.0.0).0 ≡ ok some_bytes
decrypt_application_message-encrypt_application_message_example =
    decrypt_application_message-encrypt_application_message toy toy_ciphers (member 0) (member 1)
      sent_to_group.0.1 some_bytes sent_to_group.0.0 toy-Decrypts member-SameEpoch (omega arith)
      (member-IsCoherent 0) (member-IsCoherent 1)
      (member-IsAhead 0 (next_generation (get_secret_tree (member 0)) 0))
      (member-IsAhead 1 (next_generation (get_secret_tree (member 0)) 0)) sent_to_group.1

-- What `update_key` gives, and the message that it is wrapped in.
abbrev Wrapped : Type 0
Wrapped =
    (MlsGroup × (GroupUpdate × MlsGroup))
    × (GroupContext × (Bytes × (Bytes × (Bytes × (MlsMessage × Bytes)))))

wrapped :
    (r : Wrapped) × ((update_key toy toy_ciphers drawn (member 0) ≡ (ok (r.0.0, r.0.1.0), r.0.1.1))
      × IsFull 1 r.0.1.0.tree
      × DistinctKeys r.0.1.0.encrypted_commit_secrets
      × (r.0.1.0.old_group_ctx ≡ some r.1.0)
      × (r.0.1.0.confirmation_key ≡ some r.1.1.0)
      × (r.0.1.0.transcript_hash ≡ some r.1.1.1.0)
      × (r.0.1.0.membership_tag ≡ some r.1.1.1.1.0)
      × (wrap_commit toy r.0.1.0 ≡ ok r.1.1.1.1.1.0)
      × (Message.to_bytes r.1.1.1.1.1.0 ≡ ok r.1.1.1.1.1.1))
unfolding pure_mls.Capabilities.marshal pure_mls.Capabilities.tls_vec_varint
    pure_mls.Epoch.advance_epoch pure_mls.Group.Commit.derive_next_path_secret
    pure_mls.Group.Commit.finish pure_mls.Group.Commit.make_path pure_mls.Group.Commit.node_publics
    pure_mls.Group.Commit.set_parents pure_mls.Group.Context.make_group_context
    pure_mls.Group.Context.make_kp_ref pure_mls.Group.Context.to_bytes pure_mls.Group.Dict.dict_set
    pure_mls.Group.Dict.sort pure_mls.Group.Framing.auth_bytes
    pure_mls.Group.Framing.confirmed_input pure_mls.Group.Framing.confirmed_transcript_hash
    pure_mls.Group.Framing.framed_content_tbs pure_mls.Group.Member.update_key
    pure_mls.Group.Member.updated pure_mls.Group.Message.from_group_update
    pure_mls.Group.Message.public_bytes pure_mls.Group.Message.to_bytes
    pure_mls.Group.Message.wrap_commit pure_mls.Group.Path.ciphertext_bytes
    pure_mls.Group.Path.node_bytes pure_mls.Group.Path.to_bytes
    pure_mls.Group.Receive.commit_secret_of pure_mls.Group.Update.body_bytes
    pure_mls.Group.Update.to_bytes pure_mls.Hkdf.derive_secret pure_mls.Hkdf.expand_rounds
    pure_mls.Hpke.key_and_nonce pure_mls.Hpke.seal pure_mls.Hpke.xor_bytes
    pure_mls.KeySchedule.derive pure_mls.KeySchedule.derive_confirmation_key
    pure_mls.KeySchedule.derive_epoch_secret pure_mls.KeySchedule.psk_secret
    pure_mls.KeySchedule.to_bytes pure_mls.Keys.dh_exchange pure_mls.Keys.from_secret
    pure_mls.Keys.new_kem_key pure_mls.Keys.new_signature_key pure_mls.Keys.sign
    pure_mls.Node.Credential.to_bytes pure_mls.Node.KeyPackage.create
    pure_mls.Node.KeyPackage.tbs_bytes pure_mls.Node.KeyPackage.to_bytes pure_mls.Node.Leaf.create
    pure_mls.Node.Leaf.sign pure_mls.Node.Leaf.source_block pure_mls.Node.Leaf.tbs_bytes
    pure_mls.Node.Leaf.to_bytes pure_mls.Node.Leaf.verify_signature pure_mls.Node.Parent.to_bytes
    pure_mls.Node.Parent.unmerged_leaves_bytes pure_mls.Prelude.join
    pure_mls.Tls.Extension.tls_extension pure_mls.Tls.Extension.tls_extensions
    pure_mls.Tls.Ints.tls_u16 pure_mls.Tls.Ints.tls_u32 pure_mls.Tls.Ints.tls_u64
    pure_mls.Tls.Ints.tls_u8 pure_mls.Tls.Ints.to_be pure_mls.Tls.Opaque.tls_opaque
    pure_mls.Tls.Opaque.tls_opaque32 pure_mls.Tls.Opaque.tls_varint
    pure_mls.Tree.Hash.compute_parent_hash pure_mls.Tree.Hash.leaf_input
    pure_mls.Tree.Hash.parent_input pure_mls.Tree.Hash.right_in_range
    pure_mls.Tree.Hash.subtree_hash pure_mls.Tree.Hash.tree_hash pure_mls.Tree.Hash.up_info
    pure_mls.Tree.Wire.node_bytes pure_mls.Tree.Wire.to_bytes pure_mls.Tree.climb
    pure_mls.Tree.copath pure_mls.Tree.direct_path pure_mls.Tree.freeze pure_mls.Tree.get_node
    pure_mls.Tree.new pure_mls.Tree.resolution pure_mls.Tree.resolution_at pure_mls.Tree.set_leaf
    pure_mls.Tree.set_parent pure_mls.Tree.siblings_along pure_mls.Tree.store
    pure_mls.TreeMath.bit_at pure_mls.TreeMath.bit_length pure_mls.TreeMath.bit_length_loop
    pure_mls.TreeMath.level pure_mls.TreeMath.level_loop pure_mls.TreeMath.parent
    pure_mls.TreeMath.parent_step pure_mls.TreeMath.reparent pure_mls.TreeMath.root
    pure_mls.TreeMath.sibling
wrapped = (
  ((_, (_, _)), (_, (_, (_, (_, (_, _)))))),
  (refl, record { leaves = refl; size = refl }, (tt, tt), refl, refl, refl, refl, refl, refl),
)

unwrap_commit-wrap_commit_example :
    (Message.from_bytes (wrapped.0.1.1.1.1.1.1 ++ []) ≡ ok wrapped.0.1.1.1.1.1.0)
    × (unwrap_commit wrapped.0.1.1.1.1.1.0
        ≡ ok (
            received wrapped.0.0.1.0 wrapped.0.1.0.group_id
              (toy.hmac_sha256 wrapped.0.1.1.0 wrapped.0.1.1.1.0)
              wrapped.0.1.1.1.1.0))
unwrap_commit-wrap_commit_example =
    unwrap_commit-wrap_commit toy wrapped.0.0.1.0 1 wrapped.0.1.1.1.1.1.0 wrapped.0.1.1.1.1.1.1 []
      wrapped.0.1.0 wrapped.0.1.1.0 wrapped.0.1.1.1.0 wrapped.0.1.1.1.1.0 wrapped.1.1 wrapped.1.2
      wrapped.1.3 wrapped.1.4 wrapped.1.5 wrapped.1.6 wrapped.1.7 wrapped.1.8

group_stored : (e : Bytes) × (Stored.to_bytes (member 0) ≡ ok e)
unfolding pure_mls.Capabilities.marshal pure_mls.Capabilities.tls_vec_varint pure_mls.Epoch.to_bytes
    pure_mls.Group.Dict.sort pure_mls.Group.Stored.to_bytes pure_mls.KeySchedule.to_bytes
    pure_mls.Node.Credential.to_bytes pure_mls.Node.Leaf.source_block pure_mls.Node.Leaf.to_bytes
    pure_mls.Prelude.join pure_mls.Tls.Extension.tls_extensions pure_mls.Tls.Ints.tls_u16
    pure_mls.Tls.Ints.tls_u64 pure_mls.Tls.Ints.tls_u8 pure_mls.Tls.Opaque.tls_opaque
    pure_mls.Tls.Opaque.tls_opaque32 pure_mls.Tree.Wire.node_bytes pure_mls.Tree.Wire.to_bytes
group_stored = (_, refl)

from_bytes-to_bytes_group_example :
    Stored.from_bytes toy_ciphers group_stored.0
    ≡ ok
        (record (State.new
          (EpochLaws.on_the_wire (member 0).state)
          0
          (member 0).my_sig_key
          (member 0).my_kem_key
          []) { consumed = collected [] (sort bytes_leb []) })
unfolding new_signature_key new_kem_key
from_bytes-to_bytes_group_example =
    from_bytes-to_bytes_group toy_ciphers (member 0) 1 group_stored.0
      (record { leaves = refl; size = refl })
      (refl, (refl, (refl, (refl, (refl, (refl, (refl, (refl, (refl, (refl, (refl, tt)))))))))))
      refl refl refl refl group_stored.1

abbrev old_epoch : GroupContext
old_epoch = record {
  group_id = some_bytes;
  epoch = 4;
  tree_hash = secret;
  confirmed_transcript_hash = secret;
  extensions_bytes = [];
}

signed_info :
    (r : GroupInfo × Bytes) × ((build_and_sign toy_ciphers old_epoch secret 0 sig_key
          ((0x0002, some_bytes) ∷ [])
        ≡ ok r.0)
      × (Info.to_bytes r.0 ≡ ok r.1))
unfolding build_and_sign Info.to_bytes pure_mls.Tls.Extension.tls_extension pure_mls.Prelude.join
    pure_mls.Tls.Ints.tls_u16 pure_mls.Tls.Opaque.tls_opaque Info.signed_payload
    pure_mls.Group.Context.to_bytes pure_mls.Tls.Ints.tls_u32 pure_mls.Keys.sign
signed_info = ((_, _), (refl, refl))

verify-build_and_sign_example :
    (Info.from_bytes (signed_info.0.1 ++ (7 ∷ [])) ≡ ok signed_info.0.0)
    × (Info.verify toy signed_info.0.0 sig_key.public_bytes ≡ ok tt)
verify-build_and_sign_example =
    verify-build_and_sign toy toy_ciphers old_epoch secret 0 sig_key ((0x0002, some_bytes) ∷ [])
      signed_info.0.0 signed_info.0.1 (7 ∷ []) toy-Signs_group signed_info.1.0 signed_info.1.1
