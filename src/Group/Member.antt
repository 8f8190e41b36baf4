-- ===== src/Group/Member.antt =====
-- `update_key`, `remove_member` and `add_member` of src/pure_mls/group.py. Each gives what it returns or
-- raises, and the group that it was called on, which notes a key package and drops its secret tree.
use pure_mls.Prelude.{
  ℕ, zero, suc, ◌+◌, ◌*◌, ◌%◌, Bool, Bytes, List, [], ◌∷◌, ◌++◌, Option, none, some, Result, ok,
  err, bind, ltb, ◌==◌, not, if◌then◌else◌, value_error, true, false,
}
use pure_mls.Primitives.{Primitives}
use pure_mls.Ciphers.{Ciphers}
use pure_mls.Hpke.{seal}
use pure_mls.KeySchedule.{derive_welcome_key, derive_welcome_nonce, psk_secret}
use pure_mls.Node.KeyPackage as KeyPackage
use pure_mls.Node.KeyPackage.{KeyPackage, of_leaf}
use pure_mls.Tree as Tree
use pure_mls.Tree.{
  Node, leaf, parent_node, RatchetTree, get_node, set_leaf, set_parent, blank_node, direct_path,
  remove_leaf,
}
use pure_mls.Tree.Wire as TreeWire
use pure_mls.Tree.Hash.{egs_info}
use pure_mls.Group.Context.{GroupContext, make_group_context, make_kp_ref}
use pure_mls.Group.Secrets as Secrets
use pure_mls.Group.Info as Info
use pure_mls.Group.Welcome.{Welcome, suite}
use pure_mls.Group.Dict.{Dict, dict_set, mem_bytes, set_add}
use pure_mls.Group.Update.{GroupUpdate}
use pure_mls.Group.State as State
use pure_mls.Group.State.{MlsGroup, wipe_secret_tree}
use pure_mls.Group.Commit.{Fresh, Pathed, Committed, make_path, finish}
pub mod Epochs
pub mod Replay

-- The loop that copies the nodes of a tree into another.
unfoldable pub copy_into : RatchetTree → ℕ → List (Option Node) → Result RatchetTree
copy_into t i [] = ok t
copy_into t i (none ∷ ns) = copy_into t (i + 1) ns
copy_into t i (some (leaf l) ∷ ns) = bind (set_leaf t i l) (λ t'. copy_into t' (i + 1) ns)
copy_into t i (some (parent_node n) ∷ ns) = bind (set_parent t i n) (λ t'. copy_into t' (i + 1) ns)

-- The commit secret sealed to one leaf, under the reference of its key package, in the order of `add_member`.
unfoldable pub seal_then_ref :
    Primitives → Ciphers → Fresh → Pathed → ℕ → Node → Result (Option (Bytes × Bytes))
seal_then_ref p c r path i (parent_node n) = ok none
seal_then_ref p c r path i (leaf l) = bind path.info (λ info.
    bind (seal p c (r.secret_key i) l.encryption_key path.commit_secret [] 0 info)
      (λ sealed. bind (make_kp_ref p (of_leaf l)) (λ ref. ok (some (ref, sealed.0 ++ sealed.1)))))

-- The same in the order of `remove_member` and `update_key`, which look at the even positions only.
unfoldable pub ref_then_seal :
    Primitives → Ciphers → Fresh → Pathed → ℕ → Node → Result (Option (Bytes × Bytes))
ref_then_seal p c r path i (parent_node n) = ok none
ref_then_seal p c r path i (leaf l) =
    if not (i % 2 == 0)
    then ok none
    else bind (make_kp_ref p (of_leaf l)) (λ ref. bind path.info (λ info.
      bind (seal p c (r.secret_key i) l.encryption_key path.commit_secret [] 0 info)
        (λ sealed. ok (some (ref, sealed.0 ++ sealed.1)))))

abbrev pub note_item : Dict → Option (Bytes × Bytes) → Dict
note_item d none = d
note_item d (some kv) = dict_set d kv.0 kv.1

-- The loop over the nodes of the new tree; the committer's own leaf is left out.
unfoldable pub commit_secrets :
    (ℕ → Node → Result (Option (Bytes × Bytes))) → ℕ → ℕ → List (Option Node) → Dict → Result Dict
commit_secrets item mine i [] d = ok d
commit_secrets item mine i (none ∷ ns) d = commit_secrets item mine (i + 1) ns d
commit_secrets item mine i (some n ∷ ns) d =
    bind (if i == mine then ok none else item i n)
      (λ kv. commit_secrets item mine (i + 1) ns (note_item d kv))

-- The new group of a committer, which keeps the key packages that it has seen.
unfoldable pub after_commit : MlsGroup → Committed → MlsGroup
after_commit g done = record g {
  state = done.next_state;
  secret_tree = none;
  interim_transcript_hash = done.interim;
}

-- The group that a call which returned was made on.
abbrev pub left_behind {ℓ} : {A : Type ℓ} → MlsGroup → Result A → Result A × MlsGroup
left_behind g (ok a) = (ok a, wipe_secret_tree g)
left_behind g (err e) = (err e, g)

unfoldable pub updated : Primitives → Ciphers → Fresh → MlsGroup → Result (MlsGroup × GroupUpdate)
unfolding copy_into commit_secrets ref_then_seal after_commit
updated p c r g = bind (copy_into (Tree.new g.state.tree.num_leaves) 0 g.state.tree.nodes) (λ tree.
    bind (make_path p c g r tree) (λ path.
      bind (commit_secrets (ref_then_seal p c r path) (2 * g.my_index) 0 path.new_tree.nodes [])
        (λ secrets.
          bind (finish p c g path secrets)
            (λ done. ok (record (after_commit g done) { my_kem_key = r.leaf_key }, done.update)))))

unfoldable pub update_key :
    Primitives → Ciphers → Fresh → MlsGroup → Result (MlsGroup × GroupUpdate) × MlsGroup
unfolding updated
update_key p c r g = left_behind g (updated p c r g)

-- The removal of a leaf that may be removed. The new group keeps the old leaf key.
unfoldable pub removal :
    Primitives → Ciphers → Fresh → MlsGroup → ℕ → Result (MlsGroup × GroupUpdate)
unfolding commit_secrets ref_then_seal after_commit
removal p c r g target = bind (remove_leaf g.state.tree (2 * target)) (λ tree.
    bind (make_path p c g r tree) (λ path.
      bind (commit_secrets (ref_then_seal p c r path) (2 * g.my_index) 0 path.new_tree.nodes [])
        (λ secrets.
          bind (finish p c g path secrets) (λ done. ok (after_commit g done, done.update)))))

unfoldable pub removed :
    Primitives → Ciphers → Fresh → MlsGroup → ℕ → Result (MlsGroup × GroupUpdate)
unfolding removal
removed p c r g target =
    if target == g.my_index
    then err value_error
    else if not (ltb target g.state.tree.num_leaves)
    then err value_error
    else removal p c r g target

unfoldable pub remove_member :
    Primitives → Ciphers → Fresh → MlsGroup → ℕ → Result (MlsGroup × GroupUpdate) × MlsGroup
unfolding removed
remove_member p c r g target = left_behind g (removed p c r g target)

-- The leftmost blank leaf, from leaf `i` on, `n` of them.
unfoldable pub blank_leaf : RatchetTree → ℕ → ℕ → Option ℕ
blank_leaf t zero i = none
blank_leaf t (suc n) i =
    let later = blank_leaf t n (i + 1) in
    elim (get_node t (2 * i)) [ none ↦ some i | some _ ↦ later ]

-- The number of leaves and the node of the new member: a blank leaf, or the first leaf of a tree twice as wide.
unfoldable pub new_place : RatchetTree → ℕ × ℕ
unfolding blank_leaf
new_place t = elim (blank_leaf t t.num_leaves 0) [
  | some i ↦ (t.num_leaves, 2 * i)
  | none ↦ (t.num_leaves * 2, 2 * t.num_leaves)
]

unfoldable pub blank_path : RatchetTree → List ℕ → Result RatchetTree
blank_path t [] = ok t
blank_path t (i ∷ is) = bind (blank_node t i) (λ t'. blank_path t' is)

-- The tree with the new member's leaf, whose direct path is blank.
unfoldable pub placed_tree : RatchetTree → KeyPackage → Result RatchetTree
unfolding new_place blank_path copy_into
placed_tree t kp =
    let (leaves, index) = new_place t in
    bind (copy_into (Tree.new leaves) 0 t.nodes) (λ copied.
      bind (set_leaf copied index kp.leaf_node)
        (λ placed. bind (direct_path placed index) (λ path. blank_path placed path)))

-- The welcome of a new member.
unfoldable pub make_welcome :
    Primitives → Ciphers → Fresh → MlsGroup → KeyPackage → RatchetTree → Committed → Result Welcome
make_welcome p c r g kp tree done =
    let next = done.next_state in
    let tag = p.hmac_sha256 next.key_schedule.confirmation_key done.hash in
    let joiner = next.key_schedule.joiner_secret in
    bind (make_group_context p g.state.group_id next.epoch_id tree done.hash) (λ context.
      bind (TreeWire.to_bytes tree) (λ tree_bytes.
        bind (Info.build_and_sign c context tag g.my_index g.my_sig_key ((0x0002, tree_bytes) ∷ []))
          (λ info. bind (psk_secret p []) (λ psk.
            bind (derive_welcome_key p joiner (some psk)) (λ key.
              bind (derive_welcome_nonce p joiner (some psk)) (λ nonce.
                bind (Info.to_bytes info) (λ plaintext.
                  bind (c.aes_gcm_encrypt key nonce plaintext []) (λ egi.
                    bind
                      (Secrets.to_bytes
                        (record { joiner_secret = joiner; path_secret = none; psks = [] }))
                      (λ gs. bind (egs_info egi) (λ hpke_info.
                        bind (seal p c r.welcome_key kp.init_key_pub gs [] 0 hpke_info) (λ sealed.
                          bind (make_kp_ref p kp) (λ ref. ok (record {
                            cipher_suite = suite;
                            encrypted_group_secrets =
                                record {
                                  new_member = ref;
                                  kem_output = sealed.0;
                                  ciphertext = sealed.1;
                                }
                                ∷ [];
                            encrypted_group_info = egi;
                            dialect = none;
                          })))))))))))))

unfoldable pub added :
    Primitives
    → Ciphers
    → Fresh
    → MlsGroup
    → KeyPackage
    → Result (MlsGroup × (Welcome × GroupUpdate))
unfolding placed_tree commit_secrets seal_then_ref make_welcome after_commit
added p c r g kp = bind (placed_tree g.state.tree kp) (λ tree.
    bind (KeyPackage.verify_signature p kp) (λ _. bind (make_path p c g r tree) (λ path.
      bind (commit_secrets (seal_then_ref p c r path) (2 * g.my_index) 0 path.new_tree.nodes [])
        (λ secrets. bind (finish p c g path secrets) (λ done.
          bind (make_welcome p c r g kp path.new_tree done) (λ welcome.
            let tag = p.hmac_sha256 done.next_state.key_schedule.confirmation_key done.hash in
            ok (
              record (after_commit g done) { my_kem_key = r.leaf_key },
              (welcome, record done.update { confirmation_tag = some tag }),
            )))))))

-- A key package that is not known yet is noted before anything else is done with it.
unfoldable pub add_unless :
    Primitives
    → Ciphers
    → Fresh
    → MlsGroup
    → KeyPackage
    → Bytes
    → Bool
    → Result (MlsGroup × (Welcome × GroupUpdate)) × MlsGroup
unfolding added set_add
add_unless p c r g kp ref true = (err value_error, g)
add_unless p c r g kp ref false =
    let noted = record g { consumed = set_add g.consumed ref } in
    left_behind noted (added p c r noted kp)

-- With the reference of the key package, if there is one.
unfoldable pub add_referred :
    Primitives
    → Ciphers
    → Fresh
    → MlsGroup
    → KeyPackage
    → Result Bytes
    → Result (MlsGroup × (Welcome × GroupUpdate)) × MlsGroup
unfolding add_unless mem_bytes
add_referred p c r g kp (err e) = (err e, g)
add_referred p c r g kp (ok ref) = add_unless p c r g kp ref (mem_bytes g.consumed ref)

unfoldable pub add_member :
    Primitives
    → Ciphers
    → Fresh
    → MlsGroup
    → KeyPackage
    → Result (MlsGroup × (Welcome × GroupUpdate)) × MlsGroup
unfolding add_referred
add_member p c r g kp = add_referred p c r g kp (make_kp_ref p kp)
