-- ===== src/Group/Receive.antt =====
-- `process_update` of src/pure_mls/group.py: a member takes up the commit of another. It gives what the call
-- returns or raises, and the group that it was called on.
use pure_mls.Prelude.{
  ℕ, zero, suc, ◌+◌, ◌*◌, Bool, true, false, not, Bytes, List, [], ◌∷◌, length, take, drop,
  get_elem?, Option, none, some, Result, ok, err, bind, ltb, ◌==◌, if◌then◌else◌, value_error,
  invalid_signature, type_error,
}
use pure_mls.Primitives.{Primitives}
use pure_mls.Ciphers.{Ciphers}
use pure_mls.Codecs.{same_bytes}
use pure_mls.Hpke.{hpke_open}
use pure_mls.Node.KeyPackage.{of_leaf}
use pure_mls.Node.Leaf as Leaf
use pure_mls.Node.Leaf.{LeafNode}
use pure_mls.Tree.{Node, leaf, parent_node, RatchetTree, get_node, direct_path, copath}
use pure_mls.Tree.Hash.{up_info}
use pure_mls.Epoch.{advance_epoch}
use pure_mls.Group.Context as Context
use pure_mls.Group.Context.{GroupContext, make_group_context, make_kp_ref}
use pure_mls.Group.Framing as Framing
use pure_mls.Group.Framing.{framed_content_tbs, interim_transcript_hash}
use pure_mls.Group.Path.{HpkeCiphertext, UpdatePathNode, UpdatePath}
use pure_mls.Group.Dict.{Dict, dict_get}
use pure_mls.Group.Update.{GroupUpdate, body_bytes}
use pure_mls.Group.State as State
use pure_mls.Group.State.{MlsGroup, wipe_secret_tree}
use pure_mls.Group.Commit.{derive_next_path_secret, copath_resolution, framed, old_context, confirm}
pub mod Checks
pub mod Guards
pub mod Refusal
pub mod Agreement

-- `isinstance(node, LeafNode)`, or a `ValueError`
abbrev pub leaf_or_value_error : Option Node → Result LeafNode
leaf_or_value_error none = err value_error
leaf_or_value_error (some (leaf l)) = ok l
leaf_or_value_error (some (parent_node n)) = err value_error

-- `if not test: raise ValueError`
abbrev pub check : Bool → Result (Unit {0})
check true = ok tt
check false = err value_error

-- Every leaf of the received tree is authenticated: leaf `i` on, `n` of them.
unfoldable pub verify_leaves : Primitives → Bytes → RatchetTree → ℕ → ℕ → Result (Unit {0})
verify_leaves p group_id t zero i = ok tt
verify_leaves p group_id t (suc n) i = elim (get_node t (2 * i)) [
  | none ↦ verify_leaves p group_id t n (i + 1)
  | some (leaf l) ↦
      bind (Leaf.verify_signature p l group_id i) (λ _. verify_leaves p group_id t n (i + 1))
  | some (parent_node _) ↦ verify_leaves p group_id t n (i + 1)
]

-- `resolved.index(node)`, where it is there.
unfoldable pub position : List ℕ → ℕ → Option ℕ
position [] x = none
position (y ∷ ys) x =
    let later = position ys x in
    if y == x then some 0 else elim later [ none ↦ none | some i ↦ some (i + 1) ]

-- The path secret moved up by the nodes that are left of the direct path.
unfoldable pub move_up : Primitives → Bytes → List ℕ → Result Bytes
unfolding derive_next_path_secret
move_up p secret [] = ok secret
move_up p secret (_ ∷ above) = bind (derive_next_path_secret p secret) (λ s. move_up p s above)

-- The ciphertext for my node in the resolution of a copath node.
unfoldable pub my_ciphertext : List ℕ → ℕ → UpdatePathNode → Option HpkeCiphertext
unfolding position
my_ciphertext resolved mine node = elim (position resolved mine) [
  | none ↦ none
  | some i ↦ get_elem? node.encrypted_path_secret i
]

-- The loop over the update path: the first node whose ciphertext is for me.
unfoldable pub from_path :
    Primitives
    → Ciphers
    → MlsGroup
    → RatchetTree
    → GroupContext
    → List ℕ
    → List (Option ℕ)
    → List UpdatePathNode
    → Result (Option Bytes)
unfolding my_ciphertext move_up
from_path p c g t context (d ∷ direct) (s ∷ cop) (node ∷ nodes) =
    bind (copath_resolution t s) (λ resolved. elim (my_ciphertext resolved (2 * g.my_index) node) [
      | none ↦ from_path p c g t context direct cop nodes
      | some ct ↦ bind (Context.to_bytes context) (λ context_bytes.
          bind (up_info context_bytes) (λ info.
            bind (hpke_open p c g.my_kem_key ct.kem_output ct.ciphertext [] 0 info)
              (λ secret. bind (move_up p secret direct) (λ commit. ok (some commit)))))
    ])
from_path p c g t context direct cop nodes = ok none

-- The update path first, where there is one with nodes.
unfoldable pub path_commit_secret :
    Primitives → Ciphers → MlsGroup → GroupUpdate → GroupContext → Result (Option Bytes)
unfolding from_path
path_commit_secret p c g u context = elim u.update_path [
  | none ↦ ok none
  | some path ↦
      if not (ltb 0 (length path.nodes))
      then ok none
      else bind (direct_path u.tree (2 * u.committer_index)) (λ direct.
        bind (copath u.tree (2 * u.committer_index))
          (λ cop. from_path p c g u.tree context direct cop path.nodes))
]

-- The secrets by key package reference, as a fallback: the encapsulated key is the first 32 bytes.
unfoldable pub fallback_secret :
    Primitives → Ciphers → MlsGroup → GroupUpdate → GroupContext → Bytes → Result Bytes
fallback_secret p c g u context ref = elim (dict_get u.encrypted_commit_secrets ref) [
  | none ↦ err value_error
  | some enc_ct ↦ bind (Context.to_bytes context) (λ context_bytes.
      bind (up_info context_bytes)
        (λ info. hpke_open p c g.my_kem_key (take 32 enc_ct) (drop 32 enc_ct) [] 0 info))
]

unfoldable pub commit_secret_of :
    Primitives → Ciphers → MlsGroup → GroupUpdate → GroupContext → Bytes → Result Bytes
unfolding path_commit_secret fallback_secret
commit_secret_of p c g u context ref =
    bind (path_commit_secret p c g u context)
      (λ found. elim found [ some secret ↦ ok secret | none ↦ fallback_secret p c g u context ref ])

-- `except InvalidSignature`, `except (ValueError, TypeError)`: a `ValueError`
abbrev pub signature_or_raise {ℓ} : {A : Type ℓ} → Result A → Result A
signature_or_raise (ok a) = ok a
signature_or_raise (err invalid_signature) = err value_error
signature_or_raise (err type_error) = err value_error
signature_or_raise (err e) = err e

-- The signed content of a received commit, once its signature is verified under the committer's key.
unfoldable pub verified_tbs : Primitives → MlsGroup → GroupUpdate → LeafNode → Bytes → Result Bytes
unfolding old_context
verified_tbs p g u committer body = signature_or_raise (
    bind (old_context p g) (λ old. bind (p.ed25519_load committer.signature_key) (λ _.
      bind (framed_content_tbs old (framed g u.committer_index body))
        (λ tbs. bind (p.ed25519_check committer.signature_key u.signature tbs) (λ _. ok tbs)))))

-- A tag that is there and is the expected one.
abbrev pub check_tag : Option Bytes → Bytes → Result (Unit {0})
check_tag none expected = err value_error
check_tag (some tag) expected = check (same_bytes expected tag)

-- From the signature to the new group, for a commit whose committer and commit secret are known.
unfoldable pub taken_up : Primitives → MlsGroup → GroupUpdate → LeafNode → Bytes → Result MlsGroup
unfolding verified_tbs confirm
taken_up p g u committer secret = bind (body_bytes u) (λ body.
    bind (Framing.to_bytes (framed g u.committer_index body)) (λ framed_bytes.
      bind (verified_tbs p g u committer body) (λ tbs.
        bind (check_tag u.membership_tag (p.hmac_sha256 g.state.key_schedule.membership_key tbs))
          (λ _. bind (confirm p g u.tree secret framed_bytes u.signature) (λ n.
            bind (check_tag u.confirmation_tag n.1.1.1) (λ _.
              bind (advance_epoch p g.state secret u.tree n.1.0 []) (λ next. ok (
                State.new next g.my_index g.my_sig_key g.my_kem_key
                  (interim_transcript_hash p n.1.1.0 n.1.1.1)))))))))

unfoldable pub processed : Primitives → Ciphers → MlsGroup → GroupUpdate → Result MlsGroup
unfolding verify_leaves commit_secret_of taken_up
processed p c g u = bind (check (same_bytes u.group_id g.state.group_id)) (λ _.
    bind (check (u.epoch_id == g.state.epoch_id + 1)) (λ _.
      bind (leaf_or_value_error (get_node g.state.tree (2 * u.committer_index))) (λ committer.
        bind (verify_leaves p g.state.group_id u.tree u.tree.num_leaves 0) (λ _.
          bind (leaf_or_value_error (get_node g.state.tree (2 * g.my_index))) (λ mine.
            bind (make_group_context p g.state.group_id u.epoch_id u.tree g.interim_transcript_hash)
              (λ context. bind (make_kp_ref p (of_leaf mine)) (λ ref.
                bind (commit_secret_of p c g u context ref)
                  (λ secret. taken_up p g u committer secret))))))))

unfoldable pub process_update :
    Primitives → Ciphers → MlsGroup → GroupUpdate → Result MlsGroup × MlsGroup
unfolding processed
process_update p c g u = elim (processed p c g u) [
  | ok next ↦ (ok next, wipe_secret_tree g)
  | err e ↦ (err e, g)
]
