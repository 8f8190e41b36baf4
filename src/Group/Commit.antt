-- ===== src/Group/Commit.antt =====
-- What `add_member`, `remove_member` and `update_key` of src/pure_mls/group.py have in common: the secrets along
-- the committer's path, the tree with its new keys, the encrypted path, and the signed commit. The fresh
-- secrets and keys are arguments.
use pure_mls.Prelude.{ℕ, ◌+◌, ◌*◌, Bytes, List, [], ◌∷◌, Option, none, some, Result, ok, bind}
use pure_mls.Primitives.{Primitives}
use pure_mls.Ciphers.{Ciphers}
use pure_mls.Hkdf.{expand_with_label}
use pure_mls.Keys as Keys
use pure_mls.Keys.{KemKey, from_secret}
use pure_mls.Hpke.{seal}
use pure_mls.Node.KeyPackage as KeyPackage
use pure_mls.Node.KeyPackage.{KeyPackage, of_leaf}
use pure_mls.Node.Parent.{ParentNode}
use pure_mls.Tree.{
  Node, leaf, parent_node, RatchetTree, direct_path, copath, resolution, get_node, set_leaf,
  set_parent,
}
use pure_mls.Tree.Hash.{subtree_hash, compute_parent_hash, up_info}
use pure_mls.KeySchedule.{derive_confirmation_key}
use pure_mls.Epoch.{EpochState, advance_epoch}
use pure_mls.Group.Context as Context
use pure_mls.Group.Context.{GroupContext, make_group_context}
use pure_mls.Group.Framing as Framing
use pure_mls.Group.Framing.{
  FramedContent, framed_content_tbs, confirmed_input, confirmed_transcript_hash,
  interim_transcript_hash,
}
use pure_mls.Group.Path.{HpkeCiphertext, UpdatePathNode, UpdatePath}
use pure_mls.Group.Dict.{Dict}
use pure_mls.Group.Update as Update
use pure_mls.Group.Update.{GroupUpdate, body_bytes}
use pure_mls.Group.State.{MlsGroup}

-- What a commit draws at random: the leaf path secret, the committer's keys, and an ephemeral key for each
-- ciphertext of a path node, for each node that gets the commit secret, and for the welcome.
pub record Fresh : Type 0 where
  pub leaf_path_secret : Bytes
  pub leaf_key : KemKey
  pub init_key : KemKey
  pub path_key : ℕ → ℕ → KemKey
  pub secret_key : ℕ → KemKey
  pub welcome_key : KemKey

-- `_derive_path_node_key`
unfoldable pub derive_path_node_key : Primitives → Bytes → Result Bytes
derive_path_node_key p path_secret = expand_with_label p path_secret "node" [] 32

-- `_derive_next_path_secret`
unfoldable pub derive_next_path_secret : Primitives → Bytes → Result Bytes
derive_next_path_secret p path_secret = expand_with_label p path_secret "path" [] 32

-- One secret for each node of the direct path, the innermost first.
unfoldable pub path_secrets : Primitives → Bytes → List ℕ → Result (List Bytes)
unfolding derive_next_path_secret
path_secrets p secret [] = ok []
path_secrets p secret (_ ∷ direct) =
    bind (derive_next_path_secret p secret)
      (λ next. bind (path_secrets p next direct) (λ more. ok (next ∷ more)))

-- `_path_secrets[-1] if _path_secrets else leaf_path_secret`
unfoldable pub last_or : Bytes → List Bytes → Bytes
last_or secret [] = secret
last_or secret (s ∷ ss) = last_or s ss

unfoldable pub node_publics : Primitives → Ciphers → List Bytes → Result (List Bytes)
unfolding derive_path_node_key
node_publics p c [] = ok []
node_publics p c (s ∷ ss) = bind (derive_path_node_key p s) (λ node_secret.
    bind (from_secret p c node_secret)
      (λ key. bind (node_publics p c ss) (λ more. ok (key.public_bytes ∷ more))))

-- The committer's key package with its fresh keys.
unfoldable pub committer_package : Ciphers → MlsGroup → Fresh → Result KeyPackage
committer_package c g r =
    KeyPackage.create r.leaf_key.public_bytes r.init_key.public_bytes g.my_sig_key.public_bytes
      g.my_sig_key.public_bytes (Keys.sign c g.my_sig_key)

-- `_subtree_hash` of a copath entry. A tree of n leaves has fewer than 64 levels.
abbrev pub copath_hash : Primitives → RatchetTree → Option ℕ → Result Bytes
copath_hash p t none = ok (p.sha256 [])
copath_hash p t (some index) = subtree_hash 64 p t index

-- The loop from the outermost node inwards: each parent hash needs the one above it, and the tree with
-- the nodes above set.
unfoldable pub set_parents :
    Primitives → RatchetTree → List ℕ → List (Option ℕ) → List Bytes → Result (RatchetTree × Bytes)
set_parents p t (d ∷ direct) (s ∷ cop) (public ∷ publics) =
    bind (set_parents p t direct cop publics) (λ above.
      bind (copath_hash p above.0 s) (λ sibling_hash.
        bind (compute_parent_hash p public above.1 sibling_hash) (λ hash.
          let node : ParentNode = record {
            public_key = public;
            parent_hash = hash;
            unmerged_leaves = [];
          } in
          bind (set_parent above.0 d node) (λ t'. ok (t', hash)))))
set_parents p t direct cop publics = ok (t, [])

-- `node.public_key`
abbrev pub public_key_of : Node → Bytes
public_key_of (leaf l) = l.encryption_key
public_key_of (parent_node n) = n.public_key

-- The secret sealed to every node of a resolution, ciphertext `i` on.
unfoldable pub seal_to :
    Primitives
    → Ciphers
    → RatchetTree
    → Result Bytes
    → Bytes
    → (ℕ → KemKey)
    → ℕ
    → List ℕ
    → Result (List HpkeCiphertext)
seal_to p c t info secret key i [] = ok []
seal_to p c t info secret key i (x ∷ xs) = elim (get_node t x) [
  | none ↦ seal_to p c t info secret key i xs
  | some n ↦ bind info (λ info'.
      bind (seal p c (key i) (public_key_of n) secret [] 0 info') (λ sealed.
        bind (seal_to p c t info secret key (i + 1) xs)
          (λ more. ok (record { kem_output = sealed.0; ciphertext = sealed.1 } ∷ more))))
]

abbrev pub copath_resolution : RatchetTree → Option ℕ → Result (List ℕ)
copath_resolution t none = ok []
copath_resolution t (some index) = resolution t index

-- The nodes of the update path, node `i` of the direct path on.
unfoldable pub path_nodes :
    Primitives
    → Ciphers
    → RatchetTree
    → Result Bytes
    → (ℕ → ℕ → KemKey)
    → ℕ
    → List (Option ℕ)
    → List Bytes
    → List Bytes
    → Result (List UpdatePathNode)
unfolding seal_to
path_nodes p c t info key i (s ∷ cop) (secret ∷ secrets) (public ∷ publics) =
    bind (copath_resolution t s) (λ resolved.
      bind (seal_to p c t info secret (key i) 0 resolved) (λ ctexts.
        bind (path_nodes p c t info key (i + 1) cop secrets publics)
          (λ more. ok (record { new_public_key = public; encrypted_path_secret = ctexts } ∷ more))))
path_nodes p c t info key i cop secrets publics = ok []

-- The path part of a commit: the tree, the path, its commit secret and the info of its ciphertexts.
pub record Pathed : Type 0 where
  pub new_tree : RatchetTree
  pub update_path : UpdatePath
  pub commit_secret : Bytes
  pub info : Result Bytes

unfoldable pub make_path : Primitives → Ciphers → MlsGroup → Fresh → RatchetTree → Result Pathed
unfolding path_secrets last_or node_publics committer_package set_parents path_nodes
make_path p c g r tree = bind (direct_path tree (2 * g.my_index)) (λ direct.
    bind (copath tree (2 * g.my_index)) (λ cop.
      bind (path_secrets p r.leaf_path_secret direct) (λ secrets.
        bind (committer_package c g r) (λ kp.
          bind (set_leaf tree (2 * g.my_index) kp.leaf_node) (λ placed.
            bind (node_publics p c secrets) (λ publics.
              bind (set_parents p placed direct cop publics) (λ parents.
                bind
                  (make_group_context p g.state.group_id (g.state.epoch_id + 1) parents.0
                    g.interim_transcript_hash)
                  (λ context.
                    let info' = bind (Context.to_bytes context) up_info in
                    bind (path_nodes p c parents.0 info' r.path_key 0 cop secrets publics)
                      (λ nodes'. ok (record {
                        new_tree = parents.0;
                        update_path = record { leaf_key_package = kp; nodes = nodes' };
                        commit_secret = last_or r.leaf_path_secret secrets;
                        info = info';
                      }))))))))))

-- What a signed commit leads to.
pub record Committed : Type 0 where
  pub next_state : EpochState
  pub update : GroupUpdate
  pub hash : Bytes
  pub interim : Bytes

-- The framed content of a commit body.
abbrev pub framed : MlsGroup → ℕ → Bytes → FramedContent
framed g committer body = record {
  group_id = g.state.group_id;
  epoch = g.state.epoch_id;
  sender_leaf_index = committer;
  authenticated_data = [];
  content = body;
}

-- The old context of a commit: the group as it is.
unfoldable pub old_context : Primitives → MlsGroup → Result GroupContext
old_context p g =
    make_group_context p g.state.group_id g.state.epoch_id g.state.tree g.interim_transcript_hash

-- The transcript of a commit: the new context and its bytes, the transcript hash and the confirmation tag.
unfoldable pub confirm :
    Primitives
    → MlsGroup
    → RatchetTree
    → Bytes
    → Bytes
    → Bytes
    → Result (GroupContext × (Bytes × (Bytes × Bytes)))
confirm p g tree commit_secret framed_bytes signature =
    bind (confirmed_input framed_bytes signature) (λ input.
      let hash = confirmed_transcript_hash p g.interim_transcript_hash input in
      bind (make_group_context p g.state.group_id (g.state.epoch_id + 1) tree hash) (λ context.
        bind (Context.to_bytes context) (λ context_bytes.
          bind
            (derive_confirmation_key p g.state.key_schedule.init_secret commit_secret context_bytes
              [])
            (λ key. ok (context, (context_bytes, (hash, p.hmac_sha256 key hash)))))))

-- The signed commit and the next epoch.
unfoldable pub finish : Primitives → Ciphers → MlsGroup → Pathed → Dict → Result Committed
unfolding old_context confirm
finish p c g path secrets =
    let unsigned =
      Update.new (g.state.epoch_id + 1) path.new_tree secrets g.my_index [] g.state.group_id
        (some path.update_path) in
    bind (body_bytes unsigned) (λ body.
      bind (Framing.to_bytes (framed g g.my_index body)) (λ framed_bytes.
        bind (old_context p g) (λ old.
          bind (framed_content_tbs old (framed g g.my_index body)) (λ tbs.
            let signed = Keys.sign c g.my_sig_key tbs in
            bind (confirm p g path.new_tree path.commit_secret framed_bytes signed) (λ n.
              bind (advance_epoch p g.state path.commit_secret path.new_tree n.1.0 []) (λ next.
                ok (record {
                  next_state = next;
                  update = record unsigned {
                    signature = signed;
                    group_ctx = some n.0;
                    old_group_ctx = some old;
                    confirmation_key = some next.key_schedule.confirmation_key;
                    epoch_authenticator = some next.key_schedule.epoch_authenticator;
                    membership_key = some next.key_schedule.membership_key;
                    transcript_hash = some n.1.1.0;
                    confirmation_tag = some n.1.1.1;
                    membership_tag = some (p.hmac_sha256 g.state.key_schedule.membership_key tbs);
                  };
                  hash = n.1.1.0;
                  interim = interim_transcript_hash p n.1.1.0 n.1.1.1;
                })))))))
