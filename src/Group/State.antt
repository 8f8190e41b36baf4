-- ===== src/Group/State.antt =====
-- The state of `MLSGroup` of src/pure_mls/group.py, its secret tree, and the group of one member. The fresh
-- init key of `create` is an argument.
use pure_mls.Prelude.{ℕ, ◌+◌, ◌/◌, Bytes, List, [], length, Option, none, some, Result, ok, bind}
use pure_mls.Primitives.{Primitives}
use pure_mls.Ciphers.{Ciphers}
use pure_mls.Keys as Keys
use pure_mls.Keys.{SignatureKey, KemKey}
use pure_mls.Node.KeyPackage as KeyPackage
use pure_mls.Tree as Tree
use pure_mls.Epoch as Epoch
use pure_mls.Epoch.{EpochState}
use pure_mls.SecretTree as SecretTree
use pure_mls.SecretTree.{SecretTree}
use pure_mls.Group.Context as Context
use pure_mls.Group.Context.{make_group_context}

-- `consumed` is `_consumed_key_packages`, a set in the order of its insertions.
pub record MlsGroup : Type 0 where
  pub state : EpochState
  pub my_index : ℕ
  pub my_sig_key : SignatureKey
  pub my_kem_key : KemKey
  pub secret_tree : Option SecretTree
  pub interim_transcript_hash : Bytes
  pub consumed : List Bytes

-- `MLSGroup(...)`
unfoldable pub new : EpochState → ℕ → SignatureKey → KemKey → Bytes → MlsGroup
new st index sig kem interim = record {
  state = st;
  my_index = index;
  my_sig_key = sig;
  my_kem_key = kem;
  secret_tree = none;
  interim_transcript_hash = interim;
  consumed = [];
}

-- `_get_secret_tree`: the tree of the epoch, made where there is none.
unfoldable pub get_secret_tree : MlsGroup → SecretTree
get_secret_tree g = elim g.secret_tree [
  | some st ↦ st
  | none ↦
      SecretTree.new g.state.key_schedule.encryption_secret ((length g.state.tree.nodes + 1) / 2)
]

-- `_wipe_secret_tree`: the wiped tree is dropped.
unfoldable pub wipe_secret_tree : MlsGroup → MlsGroup
wipe_secret_tree g = record g { secret_tree = none }

unfoldable pub create :
    Primitives → Ciphers → Bytes → SignatureKey → KemKey → KemKey → Result MlsGroup
unfolding new
create p c group_id sig_key kem_key init_key =
    bind
      (KeyPackage.create kem_key.public_bytes init_key.public_bytes sig_key.public_bytes
        sig_key.public_bytes (Keys.sign c sig_key))
      (λ kp. bind (Tree.set_leaf (Tree.new 1) 0 kp.leaf_node) (λ tree.
        bind (make_group_context p group_id 0 tree []) (λ context.
          bind (Context.to_bytes context) (λ context_bytes.
            bind (Epoch.genesis p group_id tree context_bytes)
              (λ st. ok (new st 0 sig_key kem_key []))))))
