-- ===== src/Epoch.antt =====
-- src/pure_mls/epoch.py: the state of a group in one epoch.
use pure_mls.Prelude.{
  ℕ, ◌+◌, ◌*◌, Bytes, [], ◌++◌, length, replicate, Result, ok, err, bind, ◌⊕◌, List,
}
use pure_mls.Primitives.{Primitives}
use pure_mls.Wire.Reader.{Reader, ◌>>=◌, pure, lift}
use pure_mls.Tls.Ints.{int_to_bytes, from_be}
use pure_mls.Tls.Opaque.{read_fixed}
use pure_mls.KeySchedule as Schedule
use pure_mls.KeySchedule.{KeySchedule, PreSharedKeyId}
use pure_mls.Tree.{RatchetTree, freeze}
use pure_mls.Tree.Wire as TreeWire
pub mod RoundTrip

pub record EpochState : Type 0 where
  pub group_id : Bytes
  pub epoch_id : ℕ
  pub tree : RatchetTree
  pub key_schedule : KeySchedule

-- `EpochState(...)`: `__post_init__` keeps a frozen copy of the tree.
unfoldable pub new : Bytes → ℕ → RatchetTree → KeySchedule → EpochState
unfolding freeze
new group_id' epoch_id' tree' schedule = record {
  group_id = group_id';
  epoch_id = epoch_id';
  tree = freeze tree';
  key_schedule = schedule;
}

unfoldable pub advance_epoch :
    Primitives
    → EpochState
    → Bytes
    → RatchetTree
    → Bytes
    → List (PreSharedKeyId × Bytes)
    → Result EpochState
unfolding new
advance_epoch p st commit_secret next_tree group_context psk_list =
    bind (Schedule.derive p st.key_schedule.init_secret commit_secret group_context psk_list)
      (λ next_schedule. ok (new st.group_id (st.epoch_id + 1) next_tree next_schedule))

unfoldable pub genesis : Primitives → Bytes → RatchetTree → Bytes → Result EpochState
unfolding new
genesis p group_id' creator_tree group_context_bytes =
    bind (Schedule.derive p (replicate 32 0) (replicate 32 0) group_context_bytes [])
      (λ schedule. ok (new group_id' 0 creator_tree schedule))

unfoldable pub to_bytes : EpochState → Result Bytes
to_bytes st = bind (TreeWire.to_bytes st.tree) (λ tree_bytes.
    int_to_bytes 2 (length st.group_id)
    ⊕ ok st.group_id
    ⊕ int_to_bytes 8 st.epoch_id
    ⊕ int_to_bytes 4 (length tree_bytes)
    ⊕ ok tree_bytes
    ⊕ ok (Schedule.to_bytes st.key_schedule))

-- `int.from_bytes(data[offset : offset + n], "big")`
unfoldable pub read_int : ℕ → Reader ℕ
unfolding ◌>>=◌ pure
read_int n = read_fixed n >>= λ b. pure (from_be b)

unfoldable pub read_state : Reader EpochState
unfolding ◌>>=◌ pure lift read_int new
read_state = do
  gid_len ← read_int 2
  gid ← read_fixed gid_len
  eid ← read_int 8
  t_len ← read_int 4
  tree_bytes ← read_fixed t_len
  tree' ← lift (TreeWire.from_bytes tree_bytes)
  raw ← read_fixed (11 * 32)
  schedule ← lift (Schedule.from_bytes raw)
  pure (new gid eid tree' schedule)

-- What is behind the key schedule is dropped.
unfoldable pub from_bytes : Bytes → Result EpochState
from_bytes raw = bind (read_state raw 0) (λ p. ok p.0)
