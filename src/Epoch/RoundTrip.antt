-- ===== src/Epoch/RoundTrip.antt =====
-- The stored form of `EpochState` of src/pure_mls/epoch.py, and `advance_epoch`. A stored tree loses the leaf
-- fields that are not on the wire; `on_the_wire` is what is left.
use pure_mls.Prelude.{
  ℕ, ◌+◌, ◌*◌, ◌≡◌, refl, sym, ap, ◌∙◌, Bytes, length, ok, bind, ◌⊕◌, bind-eq-ok, ok-injective,
  List, subst,
}
use pure_mls.Primitives.{Primitives}
use pure_mls.Wire.Reader.{◌>>=◌, lift, pure}
use pure_mls.Wire.RoundTrip.{RoundTrips, bind-RoundTrips, lift-RoundTrips, read_whole-RoundTrips}
use pure_mls.Tls.Ints.{int_to_bytes, from_be}
use pure_mls.Tls.Ints.Digits.{int_to_bytes-eq-ok, length-to_be, from_be-to_be}
use pure_mls.Tls.Opaque.{read_fixed}
use pure_mls.Capabilities.RoundTrip.{read_fixed-RoundTrips}
use pure_mls.KeySchedule as Schedule
use pure_mls.KeySchedule.{KeySchedule, PreSharedKeyId, derive_confirmation_key}
use pure_mls.KeySchedule.Derive.{derive_confirmation_key-derive}
use pure_mls.KeySchedule.RoundTrip.{HasSizes, from_bytes-to_bytes_secrets, length-to_bytes}
use pure_mls.Tree.{RatchetTree}
use pure_mls.Tree.Paths.{IsFull}
use pure_mls.Tree.Wire as TreeWire
use pure_mls.Tree.Wire.RoundTrip as TreeLaws
use pure_mls.Epoch.{EpochState, new, to_bytes, from_bytes, read_int, read_state, advance_epoch}

pub read_int-RoundTrips : (n v : ℕ) → RoundTrips (read_int n) (int_to_bytes n v) v
unfolding read_int
read_int-RoundTrips n v = record {
  decodes = λ e h pre rest.
      let (small, digits) = int_to_bytes-eq-ok n v e h in
      let size : length e ≡ n = ap length (sym digits) ∙ length-to_be n v in
      let back : from_be e ≡ v = ap from_be (sym digits) ∙ from_be-to_be n v small in
      let taken = (read_fixed-RoundTrips e).decodes e refl pre rest in rw (← size, taken, back);
}

schedule-RoundTrips :
    (k : KeySchedule)
    → HasSizes k
    → RoundTrips (read_fixed (11 * 32)) (ok (Schedule.to_bytes k)) (Schedule.to_bytes k)
schedule-RoundTrips k h =
    subst (λ n. RoundTrips (read_fixed n) (ok (Schedule.to_bytes k)) (Schedule.to_bytes k))
      (length-to_bytes k h) (read_fixed-RoundTrips (Schedule.to_bytes k))

-- The state as it comes back: the leaves have what the wire keeps of them, and the tree is frozen.
pub on_the_wire : EpochState → EpochState
on_the_wire st = new st.group_id st.epoch_id (TreeLaws.on_the_wire st.tree) st.key_schedule

last_field :
    (st : EpochState)
    → HasSizes st.key_schedule
    → RoundTrips
        (read_fixed (11 * 32) >>= λ raw.
          (lift (Schedule.from_bytes raw) >>= λ schedule.
          pure (new st.group_id st.epoch_id (TreeLaws.on_the_wire st.tree) schedule)))
        (ok (Schedule.to_bytes st.key_schedule))
        (on_the_wire st)
unfolding ◌>>=◌ lift pure on_the_wire
last_field st h = record {
  decodes = λ e he pre rest. rw (
    (schedule-RoundTrips st.key_schedule h).decodes e he pre rest,
    from_bytes-to_bytes_secrets st.key_schedule h,
  );
}

state-RoundTrips :
    (st : EpochState) (d : ℕ) (tree_bytes : Bytes)
    → IsFull d st.tree
    → HasSizes st.key_schedule
    → TreeWire.to_bytes st.tree ≡ ok tree_bytes
    → RoundTrips read_state
        (int_to_bytes 2 (length st.group_id)
          ⊕ ok st.group_id
          ⊕ int_to_bytes 8 st.epoch_id
          ⊕ int_to_bytes 4 (length tree_bytes)
          ⊕ ok tree_bytes
          ⊕ ok (Schedule.to_bytes st.key_schedule))
        (on_the_wire st)
unfolding read_state on_the_wire
state-RoundTrips st d tree_bytes f h ht =
    bind-RoundTrips _ (read_int-RoundTrips 2 (length st.group_id)) (
      bind-RoundTrips _ (read_fixed-RoundTrips st.group_id) (
        bind-RoundTrips _ (read_int-RoundTrips 8 st.epoch_id) (
          bind-RoundTrips _ (read_int-RoundTrips 4 (length tree_bytes)) (
            bind-RoundTrips _ (read_fixed-RoundTrips tree_bytes) (
              lift-RoundTrips (TreeWire.from_bytes tree_bytes) _
                (TreeLaws.from_bytes-to_bytes st.tree d tree_bytes f ht) (last_field st h))))))

-- If the tree's array is full and the secrets have 32 bytes each, a stored epoch is loaded with its group, its
-- number and its secrets, and with its tree up to the leaf fields that are not on the wire: a leaf from a key package
-- comes back with a lifetime, zeros where it had none, and no parent hash, a leaf from a commit with a parent hash,
-- empty where it had none, and no lifetime, and any other with neither. The tree that comes back is frozen.
pub from_bytes-to_bytes_stored :
    (st : EpochState) (d : ℕ) (e : Bytes)
    → IsFull d st.tree
    → HasSizes st.key_schedule
    → to_bytes st ≡ ok e
    → from_bytes e ≡ ok (on_the_wire st)
unfolding from_bytes to_bytes
from_bytes-to_bytes_stored st d e f h ht =
    let (tree_bytes, hb, hr) = bind-eq-ok (TreeWire.to_bytes st.tree) _ ht in
    rw (read_whole-RoundTrips (state-RoundTrips st d tree_bytes f h hb) hr)

-- Where `advance_epoch` returns, the next epoch has the same group and the next number, and its
-- confirmation key is the one that `derive_confirmation_key` gives from the init secret of the
-- epoch before.
pub advance_epoch-confirmed :
    (p : Primitives) (st next : EpochState) (commit context : Bytes) (tree : RatchetTree)
    (psks : List (PreSharedKeyId × Bytes))
    → advance_epoch p st commit tree context psks ≡ ok next
    → (next.group_id ≡ st.group_id)
      × (next.epoch_id ≡ st.epoch_id + 1)
      × (derive_confirmation_key p st.key_schedule.init_secret commit context psks
          ≡ ok next.key_schedule.confirmation_key)
unfolding advance_epoch new
advance_epoch-confirmed p st next commit context tree psks h =
    let (k, hk, hn) =
      bind-eq-ok (Schedule.derive p st.key_schedule.init_secret commit context psks) _ h in
    let same = sym (ok-injective hn) in
    (
      ap (λ s. s.group_id) same,
      ap (λ s. s.epoch_id) same,
      derive_confirmation_key-derive p st.key_schedule.init_secret commit context psks
          ∙ ap (λ m. bind m (λ k. ok k.confirmation_key)) hk
          ∙ ap (λ s. ok s.key_schedule.confirmation_key) (sym same),
    )
