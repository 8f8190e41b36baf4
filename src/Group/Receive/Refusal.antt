-- ===== src/Group/Receive/Refusal.antt =====
-- The first two checks of `process_update` of src/pure_mls/group.py, on the group and the epoch of a commit.
use pure_mls.Prelude.{◌+◌, ◌≡◌, ◌≢◌, Bool-cases, ◌⊎◌, inl, inr, err, ◌==◌, ==_iff, value_error}
use pure_mls.Primitives.{Primitives}
use pure_mls.Ciphers.{Ciphers}
use pure_mls.Codecs.{same_bytes}
use pure_mls.Codecs.RoundTrip.{same_bytes-eq}
use pure_mls.Group.Update.{GroupUpdate}
use pure_mls.Group.State.{MlsGroup}
use pure_mls.Group.Receive.{processed, process_update}

processed-refused :
    (p : Primitives) (c : Ciphers) (g : MlsGroup) (u : GroupUpdate)
    → (u.group_id ≢ g.state.group_id) ⊎ (u.epoch_id ≢ g.state.epoch_id + 1)
    → processed p c g u ≡ err value_error
unfolding processed
processed-refused p c g u other = elim (Bool-cases (same_bytes u.group_id g.state.group_id)) [
  | inr wrong ↦ rw wrong
  | inl right ↦ elim (Bool-cases (u.epoch_id == g.state.epoch_id + 1)) [
    | inr wrong ↦ rw (right, wrong)
    | inl next ↦ elim other [
      | inl n ↦ absurd (n (same_bytes-eq u.group_id g.state.group_id right))
      | inr n ↦ absurd (n ((==_iff u.epoch_id (g.state.epoch_id + 1)).0 next))
    ]
  ]
]

-- A commit for another group or for another epoch than the next raises a `ValueError`, and the group stays as it was.
pub process_update-refused :
    (p : Primitives) (c : Ciphers) (g : MlsGroup) (u : GroupUpdate)
    → (u.group_id ≢ g.state.group_id) ⊎ (u.epoch_id ≢ g.state.epoch_id + 1)
    → process_update p c g u ≡ (err value_error, g)
unfolding process_update
process_update-refused p c g u other = rw (processed-refused p c g u other, process_update)
