-- ===== src/Group/Member/Epochs.antt =====
-- The epochs that `update_key`, `remove_member`, `add_member` and `process_update` of src/pure_mls/group.py lead
-- through.
use pure_mls.Prelude.{
  ℕ, zero, suc, ◌+◌, ◌*◌, ◌≡◌, refl, sym, ap, ◌∙◌, arith, Bool, true, false, Bool-cases, inl, inr,
  Bytes, [], some, Result, ok, err, ok-injective, err-ne-ok, bind-eq-ok, ◌==◌, ltb,
}
use pure_mls.Primitives.{Primitives}
use pure_mls.Ciphers.{Ciphers}
use pure_mls.Keys as Keys
use pure_mls.Node.KeyPackage as KeyPackage
use pure_mls.Node.KeyPackage.{KeyPackage}
use pure_mls.Epoch.{advance_epoch}
use pure_mls.Epoch.RoundTrip.{advance_epoch-confirmed}
use pure_mls.Tree as Tree
use pure_mls.Tree.{remove_leaf}
use pure_mls.Group.Context.{make_kp_ref}
use pure_mls.Group.Framing as Framing
use pure_mls.Group.Framing.{framed_content_tbs}
use pure_mls.Group.Dict.{Dict, mem_bytes, set_add}
use pure_mls.Group.Update as Update
use pure_mls.Group.Update.{GroupUpdate, body_bytes}
use pure_mls.Group.Welcome.{Welcome}
use pure_mls.Group.State.{MlsGroup}
use pure_mls.Group.Commit.{
  Fresh, Pathed, Committed, make_path, finish, framed, old_context, confirm,
}
use pure_mls.Group.Member.{
  copy_into, seal_then_ref, ref_then_seal, commit_secrets, after_commit, left_behind, updated,
  update_key, removal, removed, add_unless, add_referred, remove_member, placed_tree, make_welcome,
  added, add_member,
}
use pure_mls.Group.Receive.{process_update}
use pure_mls.Group.Receive.Guards.{process_update-accepted, process_update-member}

-- The next epoch of a group: its number is one more, and the group and the member are the same.
pub record Follows (g next : MlsGroup) : Type 0 where
  pub number : next.state.epoch_id ≡ g.state.epoch_id + 1
  pub group : next.state.group_id ≡ g.state.group_id
  pub member : next.my_index ≡ g.my_index

left_behind-ok {ℓ} :
    {A : Type ℓ} (g : MlsGroup) (r : Result A) {a : A} {before : MlsGroup}
    → left_behind g r ≡ (ok a, before)
    → r ≡ ok a
left_behind-ok g (ok b) h = ap (λ q. q.0) h
left_behind-ok g (err e) h = absurd (err-ne-ok (ap (λ q. q.0) h))

finish-next :
    (p : Primitives) (c : Ciphers) (g : MlsGroup) (path : Pathed) (secrets : Dict)
    (done : Committed)
    → finish p c g path secrets ≡ ok done
    → (done.next_state.epoch_id ≡ g.state.epoch_id + 1)
      × (done.next_state.group_id ≡ g.state.group_id)
unfolding finish
finish-next p c g path secrets done h =
    let (body, _, r1) =
      bind-eq-ok
        (body_bytes (
          Update.new (g.state.epoch_id + 1) path.new_tree secrets g.my_index [] g.state.group_id
            (some path.update_path)))
        _ h in
    let (fb, _, r2) = bind-eq-ok (Framing.to_bytes (framed g g.my_index body)) _ r1 in
    let (old, _, r3) = bind-eq-ok (old_context p g) _ r2 in
    let (tbs, _, r4) = bind-eq-ok (framed_content_tbs old (framed g g.my_index body)) _ r3 in
    let (n, _, r5) =
      bind-eq-ok (confirm p g path.new_tree path.commit_secret fb (Keys.sign c g.my_sig_key tbs)) _
        r4 in
    let (next, hn, r6) =
      bind-eq-ok (advance_epoch p g.state path.commit_secret path.new_tree n.1.0 []) _ r5 in
    let (group, number, _) =
      advance_epoch-confirmed p g.state next path.commit_secret n.1.0 path.new_tree [] hn in
    let here : next ≡ done.next_state = ap (λ t. t.next_state) (ok-injective r6) in
    (ap (λ s. s.epoch_id) (sym here) ∙ number, ap (λ s. s.group_id) (sym here) ∙ group)

after-Follows :
    (p : Primitives) (c : Ciphers) (g next : MlsGroup) (path : Pathed) (secrets : Dict)
    (done : Committed)
    → finish p c g path secrets ≡ ok done
    → next.state ≡ done.next_state
    → next.my_index ≡ g.my_index
    → Follows g next
after-Follows p c g next path secrets done h same mine =
    let (number', group') = finish-next p c g path secrets done h in
    record {
      number = ap (λ s. s.epoch_id) same ∙ number';
      group = ap (λ s. s.group_id) same ∙ group';
      member = mine;
    }

module _ (p : Primitives) (c : Ciphers) (r : Fresh) (g next : MlsGroup) where
  updated-Follows : (u : GroupUpdate) → updated p c r g ≡ ok (next, u) → Follows g next
  unfolding updated after_commit
  updated-Follows u h =
      let (tree, _, r1) =
        bind-eq-ok (copy_into (Tree.new g.state.tree.num_leaves) 0 g.state.tree.nodes) _ h in
      let (path, _, r2) = bind-eq-ok (make_path p c g r tree) _ r1 in
      let (secrets, _, r3) =
        bind-eq-ok
          (commit_secrets (ref_then_seal p c r path) (2 * g.my_index) 0 path.new_tree.nodes []) _
          r2 in
      let (done, hd, r4) = bind-eq-ok (finish p c g path secrets) _ r3 in
      let same = ok-injective r4 in
      after-Follows p c g next path secrets done hd (ap (λ t. t.0.state) (sym same))
        (ap (λ t. t.0.my_index) (sym same))

  removed-Follows :
      (target : ℕ) (u : GroupUpdate) → removed p c r g target ≡ ok (next, u) → Follows g next
  unfolding removed removal after_commit
  removed-Follows target u h = elim (Bool-cases (target == g.my_index)) [
    | inl mine ↦ absurd (err-ne-ok (rw mine at h))
    | inr other ↦ elim (Bool-cases (ltb target g.state.tree.num_leaves)) [
      | inr outside ↦ absurd (err-ne-ok (rw (other, outside) at h))
      | inl inside ↦ after_removal (rw (other, inside) at h)
    ]
  ]
    where
      after_removal : removal p c r g target ≡ ok (next, u) → Follows g next
      after_removal h =
          let (tree, _, r1) = bind-eq-ok (remove_leaf g.state.tree (2 * target)) _ h in
          let (path, _, r2) = bind-eq-ok (make_path p c g r tree) _ r1 in
          let (secrets, _, r3) =
            bind-eq-ok
              (commit_secrets (ref_then_seal p c r path) (2 * g.my_index) 0 path.new_tree.nodes [])
              _ r2 in
          let (done, hd, r4) = bind-eq-ok (finish p c g path secrets) _ r3 in
          let same = ok-injective r4 in
          after-Follows p c g next path secrets done hd (ap (λ t. t.0.state) (sym same))
            (ap (λ t. t.0.my_index) (sym same))

  added-Follows :
      (kp : KeyPackage) (w : Welcome) (u : GroupUpdate)
      → added p c r g kp ≡ ok (next, (w, u))
      → Follows g next
  unfolding added after_commit
  added-Follows kp w u h =
      let (tree, _, r1) = bind-eq-ok (placed_tree g.state.tree kp) _ h in
      let (_, _, r2) = bind-eq-ok (KeyPackage.verify_signature p kp) _ r1 in
      let (path, _, r3) = bind-eq-ok (make_path p c g r tree) _ r2 in
      let (secrets, _, r4) =
        bind-eq-ok
          (commit_secrets (seal_then_ref p c r path) (2 * g.my_index) 0 path.new_tree.nodes []) _
          r3 in
      let (done, hd, r5) = bind-eq-ok (finish p c g path secrets) _ r4 in
      let (welcome, _, r6) = bind-eq-ok (make_welcome p c r g kp path.new_tree done) _ r5 in
      let same = ok-injective r6 in
      after-Follows p c g next path secrets done hd (ap (λ t. t.0.state) (sym same))
        (ap (λ t. t.0.my_index) (sym same))

-- One epoch: the group takes up a commit, or its member commits.
pub data Step (p : Primitives) (c : Ciphers) : MlsGroup → MlsGroup → Type 0 where
  by_update :
      {g next before : MlsGroup} {u : GroupUpdate} (r : Fresh)
      → update_key p c r g ≡ (ok (next, u), before)
      → Step p c g next
  by_removal :
      {g next before : MlsGroup} {u : GroupUpdate} (r : Fresh) (target : ℕ)
      → remove_member p c r g target ≡ (ok (next, u), before)
      → Step p c g next
  by_addition :
      {g next before : MlsGroup} {w : Welcome} {u : GroupUpdate} (r : Fresh) (kp : KeyPackage)
      → add_member p c r g kp ≡ (ok (next, (w, u)), before)
      → Step p c g next
  by_commit :
      {g next before : MlsGroup} (u : GroupUpdate)
      → process_update p c g u ≡ (ok next, before)
      → Step p c g next

-- `n` epochs.
pub data Steps (p : Primitives) (c : Ciphers) : ℕ → MlsGroup → MlsGroup → Type 0 where
  here : {g : MlsGroup} → Steps p c zero g g
  then :
      {n : ℕ} {g mid next : MlsGroup}
      → Step p c g mid
      → Steps p c n mid next
      → Steps p c (suc n) g next

noted : MlsGroup → Bytes → MlsGroup
noted g ref = record g { consumed = set_add g.consumed ref }

unless-ok :
    (p : Primitives) (c : Ciphers) (r : Fresh) (g before : MlsGroup) (kp : KeyPackage) (ref : Bytes)
    (known : Bool) (a : MlsGroup × (Welcome × GroupUpdate))
    → add_unless p c r g kp ref known ≡ (ok a, before)
    → added p c r (noted g ref) kp ≡ ok a
unfolding add_unless noted
unless-ok p c r g before kp ref true a h = absurd (err-ne-ok (ap (λ q. q.0) h))
unless-ok p c r g before kp ref false a h =
    left_behind-ok (noted g ref) (added p c r (noted g ref) kp) h

-- Where `add_member` returns, what it returns is what `added` gives for the group with some reference noted.
referred-ok :
    (p : Primitives) (c : Ciphers) (r : Fresh) (g before : MlsGroup) (kp : KeyPackage)
    (reference : Result Bytes) (a : MlsGroup × (Welcome × GroupUpdate))
    → add_referred p c r g kp reference ≡ (ok a, before)
    → (ref : Bytes) × (added p c r (noted g ref) kp ≡ ok a)
unfolding add_referred
referred-ok p c r g before kp (err e) a h = absurd (err-ne-ok (ap (λ q. q.0) h))
referred-ok p c r g before kp (ok ref) a h =
    (ref, unless-ok p c r g before kp ref (mem_bytes g.consumed ref) a h)

Step-Follows : (p : Primitives) (c : Ciphers) (g next : MlsGroup) → Step p c g next → Follows g next
unfolding update_key remove_member add_member noted
Step-Follows p c g next (by_update {u} r h) =
    updated-Follows p c r g next u (left_behind-ok g (updated p c r g) h)
Step-Follows p c g next (by_removal {u} r target h) =
    removed-Follows p c r g next target u (left_behind-ok g (removed p c r g target) h)
Step-Follows p c g next (by_addition {before} {w} {u} r kp h) =
    let (ref, h') = referred-ok p c r g before kp (make_kp_ref p kp) (next, (w, u)) h in
    let f = added-Follows p c r (noted g ref) next kp w u h' in
    record { number = f.number; group = f.group; member = f.member }
Step-Follows p c g next (by_commit {before} u h) =
    let (_, _, _, (group', number')) = process_update-accepted p c g u next before h in
    record {
      number = number';
      group = group';
      member = process_update-member p c g u next before h;
    }

-- Whatever sequence of commits, of its own and of others, a member goes through, the epoch's number grows by one
-- with each of them, and the group and the member's leaf stay the same.
pub Steps-epochs :
    (p : Primitives) (c : Ciphers) (n : ℕ) (g last : MlsGroup)
    → Steps p c n g last
    → (last.state.epoch_id ≡ g.state.epoch_id + n)
      × (last.state.group_id ≡ g.state.group_id)
      × (last.my_index ≡ g.my_index)
Steps-epochs p c zero g last here = (omega arith, refl, refl)
Steps-epochs p c (suc n) g last (then {mid} s ss) =
    let f = Step-Follows p c g mid s in
    let (number, group, member) = Steps-epochs p c n mid last ss in
    (omega (arith, number, f.number), group ∙ f.group, member ∙ f.member)
