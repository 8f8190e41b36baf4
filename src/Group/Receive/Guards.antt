-- ===== src/Group/Receive/Guards.antt =====
-- The checks of `process_update` of src/pure_mls/group.py, read off a call that returned.
use pure_mls.Prelude.{
  ◌+◌, ◌*◌, ◌≡◌, sym, ap, ap₂, ◌∙◌, inl, inr, Bytes, [], some, Result, Result-cases, ok, err,
  ok-injective, err-ne-ok, bind, bind-eq-ok, ◌==◌, ==_iff,
}
use pure_mls.Primitives.{Primitives}
use pure_mls.Ciphers.{Ciphers}
use pure_mls.Codecs.{same_bytes}
use pure_mls.Codecs.RoundTrip.{same_bytes-eq}
use pure_mls.Node.Leaf.{LeafNode}
use pure_mls.Node.KeyPackage.{of_leaf}
use pure_mls.Tree.{leaf, get_node}
use pure_mls.Epoch.{EpochState, advance_epoch}
use pure_mls.Epoch.RoundTrip.{advance_epoch-confirmed}
use pure_mls.KeySchedule.{derive_confirmation_key}
use pure_mls.Group.Context as Context
use pure_mls.Group.Context.{GroupContext, make_group_context, make_kp_ref}
use pure_mls.Group.Framing as Framing
use pure_mls.Group.Framing.{
  framed_content_tbs, confirmed_input, confirmed_transcript_hash, interim_transcript_hash,
}
use pure_mls.Group.Update.{GroupUpdate, body_bytes}
use pure_mls.Group.State as State
use pure_mls.Group.State.{MlsGroup, wipe_secret_tree}
use pure_mls.Group.Commit.{framed, old_context, confirm}
use pure_mls.Group.Receive.{
  leaf_or_value_error, check, verify_leaves, commit_secret_of, verified_tbs, check_tag, taken_up,
  processed, process_update,
}
use pure_mls.Group.Receive.Checks.{check-true, check_tag-eq, leaf-eq, signature_or_raise-eq}

processed-ok :
    (p : Primitives) (c : Ciphers) (g : MlsGroup) (u : GroupUpdate) (next before : MlsGroup)
    → process_update p c g u ≡ (ok next, before)
    → processed p c g u ≡ ok next
unfolding process_update
processed-ok p c g u next before h = elim (Result-cases (processed p c g u)) [
  | inl (n, fine) ↦
      let both : Path (Result MlsGroup × MlsGroup) (ok n, wipe_secret_tree g) (ok next, before) =
        rw (fine, process_update) at h in
      fine ∙ ap (λ q. q.0) both
  | inr (e, failed) ↦
      let both : Path (Result MlsGroup × MlsGroup) (err e, g) (ok next, before) =
        rw (failed, process_update) at h in
      absurd (err-ne-ok (ap (λ q. q.0) both))
]

-- The confirmation tag of a commit is under the confirmation key of the epoch that it leads to.
confirm-advance_epoch :
    (p : Primitives) (g : MlsGroup) (u : GroupUpdate) (secret framed_bytes : Bytes)
    (n : GroupContext × (Bytes × (Bytes × Bytes))) (st : EpochState)
    → confirm p g u.tree secret framed_bytes u.signature ≡ ok n
    → advance_epoch p g.state secret u.tree n.1.0 [] ≡ ok st
    → (st.group_id ≡ g.state.group_id)
      × (st.epoch_id ≡ g.state.epoch_id + 1)
      × (n.1.1.1 ≡ p.hmac_sha256 st.key_schedule.confirmation_key n.1.1.0)
unfolding confirm
confirm-advance_epoch p g u secret framed_bytes n st hn hst =
    let (input, hi, h1) = bind-eq-ok (confirmed_input framed_bytes u.signature) _ hn in
    let hash = confirmed_transcript_hash p g.interim_transcript_hash input in
    let (context, hc, h2) =
      bind-eq-ok (make_group_context p g.state.group_id (g.state.epoch_id + 1) u.tree hash) _ h1 in
    let (bytes, hb, h3) = bind-eq-ok (Context.to_bytes context) _ h2 in
    let (key, hk, h4) =
      bind-eq-ok (derive_confirmation_key p g.state.key_schedule.init_secret secret bytes []) _
        h3 in
    let same = ok-injective h4 in
    let (group, number, confirmed) =
      advance_epoch-confirmed p g.state st secret n.1.0 u.tree [] hst in
    let at_bytes : n.1.0 ≡ bytes = sym (ap (λ t. t.1.0) same) in
    let one_key : key ≡ st.key_schedule.confirmation_key = ok-injective (
      sym hk
      ∙ ap (λ b. derive_confirmation_key p g.state.key_schedule.init_secret secret b [])
          (sym at_bytes)
      ∙ confirmed) in
    (
      group,
      number,
      sym (ap (λ t. t.1.1.1) same) ∙ ap₂ p.hmac_sha256 one_key (ap (λ t. t.1.1.0) same),
    )

-- What the signature of a commit covers: its body, framed with the group, the epoch and the committer, under the
-- context of the group as it is.
abbrev pub signed_content : Primitives → MlsGroup → GroupUpdate → Result Bytes
signed_content p g u = bind (body_bytes u) (λ body.
    bind (old_context p g) (λ old. framed_content_tbs old (framed g u.committer_index body)))

verified_tbs-checked :
    (p : Primitives) (g : MlsGroup) (u : GroupUpdate) (committer : LeafNode) (body tbs : Bytes)
    → body_bytes u ≡ ok body
    → verified_tbs p g u committer body ≡ ok tbs
    → (signed_content p g u ≡ ok tbs)
      × (p.ed25519_check committer.signature_key u.signature tbs ≡ ok tt)
unfolding verified_tbs
verified_tbs-checked p g u committer body tbs hb h =
    let (old, h1, r1) = bind-eq-ok (old_context p g) _ (signature_or_raise-eq _ h) in
    let (_, h2, r2) = bind-eq-ok (p.ed25519_load committer.signature_key) _ r1 in
    let (t, h3, r3) = bind-eq-ok (framed_content_tbs old (framed g u.committer_index body)) _ r2 in
    let (tt, h4, r4) = bind-eq-ok (p.ed25519_check committer.signature_key u.signature t) _ r3 in
    (
      rw (hb, h1, h3) r4,
      ap (λ x. p.ed25519_check committer.signature_key u.signature x) (sym (ok-injective r4)) ∙ h4,
    )

-- What comes before: a commit that is taken up had a commit secret.
rest-taken_up :
    (p : Primitives) (c : Ciphers) (g : MlsGroup) (u : GroupUpdate) (l : LeafNode) (next : MlsGroup)
    → bind (verify_leaves p g.state.group_id u.tree u.tree.num_leaves 0) (λ _.
      bind (leaf_or_value_error (get_node g.state.tree (2 * g.my_index))) (λ mine.
        bind
          (make_group_context p g.state.group_id u.epoch_id u.tree g.interim_transcript_hash)
          (λ context. bind (make_kp_ref p (of_leaf mine)) (λ ref.
            bind (commit_secret_of p c g u context ref) (λ secret. taken_up p g u l secret)))))
      ≡ ok next
    → (secret : Bytes) × (taken_up p g u l secret ≡ ok next)
rest-taken_up p c g u l next h =
    let (_, h1, r1) =
      bind-eq-ok (verify_leaves p g.state.group_id u.tree u.tree.num_leaves 0) _ h in
    let (mine, h2, r2) =
      bind-eq-ok (leaf_or_value_error (get_node g.state.tree (2 * g.my_index))) _ r1 in
    let (context, h3, r3) =
      bind-eq-ok (make_group_context p g.state.group_id u.epoch_id u.tree g.interim_transcript_hash)
        _ r2 in
    let (ref, h4, r4) = bind-eq-ok (make_kp_ref p (of_leaf mine)) _ r3 in
    let (secret, h5, r5) = bind-eq-ok (commit_secret_of p c g u context ref) _ r4 in (secret, r5)

taken_up-accepted :
    (p : Primitives) (g : MlsGroup) (u : GroupUpdate) (committer : LeafNode) (secret : Bytes)
    (next : MlsGroup)
    → taken_up p g u committer secret ≡ ok next
    → ((tbs : Bytes) × ((signed_content p g u ≡ ok tbs)
          × (p.ed25519_check committer.signature_key u.signature tbs ≡ ok tt)
          × (u.membership_tag ≡ some (p.hmac_sha256 g.state.key_schedule.membership_key tbs))))
      × ((hash : Bytes) × (u.confirmation_tag
            ≡ some (p.hmac_sha256 next.state.key_schedule.confirmation_key hash)))
      × ((next.state.group_id ≡ g.state.group_id) × (next.state.epoch_id ≡ g.state.epoch_id + 1))
unfolding taken_up State.new
taken_up-accepted p g u committer secret next h =
    let (body, h1, r1) = bind-eq-ok (body_bytes u) _ h in
    let (fb, h2, r2) = bind-eq-ok (Framing.to_bytes (framed g u.committer_index body)) _ r1 in
    let (tbs, h3, r3) = bind-eq-ok (verified_tbs p g u committer body) _ r2 in
    let (_, h4, r4) =
      bind-eq-ok
        (check_tag u.membership_tag (p.hmac_sha256 g.state.key_schedule.membership_key tbs)) _ r3 in
    let (n, h5, r5) = bind-eq-ok (confirm p g u.tree secret fb u.signature) _ r4 in
    let (_, h6, r6) = bind-eq-ok (check_tag u.confirmation_tag n.1.1.1) _ r5 in
    let (st, h7, r7) = bind-eq-ok (advance_epoch p g.state secret u.tree n.1.0 []) _ r6 in
    let here : st ≡ next.state = ap (λ t. t.state) (ok-injective r7) in
    let (group, number, confirmed) = confirm-advance_epoch p g u secret fb n st h5 h7 in
    (
      (let checked = verified_tbs-checked p g u committer body tbs h1 h3 in
          (tbs, (checked.0, checked.1, check_tag-eq u.membership_tag _ h4))),
      (
        n.1.1.0,
        check_tag-eq u.confirmation_tag n.1.1.1 h6
            ∙ ap some
                (confirmed ∙ ap (λ s. p.hmac_sha256 s.key_schedule.confirmation_key n.1.1.0) here),
      ),
      (ap (λ s. s.group_id) (sym here) ∙ group, ap (λ s. s.epoch_id) (sym here) ∙ number),
    )

-- A commit that a member takes up names the member's group and the next epoch, and its committer is a leaf of the
-- member's tree; its signature was accepted under that leaf's key for the commit's body in the member's
-- group and epoch, its membership tag is the HMAC of that same content under the epoch's membership key, and its confirmation tag is an HMAC under the confirmation key of the
-- epoch that the member is in then, which has the same group and the next number.
pub process_update-accepted :
    (p : Primitives) (c : Ciphers) (g : MlsGroup) (u : GroupUpdate) (next before : MlsGroup)
    → process_update p c g u ≡ (ok next, before)
    → ((u.group_id ≡ g.state.group_id) × (u.epoch_id ≡ g.state.epoch_id + 1))
      × ((committer : LeafNode) × ((get_node g.state.tree (2 * u.committer_index)
              ≡ some (leaf committer))
            × ((tbs : Bytes) × ((signed_content p g u ≡ ok tbs)
                  × (p.ed25519_check committer.signature_key u.signature tbs ≡ ok tt)
                  × (u.membership_tag
                      ≡ some (p.hmac_sha256 g.state.key_schedule.membership_key tbs))))))
      × ((hash : Bytes) × (u.confirmation_tag
            ≡ some (p.hmac_sha256 next.state.key_schedule.confirmation_key hash)))
      × ((next.state.group_id ≡ g.state.group_id) × (next.state.epoch_id ≡ g.state.epoch_id + 1))
unfolding processed
process_update-accepted p c g u next before h =
    let (_, h1, r1) =
      bind-eq-ok (check (same_bytes u.group_id g.state.group_id)) _
        (processed-ok p c g u next before h) in
    let (_, h2, r2) = bind-eq-ok (check (u.epoch_id == g.state.epoch_id + 1)) _ r1 in
    let (l, h3, r3) =
      bind-eq-ok (leaf_or_value_error (get_node g.state.tree (2 * u.committer_index))) _ r2 in
    let (secret, taken) = rest-taken_up p c g u l next r3 in
    let (by_member, confirmed, after) = taken_up-accepted p g u l secret next taken in
    (
      (
        same_bytes-eq u.group_id g.state.group_id (check-true _ h1),
        (==_iff u.epoch_id (g.state.epoch_id + 1)).0 (check-true _ h2),
      ),
      (l, (leaf-eq _ h3, by_member)),
      confirmed,
      after,
    )

taken_up-member :
    (p : Primitives) (g : MlsGroup) (u : GroupUpdate) (committer : LeafNode) (secret : Bytes)
    (next : MlsGroup)
    → taken_up p g u committer secret ≡ ok next
    → next.my_index ≡ g.my_index
unfolding taken_up State.new
taken_up-member p g u committer secret next h =
    let (body, _, r1) = bind-eq-ok (body_bytes u) _ h in
    let (fb, _, r2) = bind-eq-ok (Framing.to_bytes (framed g u.committer_index body)) _ r1 in
    let (tbs, _, r3) = bind-eq-ok (verified_tbs p g u committer body) _ r2 in
    let (_, _, r4) =
      bind-eq-ok
        (check_tag u.membership_tag (p.hmac_sha256 g.state.key_schedule.membership_key tbs)) _ r3 in
    let (n, _, r5) = bind-eq-ok (confirm p g u.tree secret fb u.signature) _ r4 in
    let (_, _, r6) = bind-eq-ok (check_tag u.confirmation_tag n.1.1.1) _ r5 in
    let (st, _, r7) = bind-eq-ok (advance_epoch p g.state secret u.tree n.1.0 []) _ r6 in
    ap (λ t. t.my_index) (sym (ok-injective r7))

pub process_update-member :
    (p : Primitives) (c : Ciphers) (g : MlsGroup) (u : GroupUpdate) (next before : MlsGroup)
    → process_update p c g u ≡ (ok next, before)
    → next.my_index ≡ g.my_index
unfolding processed
process_update-member p c g u next before h =
    let (_, _, r1) =
      bind-eq-ok (check (same_bytes u.group_id g.state.group_id)) _
        (processed-ok p c g u next before h) in
    let (_, _, r2) = bind-eq-ok (check (u.epoch_id == g.state.epoch_id + 1)) _ r1 in
    let (l, _, r3) =
      bind-eq-ok (leaf_or_value_error (get_node g.state.tree (2 * u.committer_index))) _ r2 in
    let (secret, taken) = rest-taken_up p c g u l next r3 in
    taken_up-member p g u l secret next taken
