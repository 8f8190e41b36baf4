-- ===== src/Group/Receive/Agreement.antt =====
-- `process_update` of src/pure_mls/group.py against the part that every commit of a member ends with, from the
-- commit secret on.
use pure_mls.Prelude.{
  ◌+◌, ◌≡◌, refl, sym, ap, ap₂, ◌∙◌, subst, Bytes, [], some, ok, ok-injective, bind-eq-ok,
}
use pure_mls.Primitives.{Primitives}
use pure_mls.Ciphers.{Ciphers}
use pure_mls.Codecs.RoundTrip.{same_bytes_refl}
use pure_mls.Keys as Keys
use pure_mls.Node.Leaf.{LeafNode}
use pure_mls.Node.Leaf.Signing.{Signs}
use pure_mls.Epoch.{EpochState, advance_epoch}
use pure_mls.Group.Context.{GroupContext}
use pure_mls.Group.Dict.{Dict}
use pure_mls.Group.Framing as Framing
use pure_mls.Group.Framing.{framed_content_tbs, interim_transcript_hash}
use pure_mls.Group.Update as Update
use pure_mls.Group.Update.{GroupUpdate, body_bytes}
use pure_mls.Group.State as State
use pure_mls.Group.State.{MlsGroup}
use pure_mls.Group.Commit.{Pathed, Committed, finish, framed, old_context, confirm}
use pure_mls.Group.Receive.{verified_tbs, check_tag, taken_up}

check_tag_same : (tag : Bytes) → check_tag (some tag) tag ≡ ok tt
check_tag_same tag = rw (same_bytes_refl tag)

-- The parts that make a commit be taken up, one by one.
taken_up-parts :
    (p : Primitives) (h : MlsGroup) (u : GroupUpdate) (l : LeafNode) (secret body fb tbs : Bytes)
    (n : GroupContext × (Bytes × (Bytes × Bytes))) (next : EpochState)
    → body_bytes u ≡ ok body
    → Framing.to_bytes (framed h u.committer_index body) ≡ ok fb
    → verified_tbs p h u l body ≡ ok tbs
    → u.membership_tag ≡ some (p.hmac_sha256 h.state.key_schedule.membership_key tbs)
    → confirm p h u.tree secret fb u.signature ≡ ok n
    → u.confirmation_tag ≡ some n.1.1.1
    → advance_epoch p h.state secret u.tree n.1.0 [] ≡ ok next
    → taken_up p h u l secret
      ≡ ok (
          State.new next h.my_index h.my_sig_key h.my_kem_key
            (interim_transcript_hash p n.1.1.0 n.1.1.1))
unfolding taken_up
taken_up-parts p h u l secret body fb tbs n next h1 h2 h3 h4 h5 h6 h7 =
    let member =
      ap (λ o. check_tag o (p.hmac_sha256 h.state.key_schedule.membership_key tbs)) h4
      ∙ check_tag_same (p.hmac_sha256 h.state.key_schedule.membership_key tbs) in
    let right = ap (λ o. check_tag o n.1.1.1) h6 ∙ check_tag_same n.1.1.1 in
    rw (h1, h2, h3, member, h5, right, h7)

verified_tbs-sign :
    (p : Primitives) (h : MlsGroup) (u : GroupUpdate) (l : LeafNode) (body tbs key : Bytes)
    (sign_fn : Bytes → Bytes) (old : GroupContext)
    → Signs p key sign_fn
    → l.signature_key ≡ key
    → old_context p h ≡ ok old
    → framed_content_tbs old (framed h u.committer_index body) ≡ ok tbs
    → u.signature ≡ sign_fn tbs
    → verified_tbs p h u l body ≡ ok tbs
unfolding verified_tbs
verified_tbs-sign p h u l body tbs key sign_fn old s hk ho ht hs =
    let loads = ap p.ed25519_load hk ∙ s.loads in
    let accepts = ap₂ (λ k sig. p.ed25519_check k sig tbs) hk hs ∙ s.accepts tbs in
    rw (ho, loads, ht, accepts)

-- The group with the committer's epoch and transcript, and the rest its own.
at_epoch_of : MlsGroup → MlsGroup → MlsGroup
at_epoch_of g h = record h { state = g.state; interim_transcript_hash = g.interim_transcript_hash }

taken_up-finish_at :
    (p : Primitives) (c : Ciphers) (g h : MlsGroup) (path : Pathed) (secrets : Dict)
    (done : Committed) (l : LeafNode)
    → Signs p g.my_sig_key.public_bytes (Keys.sign c g.my_sig_key)
    → l.signature_key ≡ g.my_sig_key.public_bytes
    → finish p c g path secrets ≡ ok done
    → taken_up p (at_epoch_of g h) done.update l path.commit_secret
      ≡ ok (State.new done.next_state h.my_index h.my_sig_key h.my_kem_key done.interim)
unfolding finish at_epoch_of old_context confirm body_bytes
taken_up-finish_at p c g h path secrets done l s hk e =
    let unsigned =
      Update.new (g.state.epoch_id + 1) path.new_tree secrets g.my_index [] g.state.group_id
        (some path.update_path) in
    let (body, h1, r1) = bind-eq-ok (body_bytes unsigned) _ e in
    let (fb, h2, r2) = bind-eq-ok (Framing.to_bytes (framed g g.my_index body)) _ r1 in
    let (old, h3, r3) = bind-eq-ok (old_context p g) _ r2 in
    let (tbs, h4, r4) = bind-eq-ok (framed_content_tbs old (framed g g.my_index body)) _ r3 in
    let sig = Keys.sign c g.my_sig_key tbs in
    let (n, h5, r5) = bind-eq-ok (confirm p g path.new_tree path.commit_secret fb sig) _ r4 in
    let (next, h6, r6) =
      bind-eq-ok (advance_epoch p g.state path.commit_secret path.new_tree n.1.0 []) _ r5 in
    subst
      (λ d.
        taken_up p (at_epoch_of g h) d.update l path.commit_secret
        ≡ ok (State.new d.next_state h.my_index h.my_sig_key h.my_kem_key d.interim))
      (ok-injective r6)
      (taken_up-parts p (at_epoch_of g h) _ l path.commit_secret body fb tbs n next h1 h2
        (verified_tbs-sign p (at_epoch_of g h) _ l body tbs g.my_sig_key.public_bytes
          (Keys.sign c g.my_sig_key) old s hk h3 h4 refl)
        refl h5 refl h6)

-- If a member is in the committer's epoch with the committer's transcript, knows the committer's leaf, whose key signs,
-- and recovers the commit secret, then it accepts the commit that the committer signed, and both are in the same state
-- with the same secrets and the same transcript behind it.
pub taken_up-finish :
    (p : Primitives) (c : Ciphers) (g h : MlsGroup) (path : Pathed) (secrets : Dict)
    (done : Committed) (l : LeafNode)
    → Signs p g.my_sig_key.public_bytes (Keys.sign c g.my_sig_key)
    → l.signature_key ≡ g.my_sig_key.public_bytes
    → g.state ≡ h.state
    → g.interim_transcript_hash ≡ h.interim_transcript_hash
    → finish p c g path secrets ≡ ok done
    → taken_up p h done.update l path.commit_secret
      ≡ ok (State.new done.next_state h.my_index h.my_sig_key h.my_kem_key done.interim)
unfolding at_epoch_of
taken_up-finish p c g h path secrets done l s hk same_state same_interim e =
    let here : at_epoch_of g h ≡ h =
      ap₂ (λ st t. record h { state = st; interim_transcript_hash = t }) same_state same_interim in
    ap (λ m. taken_up p m done.update l path.commit_secret) (sym here)
    ∙ taken_up-finish_at p c g h path secrets done l s hk e
