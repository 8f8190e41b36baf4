-- ===== src/Group/Message/Envelope.antt =====
-- Wrapping and unwrapping in `MLSMessage` of src/pure_mls/group.py.
use pure_mls.Prelude.{
  ℕ, ◌≡◌, refl, sym, ap, ap₂, ◌∙◌, arith, Bytes, [], ◌++◌, append-nil, Option, none, some, ok, err,
  ok-injective, bind, bind-eq-ok, ◌⊕◌, ⊕_nil, ⊕-eq-ok, err-ne-ok, value_error, Bool-cases, inl, inr,
  ◌==◌, false, subst,
}
use pure_mls.Primitives.{Primitives}
use pure_mls.Wire.Reader.{Reader, ◌>>=◌, lift, pure}
use pure_mls.Wire.RoundTrip.{
  RoundTrips, bind-RoundTrips, pure-RoundTrips, map-RoundTrips, require-RoundTrips, lift-RoundTrips,
  read_whole-RoundTrips,
}
use pure_mls.Tls.Ints.RoundTrip.{tls_u16-RoundTrips}
use pure_mls.Tls.Ints.{read_u32, read_u64, byte_at}
use pure_mls.Tls.Opaque.{tls_opaque, tls_opaque32, read_opaque, read_opaque32}
use pure_mls.Tree.Wire as TreeWire
use pure_mls.Tls.Opaque.RoundTrip.{tls_opaque-RoundTrips, tls_opaque32-RoundTrips}
use pure_mls.Codecs.{Registry}
use pure_mls.Node.KeyPackage.{KeyPackage}
use pure_mls.Tree.Paths.{IsFull}
use pure_mls.Group.Context.{GroupContext}
use pure_mls.Group.Framing as Framing
use pure_mls.Group.Framing.{FramedContent, FramedContentAuthData, auth_bytes}
use pure_mls.Group.Framing.RoundTrip as FramingLaws
use pure_mls.Group.Dict.Distinct.{DistinctKeys}
use pure_mls.Group.Update as Update
use pure_mls.Group.Update.{GroupUpdate}
use pure_mls.Group.Update.RoundTrip as UpdateLaws
use pure_mls.Group.Message.{
  PublicMessage, public_bytes, parse_auth, read_public, public_from_bytes, from_group_update,
  to_group_update, MlsMessage, mls_public_message, mls_welcome, mls_key_package, version, to_bytes,
  read_message, from_bytes, wrap_commit, unwrap_commit, unwrap_welcome, unwrap_key_package, or_none,
}

parts-RoundTrips :
    (m : PublicMessage) (c a : Bytes)
    → Framing.from_bytes c ≡ ok m.content
    → parse_auth a ≡ ok m.auth
    → RoundTrips read_public
        (tls_opaque32 c ⊕ tls_opaque32 a ⊕ tls_opaque m.membership_tag ⊕ ok [])
        m
unfolding read_public
parts-RoundTrips m c a hc ha = bind-RoundTrips _ (tls_opaque32-RoundTrips c) (
    bind-RoundTrips _ (tls_opaque32-RoundTrips a) (
      bind-RoundTrips _ (tls_opaque-RoundTrips m.membership_tag) (
        lift-RoundTrips (Framing.from_bytes c) _ hc
          (lift-RoundTrips (parse_auth a) _ ha (pure-RoundTrips m)))))

public_from_bytes-public_bytes :
    (m : PublicMessage) (e : Bytes) → public_bytes m ≡ ok e → public_from_bytes e ≡ ok m
unfolding public_bytes public_from_bytes parse_auth Framing.from_bytes
public_from_bytes-public_bytes m e h =
    let (x, y, hx, hy, hxy) = ⊕-eq-ok (bind (Framing.to_bytes m.content) tls_opaque32) _ h in
    let (c, hc, hc') = bind-eq-ok (Framing.to_bytes m.content) tls_opaque32 hx in
    let (z, t, hz, ht, hzt) = ⊕-eq-ok (bind (auth_bytes m.auth) tls_opaque32) _ hy in
    let (a, ha, ha') = bind-eq-ok (auth_bytes m.auth) tls_opaque32 hz in
    let content : Framing.from_bytes c ≡ ok m.content =
      rw (read_whole-RoundTrips (FramingLaws.to_bytes-RoundTrips m.content) hc) in
    let auth : parse_auth a ≡ ok m.auth =
      rw (read_whole-RoundTrips (FramingLaws.auth_bytes-RoundTrips m.auth) ha) in
    let written : (tls_opaque32 c ⊕ tls_opaque32 a ⊕ tls_opaque m.membership_tag) ≡ ok e =
      rw (hc, ha) at h in
    let padded : (tls_opaque32 c ⊕ tls_opaque32 a ⊕ tls_opaque m.membership_tag ⊕ ok []) ≡ ok e =
      rw (⊕_nil (tls_opaque m.membership_tag)) written in
    rw (read_whole-RoundTrips (parts-RoundTrips m c a content auth) padded)

to_bytes-RoundTrips : (m : MlsMessage) → RoundTrips read_message (to_bytes m) m
unfolding read_message to_bytes
to_bytes-RoundTrips m = bind-RoundTrips _ (tls_u16-RoundTrips version) (
    require-RoundTrips _ value_error refl (
      bind-RoundTrips _ (tls_u16-RoundTrips m.wire_format)
        (map-RoundTrips _ (tls_opaque32-RoundTrips m.body))))

or_none-some {ℓ} : {A : Type ℓ} {o : Option A} {a b : A} → o ≡ some a → or_none o ≡ ok b → b ≡ a
or_none-some h k = ok-injective (sym k ∙ ap or_none h)

-- What the receiver of a wrapped commit gets: the commit of the wire, with the group, the tags and the
-- signature of the message around it.
abbrev pub received : GroupUpdate → Bytes → Bytes → Bytes → GroupUpdate
received u group tag membership = record (UpdateLaws.on_the_wire u) {
  group_id = group;
  confirmation_tag = some tag;
  membership_tag = some membership;
}

tagged :
    (o : Option Bytes) (build : Bytes → PublicMessage) {tag : Bytes} {pm : PublicMessage}
    → o ≡ some tag
    → elim o [ none ↦ err value_error | some t ↦ ok (build t) ] ≡ ok pm
    → build tag ≡ pm
tagged none build h k = absurd (err-ne-ok k)
tagged (some t) build h k =
    ap build (ap (λ o. elim o [ none ↦ t | some x ↦ x ]) (sym h)) ∙ ok-injective k

to_group_update-from_group_update :
    (p : Primitives) (u : GroupUpdate) (d : ℕ) (pm : PublicMessage) (old : GroupContext)
    (key hash tag : Bytes)
    → IsFull d u.tree
    → DistinctKeys u.encrypted_commit_secrets
    → u.membership_tag ≡ some tag
    → from_group_update p u key hash old ≡ ok pm
    → to_group_update pm ≡ ok (received u old.group_id (p.hmac_sha256 key hash) tag)
unfolding from_group_update to_group_update
to_group_update-from_group_update p u d pm old key hash tag f k ht h =
    let (body, hbody, h1) = bind-eq-ok (Update.to_bytes u) _ h in
    let same = tagged u.membership_tag _ ht h1 in
    let back : Update.from_bytes body ≡ ok (UpdateLaws.on_the_wire u) =
      ap Update.from_bytes (sym (append-nil body))
      ∙ UpdateLaws.from_bytes-to_bytes_commit u d body [] f k hbody in
    rw (← same) (rw back)

-- A commit that is wrapped for sending, if its tree's array is full and its secrets have distinct keys, is unwrapped
-- by the receiver as the wire keeps it, with its signature, the group of its old context, its membership tag and the
-- tag that HMAC gives under its confirmation key.
pub unwrap_commit-wrap_commit :
    (p : Primitives) (u : GroupUpdate) (d : ℕ) (m : MlsMessage) (e rest : Bytes)
    (old : GroupContext) (key hash tag : Bytes)
    → IsFull d u.tree
    → DistinctKeys u.encrypted_commit_secrets
    → u.old_group_ctx ≡ some old
    → u.confirmation_key ≡ some key
    → u.transcript_hash ≡ some hash
    → u.membership_tag ≡ some tag
    → wrap_commit p u ≡ ok m
    → to_bytes m ≡ ok e
    → (from_bytes (e ++ rest) ≡ ok m)
      × (unwrap_commit m ≡ ok (received u old.group_id (p.hmac_sha256 key hash) tag))
unfolding wrap_commit unwrap_commit from_group_update to_group_update from_bytes
unwrap_commit-wrap_commit p u d m e rest old key hash tag f k ho hk hh ht hw he =
    (rw ((to_bytes-RoundTrips m).decodes e he [] rest), unwrapped)
  where
    unwrapped : unwrap_commit m ≡ ok (received u old.group_id (p.hmac_sha256 key hash) tag)
    unwrapped =
        let (ctx, hctx, h1) = bind-eq-ok (or_none u.group_ctx) _ hw in
        let (old', ho', h2) = bind-eq-ok (or_none u.old_group_ctx) _ h1 in
        let (key', hk', h3) = bind-eq-ok (or_none u.confirmation_key) _ h2 in
        let (au, hau, h4) = bind-eq-ok (or_none u.epoch_authenticator) _ h3 in
        let (mk, hmk, h5) = bind-eq-ok (or_none u.membership_key) _ h4 in
        let (hash', hh', h6) = bind-eq-ok (or_none u.transcript_hash) _ h5 in
        let (pm, hpm, h7) = bind-eq-ok (from_group_update p u key' hash' old') _ h6 in
        let (b, hb, h0) = bind-eq-ok (public_bytes pm) _ h7 in
        rw (← ok-injective h0) (
          rw (public_from_bytes-public_bytes pm b hb) (
            to_group_update-from_group_update p u d pm old' key' hash' tag f k ht hpm
            ∙ ap₂ (λ o t. ok (received u o.group_id t tag)) (or_none-some ho ho')
                (ap₂ p.hmac_sha256 (or_none-some hk hk') (or_none-some hh hh'))))

-- Every value that the reader gives has the property.
record Gives {ℓ κ} {A : Type ℓ} (P : A → Type κ) (r : Reader A) : Type (ℓ ⊔ κ) where
  given : (buf : Bytes) (off : ℕ) (v : A) (off' : ℕ) → r buf off ≡ ok (v, off') → P v

bind-Gives {ℓ κ μ} :
    {A : Type ℓ} {B : Type κ} (P : B → Type μ) (r : Reader A) (k : A → Reader B)
    → ((x : A) → Gives P (k x))
    → Gives P (r >>= k)
unfolding ◌>>=◌
bind-Gives P r k g = record {
  given = λ buf off v off' h.
      let (q, hq, h') = bind-eq-ok (r buf off) (λ q. k q.0 buf q.1) h in
      (g q.0).given buf q.1 v off' h';
}

pure-Gives {ℓ κ} : {A : Type ℓ} (P : A → Type κ) (v : A) → P v → Gives P (pure v)
unfolding pure
pure-Gives P v pv = record {
  given = λ buf off w off' h. subst P (ap (λ t. t.0) (ok-injective h)) pv;
}

HasNoContext : GroupUpdate → Type 0
HasNoContext u = u.group_ctx ≡ none

read_update-HasNoContext : Gives HasNoContext Update.read_update
unfolding Update.read_update HasNoContext
read_update-HasNoContext = bind-Gives HasNoContext read_u64 _ (λ epoch.
    bind-Gives HasNoContext read_opaque32 _ (λ raw.
      bind-Gives HasNoContext (lift (TreeWire.from_bytes raw)) _ (λ tree.
        bind-Gives HasNoContext read_u32 _ (λ count.
          bind-Gives HasNoContext (Update.read_items count []) _ (λ secrets.
            bind-Gives HasNoContext read_u32 _ (λ committer.
              bind-Gives HasNoContext byte_at _ (λ has_path.
                bind-Gives HasNoContext (Update.read_path has_path) _ (λ path.
                  bind-Gives HasNoContext read_opaque _
                    (λ signature. pure-Gives HasNoContext _ refl)))))))))

-- A commit that was unwrapped carries no epoch keys, so wrapping it again raises a `ValueError`.
pub wrap_commit-unwrap_commit :
    (p : Primitives) (m : MlsMessage) (u : GroupUpdate)
    → unwrap_commit m ≡ ok u
    → wrap_commit p u ≡ err value_error
unfolding wrap_commit unwrap_commit to_group_update Update.from_bytes HasNoContext
wrap_commit-unwrap_commit p m u h = elim (Bool-cases (m.wire_format == mls_public_message)) [
  | inr other ↦ absurd (err-ne-ok (rw other at h))
  | inl commit ↦
      let h' : bind (public_from_bytes m.body) to_group_update ≡ ok u = rw commit at h in
      let (pm, hp, h1) = bind-eq-ok (public_from_bytes m.body) to_group_update h' in
      let (v, hv, h2) = bind-eq-ok (Update.from_bytes pm.content.content) _ h1 in
      let (q, hq, h3) = bind-eq-ok (Update.read_update pm.content.content 0) _ hv in
      let same : q.0 ≡ v = ok-injective h3 in
      let no_context : q.0.group_ctx ≡ none =
        read_update-HasNoContext.given pm.content.content 0 q.0 q.1 hq in
      let here : u.group_ctx ≡ none =
        ap (λ w. w.group_ctx) (sym (ok-injective h2))
        ∙ ap (λ w. w.group_ctx) (sym same)
        ∙ no_context in
      rw here
]

-- A message that is unwrapped as a key package raises a `ValueError` where a commit or a welcome is expected.
pub unwrap_key_package-other :
    (registry : Registry) (m : MlsMessage) (kp : KeyPackage)
    → unwrap_key_package m ≡ ok kp
    → (unwrap_commit m ≡ err value_error) × (unwrap_welcome registry m ≡ err value_error)
unfolding unwrap_commit unwrap_welcome unwrap_key_package
unwrap_key_package-other registry m kp h = elim (Bool-cases (m.wire_format == mls_key_package)) [
  | inr other ↦ absurd (err-ne-ok (rw other at h))
  | inl five ↦
      let commit : (m.wire_format == mls_public_message) ≡ false = ground (arith, five) in
      let welcome : (m.wire_format == mls_welcome) ≡ false = ground (arith, five) in
      (rw commit, rw welcome)
]
