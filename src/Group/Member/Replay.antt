-- ===== src/Group/Member/Replay.antt =====
-- The replay check of `add_member` of src/pure_mls/group.py, over two calls on one object.
use pure_mls.Prelude.{
  ◌≡◌, refl, ap, ◌∙◌, true, false, Bool-cases, inl, inr, Bool, Bytes, List, [], ◌∷◌, ◌++◌, Result,
  ok, err, value_error,
}
use pure_mls.Primitives.{Primitives}
use pure_mls.Ciphers.{Ciphers}
use pure_mls.Codecs.{same_bytes}
use pure_mls.Codecs.RoundTrip.{same_bytes_refl}
use pure_mls.Node.KeyPackage.{KeyPackage}
use pure_mls.Group.Context.{make_kp_ref}
use pure_mls.Group.Dict.{mem_bytes, set_add}
use pure_mls.Group.State.{MlsGroup, wipe_secret_tree}
use pure_mls.Group.Commit.{Fresh}
use pure_mls.Group.Member.{left_behind, added, add_unless, add_referred, add_member}

mem_bytes-last : (refs : List Bytes) (ref : Bytes) → mem_bytes (refs ++ (ref ∷ [])) ref ≡ true
unfolding mem_bytes
mem_bytes-last [] ref = rw (same_bytes_refl ref)
mem_bytes-last (r ∷ refs) ref = elim (Bool-cases (same_bytes r ref)) [
  | inl same ↦ rw same
  | inr other ↦ rw (other, mem_bytes-last refs ref)
]

mem_bytes-set_add : (refs : List Bytes) (ref : Bytes) → mem_bytes (set_add refs ref) ref ≡ true
unfolding set_add
mem_bytes-set_add refs ref = elim (Bool-cases (mem_bytes refs ref)) [
  | inl known ↦ rw known known
  | inr fresh ↦ rw fresh (mem_bytes-last refs ref)
]

left_behind-consumed {ℓ} :
    {A : Type ℓ} (g : MlsGroup) (r : Result A) → (left_behind g r).1.consumed ≡ g.consumed
unfolding wipe_secret_tree
left_behind-consumed g (ok a) = refl
left_behind-consumed g (err e) = refl

unless_at :
    (p : Primitives) (c : Ciphers) (r : Fresh) (g : MlsGroup) (kp : KeyPackage) (ref : Bytes)
    (known : Bool)
    → make_kp_ref p kp ≡ ok ref
    → mem_bytes g.consumed ref ≡ known
    → add_member p c r g kp ≡ add_unless p c r g kp ref known
unfolding add_member add_referred
unless_at p c r g kp ref known h k =
    ap (add_referred p c r g kp) h ∙ ap (add_unless p c r g kp ref) k

known-refused :
    (p : Primitives) (c : Ciphers) (r : Fresh) (g : MlsGroup) (kp : KeyPackage) (ref : Bytes)
    → make_kp_ref p kp ≡ ok ref
    → mem_bytes g.consumed ref ≡ true
    → add_member p c r g kp ≡ (err value_error, g)
unfolding add_unless
known-refused p c r g kp ref h k = unless_at p c r g kp ref true h k

noted_after :
    (p : Primitives) (c : Ciphers) (r : Fresh) (g : MlsGroup) (kp : KeyPackage) (ref : Bytes)
    → make_kp_ref p kp ≡ ok ref
    → mem_bytes (add_member p c r g kp).1.consumed ref ≡ true
unfolding add_unless
noted_after p c r g kp ref h = elim (Bool-cases (mem_bytes g.consumed ref)) [
  | inl known ↦ ap (λ q. mem_bytes q.1.consumed ref) (known-refused p c r g kp ref h known) ∙ known
  | inr fresh ↦
      let noted = record g { consumed = set_add g.consumed ref } in
      ap (λ q. mem_bytes q.1.consumed ref) (unless_at p c r g kp ref false h fresh)
      ∙ ap (λ refs. mem_bytes refs ref) (left_behind-consumed noted (added p c r noted kp))
      ∙ mem_bytes-set_add g.consumed ref
]

-- If the key package has a reference, then after a call of `add_member` with it, whether that call returned or raised,
-- another call on the same group, whatever it draws at random, raises a `ValueError` and leaves the group as it is.
pub add_member-replayed :
    (p : Primitives) (c : Ciphers) (r again : Fresh) (g : MlsGroup) (kp : KeyPackage) (ref : Bytes)
    → make_kp_ref p kp ≡ ok ref
    → add_member p c again (add_member p c r g kp).1 kp
      ≡ (err value_error, (add_member p c r g kp).1)
add_member-replayed p c r again g kp ref h =
    known-refused p c again (add_member p c r g kp).1 kp ref h (noted_after p c r g kp ref h)
