-- ===== src/Group/Stored/RoundTrip.antt =====
-- The stored form of `MLSGroup` of src/pure_mls/group.py. It has no secret tree, and the leaves keep only what is
-- on the wire.
use pure_mls.Prelude.{
  ℕ, ◌≡◌, ◌≤◌, ap, ap₂, ◌∙◌, subst, arith, Bytes, List, [], ◌∷◌, ◌++◌, length, length-append, All,
  ok, bind, bind-eq-ok, ◌⊕◌, ⊕-eq-ok, join, lt→ltb,
}
use pure_mls.Ciphers.{Ciphers}
use pure_mls.Wire.RoundTrip.{
  RoundTrips, bind-RoundTrips, map-RoundTrips, lift-RoundTrips, nested-RoundTrips,
  read_whole-RoundTrips,
}
use pure_mls.Wire.Steps.{read_all-join}
use pure_mls.Tls.Ints.{int_to_bytes, tls_u32, pack}
use pure_mls.Tls.Ints.Digits.{int_to_bytes-eq-ok, pack-eq-ok, length-to_be}
use pure_mls.Tls.Opaque.{tls_opaque, tls_opaque32, read_opaque, read_fixed}
use pure_mls.Tls.Opaque.RoundTrip.{tls_opaque-RoundTrips, tls_opaque32-RoundTrips}
use pure_mls.Tls.Opaque.Bounds.{read_opaque-Steps}
use pure_mls.Capabilities.RoundTrip.{read_fixed-RoundTrips}
use pure_mls.Keys.{
  new_signature_key, signature_key_from_private_bytes, new_kem_key, kem_key_from_private_bytes,
}
use pure_mls.KeySchedule.RoundTrip.{HasSizes}
use pure_mls.Tree.Paths.{IsFull}
use pure_mls.Epoch as Epoch
use pure_mls.Epoch.{read_int}
use pure_mls.Epoch.RoundTrip as EpochLaws
use pure_mls.Epoch.RoundTrip.{read_int-RoundTrips, from_bytes-to_bytes_stored}
use pure_mls.Group.Dict.{bytes_leb, sort}
use pure_mls.Group.State as State
use pure_mls.Group.State.{MlsGroup}
use pure_mls.Group.Stored.{
  to_bytes, read_interim, collected, read_refs, read_consumed, read_group, from_bytes,
}

each_ref : (refs : List Bytes) → All (λ r. RoundTrips read_opaque (tls_opaque r) r) refs
each_ref [] = tt
each_ref (r ∷ refs) = (tls_opaque-RoundTrips r, each_ref refs)

refs-RoundTrips :
    (refs : List Bytes)
    → RoundTrips read_refs (bind (join tls_opaque refs) tls_opaque32) (collected [] refs)
unfolding read_refs
refs-RoundTrips refs =
    nested-RoundTrips (join tls_opaque refs) _ tls_opaque32-RoundTrips
      (λ d h. rw (read_all-join read_opaque-Steps tls_opaque refs d (each_ref refs) h))

u32-long : (d e : Bytes) → tls_opaque32 d ≡ ok e → 1 ≤ length e
unfolding tls_opaque32 tls_u32
u32-long d e h =
    let (a, b, ha, hb, he) = ⊕-eq-ok (pack 4 (length d)) (ok d) h in
    let (small, digits) = pack-eq-ok 4 (length d) a ha in
    omega (arith, ap length he, length-append a b, ap length digits, length-to_be 4 (length d))

consumed-RoundTrips :
    (refs : List Bytes)
    → RoundTrips read_consumed (bind (join tls_opaque refs) tls_opaque32) (collected [] refs)
unfolding read_consumed
consumed-RoundTrips refs = record {
  decodes = λ e h pre rest.
      let (d, _, hw) = bind-eq-ok (join tls_opaque refs) tls_opaque32 h in
      let more = u32-long d e hw in
      rw
        (lt→ltb (length pre) (length (pre ++ (e ++ rest)))
          (omega (arith, more, length-append pre (e ++ rest), length-append e rest)))
        ((refs-RoundTrips refs).decodes e h pre rest);
}

interim-RoundTrips : (d : Bytes) → RoundTrips read_interim (int_to_bytes 2 (length d) ⊕ ok d) d
unfolding read_interim
interim-RoundTrips d = record {
  decodes = λ e h pre rest.
      let (a, b, ha, hb, he) = ⊕-eq-ok (int_to_bytes 2 (length d)) (ok d) h in
      let (small, digits) = int_to_bytes-eq-ok 2 (length d) a ha in
      rw
        (lt→ltb (length pre) (length (pre ++ (e ++ rest))) (
          omega (
            arith,
            length-append pre (e ++ rest),
            length-append e rest,
            ap length he,
            length-append a b,
            ap length digits,
            length-to_be 2 (length d),
          )))
        ((bind-RoundTrips read_fixed (read_int-RoundTrips 2 (length d))
            (read_fixed-RoundTrips d)).decodes
          e h pre rest);
}

key-RoundTrips : (key : Bytes) → length key ≡ 32 → RoundTrips (read_fixed 32) (ok key) key
key-RoundTrips key h =
    subst (λ n. RoundTrips (read_fixed n) (ok key) key) h (read_fixed-RoundTrips key)

signature_key_loaded :
    (c : Ciphers) (key : Bytes)
    → length key ≡ 32
    → signature_key_from_private_bytes c key ≡ ok (new_signature_key c key)
unfolding signature_key_from_private_bytes
signature_key_loaded c key h = rw (h, h)

kem_key_loaded :
    (c : Ciphers) (key : Bytes)
    → length key ≡ 32
    → kem_key_from_private_bytes c key ≡ ok (new_kem_key c key)
unfolding kem_key_from_private_bytes
kem_key_loaded c key h = rw h

group-RoundTrips :
    (c : Ciphers) (g : MlsGroup) (d : ℕ) (sig kem state_bytes : Bytes)
    → IsFull d g.state.tree
    → HasSizes g.state.key_schedule
    → length sig ≡ 32
    → length kem ≡ 32
    → Epoch.to_bytes g.state ≡ ok state_bytes
    → RoundTrips
        (read_group c)
        (int_to_bytes 4 g.my_index
          ⊕ ok sig
          ⊕ ok kem
          ⊕ int_to_bytes 4 (length state_bytes)
          ⊕ ok state_bytes
          ⊕ (int_to_bytes 2 (length g.interim_transcript_hash) ⊕ ok g.interim_transcript_hash)
          ⊕ bind (join tls_opaque (sort bytes_leb g.consumed)) tls_opaque32)
        (record (State.new
          (EpochLaws.on_the_wire g.state)
          g.my_index
          (new_signature_key c sig)
          (new_kem_key c kem)
          g.interim_transcript_hash) { consumed = collected [] (sort bytes_leb g.consumed) })
unfolding read_group
group-RoundTrips c g d sig kem state_bytes f k hs hk h =
    bind-RoundTrips _ (read_int-RoundTrips 4 g.my_index) (
      bind-RoundTrips _ (key-RoundTrips sig hs) (
        lift-RoundTrips (signature_key_from_private_bytes c sig) _ (signature_key_loaded c sig hs) (
          bind-RoundTrips _ (key-RoundTrips kem hk) (
            lift-RoundTrips (kem_key_from_private_bytes c kem) _ (kem_key_loaded c kem hk) (
              bind-RoundTrips _ (read_int-RoundTrips 4 (length state_bytes)) (
                bind-RoundTrips _ (read_fixed-RoundTrips state_bytes) (
                  lift-RoundTrips (Epoch.from_bytes state_bytes) _
                    (from_bytes-to_bytes_stored g.state d state_bytes f k h)
                    (bind-RoundTrips _ (interim-RoundTrips g.interim_transcript_hash)
                      (map-RoundTrips _ (consumed-RoundTrips (sort bytes_leb g.consumed)))))))))))

-- A group whose tree's array is full, whose epoch secrets and private keys have 32 bytes each, and whose public keys are
-- those of its private keys is loaded as it was stored: with its epoch up to what the leaves do not write, its leaf, its
-- keys, its transcript hash and the key packages that it has seen, and with no secret tree.
pub from_bytes-to_bytes_group :
    (c : Ciphers) (g : MlsGroup) (d : ℕ) (e : Bytes)
    → IsFull d g.state.tree
    → HasSizes g.state.key_schedule
    → length g.my_sig_key.private_bytes ≡ 32
    → length g.my_kem_key.private_bytes ≡ 32
    → new_signature_key c g.my_sig_key.private_bytes ≡ g.my_sig_key
    → new_kem_key c g.my_kem_key.private_bytes ≡ g.my_kem_key
    → to_bytes g ≡ ok e
    → from_bytes c e
      ≡ ok
          (record (State.new
            (EpochLaws.on_the_wire g.state)
            g.my_index
            g.my_sig_key
            g.my_kem_key
            g.interim_transcript_hash) { consumed = collected [] (sort bytes_leb g.consumed) })
unfolding from_bytes to_bytes
from_bytes-to_bytes_group c g d e f k hs hk es ek h =
    let (state_bytes, hb, hr) = bind-eq-ok (Epoch.to_bytes g.state) _ h in
    let taken =
      read_whole-RoundTrips
        (group-RoundTrips c g d g.my_sig_key.private_bytes g.my_kem_key.private_bytes state_bytes f
          k hs hk hb)
        hr in
    ap (λ m. bind m (λ q. ok q.0)) taken
    ∙ ap₂
        (λ a b.
          ok
            (record (State.new (EpochLaws.on_the_wire g.state) g.my_index a b
              g.interim_transcript_hash) { consumed = collected [] (sort bytes_leb g.consumed) }))
        es ek
