-- ===== src/Proposals/RoundTrip.antt =====
-- The wire forms of src/pure_mls/proposals.py.
use pure_mls.Prelude.{
  ℕ, ◌+◌, ◌≡◌, refl, sym, ap, ◌∙◌, arith, Bytes, List, [], ◌∷◌, ◌++◌, length, slice, All, Option,
  none, some, Result, ok, err, ◌⊕◌, join, Bool-cases, inl, inr, ◌==◌, value_error, ⊕-eq-ok,
  append_assoc, ok-injective, err-ne-ok, subst, Option-cases, map,
}
use pure_mls.Wire.Reader.{◌>>=◌, pure, read_all}
use pure_mls.Wire.RoundTrip.{
  RoundTrips, bind-RoundTrips, map-RoundTrips, pure-RoundTrips, require-RoundTrips,
  nested-RoundTrips, nested_then-RoundTrips, read_whole-RoundTrips,
}
use pure_mls.Wire.Steps.{Steps, bind-Steps, pure-Steps, lift-Steps, Steps-le, read_all-join}
use pure_mls.Tls.Ints.{from_be, tls_u16, byte_at}
use pure_mls.Tls.Ints.RoundTrip.{
  tls_u16-RoundTrips, tls_u32-RoundTrips, single-RoundTrips, slice-append,
}
use pure_mls.Tls.Ints.Digits.{pack-eq-ok, length-to_be, from_be-to_be}
use pure_mls.Tls.Ints.Steps.{byte_at-Steps}
use pure_mls.Tls.Opaque.{tls_opaque}
use pure_mls.Tls.Opaque.RoundTrip.{tls_opaque-RoundTrips}
use pure_mls.Tls.Opaque.Bounds.{read_opaque-Steps}
use pure_mls.Proposals.{
  Proposal, add_proposal, update_proposal, remove_proposal, psk_proposal, add_type, update_type,
  remove_type, psk_type, psk_id_wire, to_bytes, read_add, read_update, read_remove, read_psk,
  read_psk_id, parse_psk_id, from_bytes_at, ProposalOrRef, or_ref_bytes, read_kind, read_or_ref,
  Commit, optional_bytes, commit_bytes, read_optional, read_commit,
}

read_add-RoundTrips : (b : Bytes) → RoundTrips read_add (to_bytes (add_proposal b)) (add_proposal b)
unfolding read_add to_bytes
read_add-RoundTrips b =
    bind-RoundTrips _ (tls_u16-RoundTrips add_type)
      (require-RoundTrips _ value_error refl (map-RoundTrips _ (tls_opaque-RoundTrips b)))

read_update-RoundTrips :
    (b : Bytes) → RoundTrips read_update (to_bytes (update_proposal b)) (update_proposal b)
unfolding read_update to_bytes
read_update-RoundTrips b =
    bind-RoundTrips _ (tls_u16-RoundTrips update_type)
      (require-RoundTrips _ value_error refl (map-RoundTrips _ (tls_opaque-RoundTrips b)))

read_remove-RoundTrips :
    (i : ℕ) → RoundTrips read_remove (to_bytes (remove_proposal i)) (remove_proposal i)
unfolding read_remove to_bytes
read_remove-RoundTrips i =
    bind-RoundTrips _ (tls_u16-RoundTrips remove_type)
      (require-RoundTrips _ value_error refl (map-RoundTrips _ (tls_u32-RoundTrips i)))

-- A byte that is written as it stands.
pub byte-RoundTrips : (b : ℕ) → RoundTrips byte_at (ok (b ∷ [])) b
byte-RoundTrips b = single-RoundTrips (ok (b ∷ [])) b (λ e h. sym (ok-injective h))

psk_id-RoundTrips :
    (psk_id nonce : Bytes) → RoundTrips read_psk_id (psk_id_wire psk_id nonce) (psk_id, nonce)
unfolding read_psk_id psk_id_wire
psk_id-RoundTrips psk_id nonce = bind-RoundTrips _ (byte-RoundTrips 0x01) (
    bind-RoundTrips _ (tls_opaque-RoundTrips psk_id)
      (map-RoundTrips _ (tls_opaque-RoundTrips nonce)))

parse_psk_id-wire :
    (psk_id nonce wire : Bytes)
    → psk_id_wire psk_id nonce ≡ ok wire
    → parse_psk_id wire ≡ ok (psk_proposal psk_id nonce)
unfolding parse_psk_id
parse_psk_id-wire psk_id nonce wire h =
    rw (read_whole-RoundTrips (psk_id-RoundTrips psk_id nonce) h)

read_psk-RoundTrips :
    (psk_id nonce : Bytes)
    → RoundTrips read_psk (to_bytes (psk_proposal psk_id nonce)) (psk_proposal psk_id nonce)
unfolding read_psk to_bytes
read_psk-RoundTrips psk_id nonce = bind-RoundTrips _ (tls_u16-RoundTrips psk_type) (
    require-RoundTrips _ value_error refl (
      nested-RoundTrips (psk_id_wire psk_id nonce) parse_psk_id tls_opaque-RoundTrips
        (parse_psk_id-wire psk_id nonce)))

or_ref-by_value :
    (v : Bytes)
    → RoundTrips (read_kind 0x01) (tls_opaque v) (record { value = some v; reference = none })
unfolding read_kind
or_ref-by_value v = map-RoundTrips _ (tls_opaque-RoundTrips v)

or_ref-by_reference :
    (h : Bytes)
    → RoundTrips (read_kind 0x02) (tls_opaque h) (record { value = none; reference = some h })
unfolding read_kind
or_ref-by_reference h = map-RoundTrips _ (tls_opaque-RoundTrips h)

-- A value hides a reference: only one of them is written.
abbrev pub behind : Option Bytes → Option Bytes → Option Bytes
behind none reference = reference
behind (some _) reference = none

abbrev pub on_the_wire : ProposalOrRef → ProposalOrRef
on_the_wire r = record r { reference = behind r.value r.reference }

-- The two bytes that the dispatch looks at are the proposal type.
peek :
    (type : ℕ) (n : Result Bytes) (e pre rest : Bytes)
    → (tls_u16 type ⊕ n) ≡ ok e
    → from_be (slice (pre ++ (e ++ rest)) (length pre) (length pre + 2)) ≡ type
unfolding tls_u16
peek type n e pre rest h =
    let (a, b, ha, hb, he) = ⊕-eq-ok (tls_u16 type) n h in
    let (small, digits) = pack-eq-ok 2 type a ha in
    let two : length a ≡ 2 = ap length (sym digits) ∙ length-to_be 2 type in
    rw (he, append_assoc a b rest, ← two, slice-append pre a (b ++ rest), ← digits)
      (from_be-to_be 2 type small)

pub from_bytes_at-RoundTrips : (p : Proposal) → RoundTrips from_bytes_at (to_bytes p) p
unfolding from_bytes_at to_bytes
from_bytes_at-RoundTrips (add_proposal b) = record {
  decodes = λ e h pre rest.
      rw (peek add_type _ e pre rest h) ((read_add-RoundTrips b).decodes e h pre rest);
}
from_bytes_at-RoundTrips (update_proposal b) = record {
  decodes = λ e h pre rest.
      rw (peek update_type _ e pre rest h) ((read_update-RoundTrips b).decodes e h pre rest);
}
from_bytes_at-RoundTrips (remove_proposal i) = record {
  decodes = λ e h pre rest.
      rw (peek remove_type _ e pre rest h) ((read_remove-RoundTrips i).decodes e h pre rest);
}
from_bytes_at-RoundTrips (psk_proposal i n) = record {
  decodes = λ e h pre rest.
      rw (peek psk_type _ e pre rest h) ((read_psk-RoundTrips i n).decodes e h pre rest);
}

no_proposal : RoundTrips read_or_ref (err value_error) (record { value = none; reference = none })
no_proposal = record { decodes = λ e h. absurd (err-ne-ok h) }

or_ref-RoundTrips : (r : ProposalOrRef) → RoundTrips read_or_ref (or_ref_bytes r) (on_the_wire r)
unfolding read_or_ref or_ref_bytes
or_ref-RoundTrips r = elim (Option-cases r.value) [
  | inr (v, hv) ↦ rw hv (bind-RoundTrips _ (byte-RoundTrips 0x01) (or_ref-by_value v))
  | inl no_value ↦ elim (Option-cases r.reference) [
    | inr (h, hr) ↦
        rw (no_value, hr) (bind-RoundTrips _ (byte-RoundTrips 0x02) (or_ref-by_reference h))
    | inl no_ref ↦ rw (no_value, no_ref) no_proposal
  ]
]

or_ref_bytes-on_the_wire : (r : ProposalOrRef) → or_ref_bytes (on_the_wire r) ≡ or_ref_bytes r
unfolding or_ref_bytes
or_ref_bytes-on_the_wire r = elim (Option-cases r.value) [
  | inr (v, hv) ↦ rw hv
  | inl no_value ↦ rw no_value
]

behind-twice : (v h : Option Bytes) → behind v (behind v h) ≡ behind v h
behind-twice none h = refl
behind-twice (some v) h = refl

on_the_wire-twice : (r : ProposalOrRef) → on_the_wire (on_the_wire r) ≡ on_the_wire r
on_the_wire-twice r = ap (λ h. record r { reference = h }) (behind-twice r.value r.reference)

every_reference :
    (rs : List ProposalOrRef)
    → All (λ r. RoundTrips read_or_ref (or_ref_bytes r) r) (map on_the_wire rs)
every_reference [] = tt
every_reference (r ∷ rs) = (
  subst (RoundTrips read_or_ref (or_ref_bytes (on_the_wire r))) (on_the_wire-twice r)
      (or_ref-RoundTrips (on_the_wire r)),
  every_reference rs,
)

join-on_the_wire :
    (rs : List ProposalOrRef) → join or_ref_bytes (map on_the_wire rs) ≡ join or_ref_bytes rs
unfolding join
join-on_the_wire [] = refl
join-on_the_wire (r ∷ rs) = rw (or_ref_bytes-on_the_wire r, join-on_the_wire rs)

read_kind-Steps : (kind : ℕ) → Steps 0 (read_kind kind)
unfolding read_kind
read_kind-Steps kind = elim (Bool-cases (kind == 0x01)) [
  | inl one ↦
      rw one (Steps-le 0 1 (omega arith) (bind-Steps 1 0 _ read_opaque-Steps (λ v. pure-Steps _)))
  | inr n ↦ elim (Bool-cases (kind == 0x02)) [
    | inl two ↦
        rw (n, two)
          (Steps-le 0 1 (omega arith) (bind-Steps 1 0 _ read_opaque-Steps (λ v. pure-Steps _)))
    | inr u ↦ rw (n, u) (lift-Steps (err value_error) (λ h. cc))
  ]
]

read_or_ref-Steps : Steps 1 read_or_ref
unfolding read_or_ref
read_or_ref-Steps = bind-Steps 1 0 _ byte_at-Steps read_kind-Steps

-- The presence byte and the update path.
tail-RoundTrips :
    (ps : List ProposalOrRef) (o : Option Bytes)
    → RoundTrips {A = Commit}
        (byte_at >>= λ has_path.
          (read_optional has_path >>= λ b. pure (record { proposals = ps; update_path_bytes = b })))
        (optional_bytes o)
        (record { proposals = ps; update_path_bytes = o })
unfolding read_optional optional_bytes ◌>>=◌ pure
tail-RoundTrips ps none =
    bind-RoundTrips {n = ok []}
      (λ has_path.
        read_optional has_path >>= λ b. pure (record { proposals = ps; update_path_bytes = b }))
      (byte-RoundTrips 0x00) (pure-RoundTrips (record { proposals = ps; update_path_bytes = none }))
tail-RoundTrips ps (some b) =
    bind-RoundTrips _ (byte-RoundTrips 0x01)
      (map-RoundTrips _ (map-RoundTrips some (tls_opaque-RoundTrips b)))

abbrev pub commit_on_the_wire : Commit → Commit
commit_on_the_wire c = record c { proposals = map on_the_wire c.proposals }

commit_bytes-RoundTrips :
    (c : Commit) → RoundTrips read_commit (commit_bytes c) (commit_on_the_wire c)
unfolding read_commit commit_bytes
commit_bytes-RoundTrips c =
    nested_then-RoundTrips (join or_ref_bytes c.proposals) (read_all read_or_ref) _
      tls_opaque-RoundTrips
      (λ d h.
        read_all-join read_or_ref-Steps or_ref_bytes (map on_the_wire c.proposals) d
          (every_reference c.proposals) (join-on_the_wire c.proposals ∙ h))
      (tail-RoundTrips (map on_the_wire c.proposals) c.update_path_bytes)

-- Each of the four proposals is read by the dispatch as it was written, wherever it stands in a buffer.
pub from_bytes_at-to_bytes_proposal :
    (p : Proposal) (e pre rest : Bytes)
    → to_bytes p ≡ ok e
    → from_bytes_at (pre ++ (e ++ rest)) (length pre) ≡ ok (p, length pre + length e)
from_bytes_at-to_bytes_proposal p e pre rest h = (from_bytes_at-RoundTrips p).decodes e h pre rest

-- A commit is read as it was written, wherever it stands in a buffer, up to a reference that stands
-- beside a value and is not written.
pub read_commit-commit_bytes :
    (c : Commit) (e pre rest : Bytes)
    → commit_bytes c ≡ ok e
    → read_commit (pre ++ (e ++ rest)) (length pre)
      ≡ ok (commit_on_the_wire c, length pre + length e)
read_commit-commit_bytes c e pre rest h = (commit_bytes-RoundTrips c).decodes e h pre rest
