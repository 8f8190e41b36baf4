-- ===== src/SecretTree/Ratchet.antt =====
-- The cached ratchet of `_get_ratchet_secret` of src/pure_mls/secret_tree.py against a ratchet without a cache.
use pure_mls.Prelude.{
  bind_assoc, ℕ, zero, suc, ◌+◌, ◌-◌, ◌≤◌, ◌<◌, ◌≡◌, refl, sym, ap, ap₂, err-ne-ok, ◌∙◌, arith,
  Bytes, Option, none, some, Result, ok, err, bind, bind-eq-ok, ok-injective, ltb, lt→ltb, le→ltb,
  value_error, ◌==◌, ==_refl, ==_iff, true, false, Bool-cases, inl, inr,
}
use pure_mls.Primitives.{Primitives}
use pure_mls.Tls.Ints.{pack}
use pure_mls.Hkdf.{expand_with_label}
use pure_mls.SecretTree.{
  SecretTree, SecretType, handshake, application, same_type, store, ratchet, first_secret, from_tip,
  get_ratchet_secret,
}
use native.Mathlib.Nat.{add-zero, zero-add}

-- The secret of a generation, from the leaf's first one and with no cache.
unfoldable pub reference : Primitives → SecretTree → ℕ → ℕ → SecretType → Result Bytes
reference p st leaf generation type = bind (first_secret p st leaf type) (ratchet p generation 0)

-- What is stored for a leaf is what the ratchet gives.
unfoldable pub IsRight : Primitives → SecretTree → ℕ → SecretType → Option (ℕ × Bytes) → Type 0
IsRight p st leaf type none = Unit {0}
IsRight p st leaf type (some (g, s)) = reference p st leaf g type ≡ ok s

unfoldable pub IsCoherent : Primitives → SecretTree → Type 0
IsCoherent p st = (leaf : ℕ) (type : SecretType) → IsRight p st leaf type (st.leaf_cache leaf type)

-- The generation is not behind the tip.
unfoldable pub IsAhead : ℕ → Option (ℕ × Bytes) → Type 0
IsAhead gen none = Unit {0}
IsAhead gen (some (g, s)) = g ≤ gen

bind-ext {ℓ κ} :
    {A : Type ℓ} {B : Type κ} (m : Result A) (f k : A → Result B)
    → ((a : A) → f a ≡ k a)
    → bind m f ≡ bind m k
bind-ext (ok a) f k h = h a
bind-ext (err e) f k h = refl

ratchet-suc :
    (p : Primitives) (m g : ℕ) (s : Bytes)
    → ratchet p (suc m) g s
      ≡ bind
          (pack 4 g)
          (λ context. bind (expand_with_label p s "secret" context 32) (ratchet p m (g + 1)))
unfolding ratchet
ratchet-suc p m g s = refl

zero_rounds :
    (p : Primitives) (n g : ℕ) (s : Bytes)
    → ratchet p n g s ≡ bind (ratchet p 0 g s) (ratchet p n g)
unfolding ratchet
zero_rounds p n g s = refl

ratchet-add :
    (p : Primitives) (m n g : ℕ) (s : Bytes)
    → ratchet p (m + n) g s ≡ bind (ratchet p m g s) (ratchet p n (g + m))
ratchet-add p zero n g s = rw (zero-add n, add-zero g) (zero_rounds p n g s)
ratchet-add p (suc m) n g s =
    let total : suc m + n ≡ suc (m + n) = omega arith in
    let start : g + suc m ≡ (g + 1) + m = omega arith in
    rw (total, start, ratchet-suc p (m + n) g s, ratchet-suc p m g s)
      (bind-ext (pack 4 g) _ _ (λ context.
          bind-ext (expand_with_label p s "secret" context 32) _ _ (ratchet-add p m n (g + 1))
          ∙ sym (bind_assoc (expand_with_label p s "secret" context 32) _ _))
        ∙ sym (bind_assoc (pack 4 g) _ _))

-- From one generation to a later one.
reference-later :
    (p : Primitives) (st : SecretTree) (leaf g gen : ℕ) (type : SecretType) (s : Bytes)
    → g ≤ gen
    → reference p st leaf g type ≡ ok s
    → reference p st leaf gen type ≡ ratchet p (gen - g) g s
unfolding reference
reference-later p st leaf g gen type s le h =
    let split : gen ≡ g + (gen - g) = omega arith in
    ap (λ t. bind (first_secret p st leaf type) (ratchet p t 0)) split
    ∙ bind-ext (first_secret p st leaf type) _ _
        (λ f. rw (zero-add g) at (ratchet-add p g (gen - g) 0 f))
    ∙ sym (bind_assoc (first_secret p st leaf type) _ _)
    ∙ ap (λ m. bind m (ratchet p (gen - g) g)) h

first_of {ℓ} :
    {A : Type ℓ} (m : Result Bytes) (f : Bytes → A)
    → bind {A = Bytes × A} (bind m (λ s. ok (s, f s))) (λ r. ok r.0) ≡ m
first_of (ok s) f = refl
first_of (err e) f = refl

same_type_refl : (t : SecretType) → same_type t t ≡ true
same_type_refl handshake = refl
same_type_refl application = refl

store_tip :
    (st : SecretTree) (leaf : ℕ) (type : SecretType) (tip : ℕ × Bytes)
    → (store st leaf type tip).leaf_cache leaf type ≡ some tip
unfolding store
store_tip st leaf type tip = rw (==_refl leaf, same_type_refl type)

from_tip-reference :
    (p : Primitives) (st : SecretTree) (leaf gen : ℕ) (type : SecretType) (tip : Option (ℕ × Bytes))
    → IsRight p st leaf type tip
    → IsAhead gen tip
    → bind (from_tip p st leaf gen type tip) (λ r. ok r.0) ≡ reference p st leaf gen type
unfolding from_tip reference IsRight IsAhead
from_tip-reference p st leaf gen type none right ahead =
    bind_assoc (first_secret p st leaf type) _ _
    ∙ bind-ext (first_secret p st leaf type) _ _ (λ first. first_of (ratchet p gen 0 first) _)
from_tip-reference p st leaf gen type (some (g, s)) right ahead = elim (Bool-cases (g == gen)) [
  | inl same ↦
      rw same (sym (ap (λ t. reference p st leaf t type) (sym ((==_iff g gen).0 same)) ∙ right))
  | inr later ↦
      rw (later, le→ltb gen g ahead)
        (first_of (ratchet p (gen - g) g s) _
          ∙ sym (reference-later p st leaf g gen type s ahead right))
]

-- In a tree whose stored tips are right, a request for a generation that is not behind the tip
-- gives the secret that the ratchet gives from the first secret of the leaf, or fails where that
-- fails: the cache changes no secret.
pub get_ratchet_secret-reference :
    (p : Primitives) (st : SecretTree) (leaf gen : ℕ) (type : SecretType)
    → IsCoherent p st
    → IsAhead gen (st.leaf_cache leaf type)
    → bind (get_ratchet_secret p st leaf gen type) (λ r. ok r.0) ≡ reference p st leaf gen type
unfolding get_ratchet_secret IsCoherent
get_ratchet_secret-reference p st leaf gen type coherent ahead =
    from_tip-reference p st leaf gen type (st.leaf_cache leaf type) (coherent leaf type) ahead

-- The last step of `_get_ratchet_secret`: the cache takes the secret, and the call returns it.
stored :
    (p : Primitives) (st : SecretTree) (leaf gen : ℕ) (type : SecretType) (t s : Bytes)
    (st' : SecretTree)
    → ◌≡◌ {A = Result (Bytes × SecretTree)} (ok (t, store st leaf type (gen, t))) (ok (s, st'))
    → st'.leaf_cache leaf type ≡ some (gen, s)
stored p st leaf gen type t s st' h =
    let both = ok-injective h in
    ap (λ q. q.1.leaf_cache leaf type) (sym both)
    ∙ store_tip st leaf type (gen, t)
    ∙ ap (λ q. some (gen, q.0)) both

from_tip-tip :
    (p : Primitives) (st : SecretTree) (leaf gen : ℕ) (type : SecretType) (tip : Option (ℕ × Bytes))
    (s : Bytes) (st' : SecretTree)
    → st.leaf_cache leaf type ≡ tip
    → from_tip p st leaf gen type tip ≡ ok (s, st')
    → st'.leaf_cache leaf type ≡ some (gen, s)
unfolding from_tip
from_tip-tip p st leaf gen type none s st' here h =
    let (first, _, h') = bind-eq-ok (first_secret p st leaf type) _ h in
    let (t, _, h'') = bind-eq-ok (ratchet p gen 0 first) _ h' in
    stored p st leaf gen type t s st' h''
from_tip-tip p st leaf gen type (some (g, t)) s st' here h = elim (Bool-cases (g == gen)) [
  | inl same ↦
      let both : ◌≡◌ {A = Result (Bytes × SecretTree)} (ok (t, st)) (ok (s, st')) = rw same at h in
      ap (λ q. q.1.leaf_cache leaf type) (sym (ok-injective both))
      ∙ here
      ∙ ap₂ (λ a b. some (a, b)) ((==_iff g gen).0 same) (ap (λ q. q.0) (ok-injective both))
  | inr later ↦ elim (Bool-cases (ltb gen g)) [
    | inl behind ↦ absurd (err-ne-ok (rw (later, behind) at h))
    | inr ahead ↦
        let (u, _, h') =
          bind-eq-ok (ratchet p (gen - g) g t) (λ u. ok (u, store st leaf type (gen, u)))
            (rw (later, ahead) at h) in
        stored p st leaf gen type u s st' h'
  ]
]

-- A generation that was asked for is the tip of its ratchet, with its secret.
pub get_ratchet_secret-tip :
    (p : Primitives) (st : SecretTree) (leaf gen : ℕ) (type : SecretType) (s : Bytes)
    (st' : SecretTree)
    → get_ratchet_secret p st leaf gen type ≡ ok (s, st')
    → st'.leaf_cache leaf type ≡ some (gen, s)
unfolding get_ratchet_secret
get_ratchet_secret-tip p st leaf gen type s st' h =
    from_tip-tip p st leaf gen type (st.leaf_cache leaf type) s st' refl h

from_tip-behind :
    (p : Primitives) (st : SecretTree) (leaf g gen : ℕ) (type : SecretType) (s : Bytes)
    → g < gen
    → from_tip p st leaf g type (some (gen, s)) ≡ err value_error
unfolding from_tip
from_tip-behind p st leaf g gen type s h =
    let differ : (gen == g) ≡ false = ground arith in rw (differ, lt→ltb g gen h)

-- Once a request for a generation of a leaf and type has succeeded, the tree that it leaves
-- refuses every generation before it with a ValueError.
pub get_ratchet_secret-forgets :
    (p : Primitives) (st : SecretTree) (leaf g gen : ℕ) (type : SecretType) (s : Bytes)
    (st' : SecretTree)
    → get_ratchet_secret p st leaf gen type ≡ ok (s, st')
    → g < gen
    → get_ratchet_secret p st' leaf g type ≡ err value_error
unfolding get_ratchet_secret
get_ratchet_secret-forgets p st leaf g gen type s st' h lt =
    rw (get_ratchet_secret-tip p st leaf gen type s st' h)
      (from_tip-behind p st' leaf g gen type s lt)
