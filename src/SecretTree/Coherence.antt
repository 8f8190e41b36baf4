-- ===== src/SecretTree/Coherence.antt =====
-- Coherence of the cache of src/pure_mls/secret_tree.py: each stored tip is what the ratchet gives.
use pure_mls.Prelude.{
  ℕ, ◌-◌, ◌≡◌, refl, sym, ap, ◌∙◌, subst, Bytes, Option, none, some, Result, ok, bind, bind-eq-ok,
  ok-injective, err-ne-ok, ltb, ◌==◌, ==_iff, true, Bool-cases, inl, inr, ◌⊎◌,
}
use pure_mls.Primitives.{Primitives}
use pure_mls.SecretTree.{
  SecretTree, SecretType, handshake, application, same_type, store, ratchet, first_secret, from_tip,
  get_ratchet_secret, new, derive_leaf_node_secret,
}
use pure_mls.SecretTree.Ratchet.{
  reference, IsRight, IsCoherent, IsAhead, get_ratchet_secret-reference,
}

pub new-IsCoherent : (p : Primitives) (secret : Bytes) (n : ℕ) → IsCoherent p (new secret n)
unfolding IsCoherent IsRight new
new-IsCoherent p secret n leaf type = tt

same_type-eq : (t u : SecretType) → same_type t u ≡ true → t ≡ u
same_type-eq handshake handshake h = refl
same_type-eq handshake application h = cc
same_type-eq application handshake h = cc
same_type-eq application application h = refl

-- What is in the cache after a store: the new tip, or what was there.
store-cases :
    (st : SecretTree) (leaf l : ℕ) (type t : SecretType) (tip : ℕ × Bytes)
    → ((l ≡ leaf) × (t ≡ type) × ((store st leaf type tip).leaf_cache l t ≡ some tip))
      ⊎ ((store st leaf type tip).leaf_cache l t ≡ st.leaf_cache l t)
unfolding store
store-cases st leaf l type t tip = elim (Bool-cases (l == leaf)) [
  | inl same_leaf ↦ elim (Bool-cases (same_type t type)) [
    | inl same ↦ inl ((==_iff l leaf).0 same_leaf, same_type-eq t type same, rw (same_leaf, same))
    | inr other ↦ inr (rw (same_leaf, other))
  ]
  | inr other ↦ inr (rw other)
]

store-reference :
    (p : Primitives) (st : SecretTree) (leaf l g : ℕ) (type t : SecretType) (tip : ℕ × Bytes)
    → reference p (store st leaf type tip) l g t ≡ reference p st l g t
unfolding reference store first_secret derive_leaf_node_secret
store-reference p st leaf l g type t tip = refl

stored-IsRight :
    (p : Primitives) (st : SecretTree) (leaf l gen : ℕ) (type t : SecretType) (secret : Bytes)
    (o : Option (ℕ × Bytes))
    → IsRight p st l t o
    → IsRight p (store st leaf type (gen, secret)) l t o
unfolding IsRight
stored-IsRight p st leaf l gen type t secret none right = tt
stored-IsRight p st leaf l gen type t secret (some (g, s)) right =
    store-reference p st leaf l g type t (gen, secret) ∙ right

-- A tip that is right may be stored.
store-IsCoherent :
    (p : Primitives) (st : SecretTree) (leaf gen : ℕ) (type : SecretType) (secret : Bytes)
    → IsCoherent p st
    → reference p st leaf gen type ≡ ok secret
    → IsCoherent p (store st leaf type (gen, secret))
unfolding IsCoherent IsRight
store-IsCoherent p st leaf gen type secret coherent right l t =
    elim (store-cases st leaf l type t (gen, secret)) [
      | inl (same_leaf, same, tip) ↦
          subst (IsRight p (store st leaf type (gen, secret)) l t) (sym tip) (
            stored-IsRight p st leaf l gen type t secret (some (gen, secret))
              (rw (same_leaf, same) right))
      | inr old ↦
          subst (IsRight p (store st leaf type (gen, secret)) l t) (sym old)
            (stored-IsRight p st leaf l gen type t secret (st.leaf_cache l t) (coherent l t))
    ]

stored-eq :
    (st : SecretTree) (leaf gen : ℕ) (type : SecretType) (t s : Bytes) (st' : SecretTree)
    → ◌≡◌ {A = Result (Bytes × SecretTree)} (ok (t, store st leaf type (gen, t))) (ok (s, st'))
    → st' ≡ store st leaf type (gen, s)
stored-eq st leaf gen type t s st' h =
    let both = ok-injective h in
    ap (λ q. q.1) (sym both) ∙ ap (λ q. store st leaf type (gen, q.0)) both

-- What a request that succeeds leaves: the tree as it was, or with the secret stored.
from_tip-after :
    (p : Primitives) (st : SecretTree) (leaf gen : ℕ) (type : SecretType) (tip : Option (ℕ × Bytes))
    (s : Bytes) (st' : SecretTree)
    → from_tip p st leaf gen type tip ≡ ok (s, st')
    → (st' ≡ st) ⊎ (st' ≡ store st leaf type (gen, s))
unfolding from_tip
from_tip-after p st leaf gen type none s st' h =
    let (first, _, h') = bind-eq-ok (first_secret p st leaf type) _ h in
    let (t, _, h'') = bind-eq-ok (ratchet p gen 0 first) _ h' in
    inr (stored-eq st leaf gen type t s st' h'')
from_tip-after p st leaf gen type (some (g, t)) s st' h = elim (Bool-cases (g == gen)) [
  | inl same ↦
      let both : ◌≡◌ {A = Result (Bytes × SecretTree)} (ok (t, st)) (ok (s, st')) = rw same at h in
      inl (ap (λ q. q.1) (sym (ok-injective both)))
  | inr later ↦ elim (Bool-cases (ltb gen g)) [
    | inl behind ↦ absurd (err-ne-ok (rw (later, behind) at h))
    | inr ahead ↦
        let (u, _, h') =
          bind-eq-ok (ratchet p (gen - g) g t) (λ u. ok (u, store st leaf type (gen, u)))
            (rw (later, ahead) at h) in
        inr (stored-eq st leaf gen type u s st' h')
  ]
]

-- A request that succeeds and is not behind the tip of its leaf and type keeps every stored tip
-- right, if all of them were.
pub get_ratchet_secret-IsCoherent :
    (p : Primitives) (st : SecretTree) (leaf gen : ℕ) (type : SecretType) (s : Bytes)
    (st' : SecretTree)
    → IsCoherent p st
    → IsAhead gen (st.leaf_cache leaf type)
    → get_ratchet_secret p st leaf gen type ≡ ok (s, st')
    → IsCoherent p st'
unfolding get_ratchet_secret
get_ratchet_secret-IsCoherent p st leaf gen type s st' coherent ahead h =
    let right : reference p st leaf gen type ≡ ok s =
      sym (get_ratchet_secret-reference p st leaf gen type coherent ahead)
      ∙ ap (λ m. bind m (λ r. ok r.0)) h in
    elim (from_tip-after p st leaf gen type (st.leaf_cache leaf type) s st' h) [
      | inl same ↦ subst (IsCoherent p) (sym same) coherent
      | inr kept ↦
          subst (IsCoherent p) (sym kept) (store-IsCoherent p st leaf gen type s coherent right)
    ]
