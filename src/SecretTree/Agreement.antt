-- ===== src/SecretTree/Agreement.antt =====
-- The keys of two secret trees of src/pure_mls/secret_tree.py with one encryption secret, for coherent caches
-- that are not past the generation.
use pure_mls.Prelude.{
  ℕ, ◌≡◌, sym, ap, ◌∙◌, Bytes, Result, ok, ok-injective, err, err-ne-ok, bind, Result-cases, inl,
  inr,
}
use pure_mls.Primitives.{Primitives}
use pure_mls.SecretTree.{
  SecretTree, SecretType, get_ratchet_secret, key_and_nonce, get_key_and_nonce_for_gen,
  get_key_and_nonce, next_generation, first_secret, derive_leaf_node_secret,
}
use pure_mls.SecretTree.Ratchet.{reference, IsCoherent, IsAhead, get_ratchet_secret-reference}

keys_of :
    (p : Primitives) (st : SecretTree) (leaf gen : ℕ) (type : SecretType)
    → (get_key_and_nonce_for_gen p st leaf gen type).0
      ≡ bind (bind (get_ratchet_secret p st leaf gen type) (λ q. ok q.0)) (key_and_nonce p gen)
unfolding get_key_and_nonce_for_gen
keys_of p st leaf gen type = elim (Result-cases (get_ratchet_secret p st leaf gen type)) [
  | inl (q, fine) ↦ rw (fine, get_key_and_nonce_for_gen)
  | inr (e, failed) ↦ rw (failed, get_key_and_nonce_for_gen)
]

reference_same :
    (p : Primitives) (st st' : SecretTree) (leaf gen : ℕ) (type : SecretType)
    → st.encryption_secret ≡ st'.encryption_secret
    → st.n_leaves ≡ st'.n_leaves
    → reference p st leaf gen type ≡ reference p st' leaf gen type
unfolding reference first_secret derive_leaf_node_secret
reference_same p st st' leaf gen type hs hn = rw (hs, hn)

-- Two secret trees that were made from one encryption secret for one number of leaves, and whose caches are coherent
-- and not ahead of the generation, give the same key and nonce for it, or raise the same error.
pub get_key_and_nonce_for_gen-agrees :
    (p : Primitives) (st st' : SecretTree) (leaf gen : ℕ) (type : SecretType)
    → st.encryption_secret ≡ st'.encryption_secret
    → st.n_leaves ≡ st'.n_leaves
    → IsCoherent p st
    → IsCoherent p st'
    → IsAhead gen (st.leaf_cache leaf type)
    → IsAhead gen (st'.leaf_cache leaf type)
    → (get_key_and_nonce_for_gen p st leaf gen type).0
      ≡ (get_key_and_nonce_for_gen p st' leaf gen type).0
get_key_and_nonce_for_gen-agrees p st st' leaf gen type hs hn k k' a a' =
    keys_of p st leaf gen type
    ∙ ap (λ m. bind m (key_and_nonce p gen))
        (get_ratchet_secret-reference p st leaf gen type k a
          ∙ reference_same p st st' leaf gen type hs hn
          ∙ sym (get_ratchet_secret-reference p st' leaf gen type k' a'))
    ∙ sym (keys_of p st' leaf gen type)

-- What the sender gets is what the tree gives for the generation of the leaf's counter.
pub get_key_and_nonce-for_gen :
    (p : Primitives) (st : SecretTree) (leaf : ℕ) (type : SecretType) (k : Bytes × (Bytes × ℕ))
    → (get_key_and_nonce p st leaf type).0 ≡ ok k
    → ((get_key_and_nonce_for_gen p st leaf (next_generation st leaf) type).0 ≡ ok (k.0, k.1.0))
      × (k.1.1 ≡ next_generation st leaf)
unfolding get_key_and_nonce
get_key_and_nonce-for_gen p st leaf type k h =
    let gen = next_generation st leaf in
    elim (Result-cases (get_key_and_nonce_for_gen p st leaf gen type).0) [
      | inl (q, fine) ↦
          let both : ◌≡◌ {A = Result (Bytes × (Bytes × ℕ))} (ok (q.0, (q.1, gen))) (ok k) =
            rw (fine, get_key_and_nonce) at h in
          let same = ok-injective both in
          (fine ∙ ap (λ t. ok (t.0, t.1.0)) same, sym (ap (λ t. t.1.1) same))
      | inr (e, failed) ↦
          let both : ◌≡◌ {A = Result (Bytes × (Bytes × ℕ))} (err e) (ok k) =
            rw (failed, get_key_and_nonce) at h in
          absurd (err-ne-ok both)
    ]
