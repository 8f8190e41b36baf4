-- ===== src/SecretTree/Sender.antt =====
-- The sender's counter in `get_key_and_nonce` of src/pure_mls/secret_tree.py.
use pure_mls.Prelude.{
  ℕ, ◌+◌, ◌≡◌, sym, ap, ◌∙◌, Bytes, Result, ok, err, Result-cases, inl, inr, ==_refl, some, none,
  Option, ok-injective, err-ne-ok,
}
use pure_mls.Primitives.{Primitives}
use pure_mls.SecretTree.{
  SecretTree, SecretType, get_key_and_nonce_for_gen, get_key_and_nonce, next_generation, count_up,
}

counted :
    (st : SecretTree) (leaf gen : ℕ) → (count_up st leaf gen).generations leaf ≡ some (gen + 1)
unfolding count_up
counted st leaf gen = rw (==_refl leaf)

next_generation-count_up :
    (st : SecretTree) (leaf gen : ℕ) → next_generation (count_up st leaf gen) leaf ≡ gen + 1
unfolding next_generation
next_generation-count_up st leaf gen =
    ap (λ (o : Option ℕ). elim o [ none ↦ 0 | some g ↦ g ]) (counted st leaf gen)

-- Where `get_key_and_nonce` returns a key, its generation is the counter of the leaf, and the
-- counter of the tree that it leaves is one more.
pub get_key_and_nonce-counts :
    (p : Primitives) (st : SecretTree) (leaf gen : ℕ) (type : SecretType) (key nonce : Bytes)
    (st' : SecretTree)
    → get_key_and_nonce p st leaf type ≡ (ok (key, (nonce, gen)), st')
    → (gen ≡ next_generation st leaf) × (next_generation st' leaf ≡ gen + 1)
unfolding get_key_and_nonce
get_key_and_nonce-counts p st leaf gen type key nonce st' h =
    let asked = get_key_and_nonce_for_gen p st leaf (next_generation st leaf) type in
    elim (Result-cases asked.0) [
      | inl ((k, n), fine) ↦
          let both : Path (Result (Bytes × (Bytes × ℕ)) × SecretTree)
              (
                ok (k, (n, next_generation st leaf)),
                count_up asked.1 leaf (next_generation st leaf),
              )
              (ok (key, (nonce, gen)), st') =
            rw (fine, get_key_and_nonce) at h in
          let same : next_generation st leaf ≡ gen =
            ap (λ r. r.1.1) (ok-injective (ap (λ q. q.0) both)) in
          (
            sym same,
            ap (λ q. next_generation q.1 leaf) (sym both)
                ∙ next_generation-count_up asked.1 leaf _
                ∙ ap (λ g. g + 1) same,
          )
      | inr (e, failed) ↦
          let both : Path (Result (Bytes × (Bytes × ℕ)) × SecretTree) (err e, asked.1)
              (ok (key, (nonce, gen)), st') =
            rw (failed, get_key_and_nonce) at h in
          absurd (err-ne-ok (ap (λ q. q.0) both))
    ]
