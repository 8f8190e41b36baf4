-- ===== src/Group/Dict/Distinct.antt =====
-- Dictionaries with distinct keys, under sorting and under setting their items again.
use pure_mls.Prelude.{
  suc, ◌≡◌, refl, ap, ◌∙◌, Bool, false, Bytes, [], ◌∷◌, ◌++◌, length, All, ◌==◌, Bool-cases, inl,
  inr, arith,
}
use pure_mls.Codecs.{same_bytes}
use pure_mls.Group.Dict.{Dict, dict_set, insert, sort}

-- Every key is another one than the keys behind it.
abbrev pub DistinctKeys : Dict → Type 0
DistinctKeys [] = Unit {0}
DistinctKeys (kv ∷ more) = All (λ o. same_bytes kv.0 o.0 ≡ false) more × DistinctKeys more

same_bytes_sym : (a b : Bytes) → same_bytes a b ≡ same_bytes b a
same_bytes_sym [] [] = refl
same_bytes_sym [] (b ∷ bs) = refl
same_bytes_sym (a ∷ more) [] = refl
same_bytes_sym (a ∷ more) (b ∷ bs) =
    let head : (a == b) ≡ (b == a) = ground arith in rw (head, same_bytes_sym more bs)

module _ (before : Bytes × Bytes → Bytes × Bytes → Bool) where
  insert-All :
      (P : Bytes × Bytes → Type 0) (x : Bytes × Bytes) (ys : Dict)
      → P x
      → All P ys
      → All P (insert before x ys)
  unfolding insert
  insert-All P x [] px h = (px, tt)
  insert-All P x (y ∷ ys) px (py, h) = elim (Bool-cases (before x y)) [
    | inl first ↦ rw first (px, (py, h))
    | inr later ↦ rw later (py, insert-All P x ys px h)
  ]

  insert-DistinctKeys :
      (x : Bytes × Bytes) (ys : Dict)
      → All (λ o. same_bytes x.0 o.0 ≡ false) ys
      → DistinctKeys ys
      → DistinctKeys (insert before x ys)
  unfolding insert
  insert-DistinctKeys x [] h d = (tt, tt)
  insert-DistinctKeys x (y ∷ ys) (hy, h) (dy, d) = elim (Bool-cases (before x y)) [
    | inl first ↦ rw first ((hy, h), (dy, d))
    | inr later ↦ rw later (
      insert-All (λ o. same_bytes y.0 o.0 ≡ false) x ys (same_bytes_sym y.0 x.0 ∙ hy) dy,
      insert-DistinctKeys x ys h d,
    )
  ]

  sort-All : (P : Bytes × Bytes → Type 0) (xs : Dict) → All P xs → All P (sort before xs)
  unfolding sort
  sort-All P [] h = tt
  sort-All P (x ∷ xs) (px, h) = insert-All P x (sort before xs) px (sort-All P xs h)

  pub sort-DistinctKeys : (xs : Dict) → DistinctKeys xs → DistinctKeys (sort before xs)
  unfolding sort
  sort-DistinctKeys [] d = tt
  sort-DistinctKeys (x ∷ xs) (h, d) =
      insert-DistinctKeys x (sort before xs) (sort-All (λ o. same_bytes x.0 o.0 ≡ false) xs h)
        (sort-DistinctKeys xs d)

  length-insert : (x : Bytes × Bytes) (ys : Dict) → length (insert before x ys) ≡ suc (length ys)
  unfolding insert
  length-insert x [] = refl
  length-insert x (y ∷ ys) = elim (Bool-cases (before x y)) [
    | inl first ↦ rw first
    | inr later ↦ rw later (ap suc (length-insert x ys))
  ]

  pub length-sort : (xs : Dict) → length (sort before xs) ≡ length xs
  unfolding sort
  length-sort [] = refl
  length-sort (x ∷ xs) = length-insert x (sort before xs) ∙ ap suc (length-sort xs)

All-middle :
    (P : Bytes × Bytes → Type 0) (xs : Dict) (y : Bytes × Bytes) (ys : Dict)
    → All P (xs ++ (y ∷ ys))
    → P y
All-middle P [] y ys (py, h) = py
All-middle P (x ∷ xs) y ys (px, h) = All-middle P xs y ys h

-- A key that is in no item yet goes to the end.
pub dict_set_fresh :
    (xs : Dict) (kv : Bytes × Bytes) (ys : Dict)
    → DistinctKeys (xs ++ (kv ∷ ys))
    → dict_set xs kv.0 kv.1 ≡ xs ++ (kv ∷ [])
unfolding dict_set
dict_set_fresh [] kv ys d = refl
dict_set_fresh (x ∷ xs) kv ys (h, d) =
    rw (All-middle (λ o. same_bytes x.0 o.0 ≡ false) xs kv ys h, dict_set_fresh xs kv ys d)
