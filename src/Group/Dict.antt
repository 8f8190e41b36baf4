-- ===== src/Group/Dict.antt =====
-- Python dictionaries and sets of byte strings, in the order of their insertions, and `sorted`.
use pure_mls.Prelude.{
  ℕ, Bool, true, false, Bytes, List, [], ◌∷◌, ◌≡◌, refl, ◌==◌, ltb, if◌then◌else◌, Option, none,
  some, All, Result, Bool-cases, inl, inr, ◌++◌,
}
use pure_mls.Codecs.{same_bytes}
pub mod Distinct

abbrev pub Dict : Type 0
Dict = List (Bytes × Bytes)

-- `d[key] = value`: a key that is there keeps its place.
unfoldable pub dict_set : Dict → Bytes → Bytes → Dict
dict_set [] key value = (key, value) ∷ []
dict_set (kv ∷ more) key value =
    let rest = dict_set more key value in
    if same_bytes kv.0 key then (key, value) ∷ more else kv ∷ rest

-- `d.get(key)`
unfoldable pub dict_get : Dict → Bytes → Option Bytes
dict_get [] key = none
dict_get (kv ∷ more) key =
    let rest = dict_get more key in if same_bytes kv.0 key then some kv.1 else rest

-- `ref in refs`
unfoldable pub mem_bytes : List Bytes → Bytes → Bool
mem_bytes [] ref = false
mem_bytes (r ∷ rs) ref = let rest = mem_bytes rs ref in if same_bytes r ref then true else rest

-- `refs.add(ref)`
unfoldable pub set_add : List Bytes → Bytes → List Bytes
unfolding mem_bytes
set_add refs ref = if mem_bytes refs ref then refs else refs ++ (ref ∷ [])

-- `a <= b` on byte strings
unfoldable pub bytes_leb : Bytes → Bytes → Bool
bytes_leb [] bs = true
bytes_leb (a ∷ more) [] = false
bytes_leb (a ∷ more) (b ∷ bs) =
    let rest = bytes_leb more bs in if ltb a b then true else if a == b then rest else false

-- `a <= b` on the items of a dictionary
abbrev pub item_leb : Bytes × Bytes → Bytes × Bytes → Bool
item_leb a b = if same_bytes a.0 b.0 then bytes_leb a.1 b.1 else bytes_leb a.0 b.0

module _ {ℓ} {A : Type ℓ} (before : A → A → Bool) where
  unfoldable pub insert : A → List A → List A
  insert x [] = x ∷ []
  insert x (y ∷ ys) = let rest = insert x ys in if before x y then x ∷ (y ∷ ys) else y ∷ rest

  -- `sorted(xs)`
  unfoldable pub sort : List A → List A
  unfolding insert
  sort [] = []
  sort (x ∷ xs) = insert x (sort xs)
