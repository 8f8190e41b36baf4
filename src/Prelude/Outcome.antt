-- ===== src/Prelude/Outcome.antt =====
-- The outcome of a Python call: a value, or the exception that it raises.
use Prim.Native.Nat.{ℕ}
use mathlib.Core.Path.{◌≡◌, refl, ap}
use mathlib.Core.Logic.{◌⊎◌, inl, inr}
use mathlib.Core.Bool.{Bool, true, false}
use mathlib.Core.List.{List, [], ◌∷◌, ◌++◌, append-nil, append_assoc}
use mathlib.Core.Option.{Option, none, some}

-- The exception's class. `out_of_fuel` is no Python exception: a loop of the model that would
-- not have ended within its fuel.
pub data Error : Type 0 where
  index_error struct_error value_error overflow_error type_error runtime_error key_error : Error
  assertion_error invalid_tag invalid_signature out_of_fuel : Error

pub data Result {ℓ} (A : Type ℓ) : Type ℓ where
  ok : A → Result A
  err : Error → Result A

abbrev pub bind {ℓ κ} : {A : Type ℓ} {B : Type κ} → Result A → (A → Result B) → Result B
bind (ok a) f = f a
bind (err e) f = err e

abbrev pub guard : Bool → Error → Result (Unit {0})
guard true e = ok tt
guard false e = err e

-- An expression that raises `e` where the model's `Option` has no value.
abbrev pub or_raise {ℓ} : {A : Type ℓ} → Error → Option A → Result A
or_raise e none = err e
or_raise e (some a) = ok a

-- `a + b` for two byte strings that are computed from left to right.
infixr 65 ◌⊕◌
abbrev pub ◌⊕◌ : Result (List ℕ) → Result (List ℕ) → Result (List ℕ)
m ⊕ n = bind m (λ a. bind n (λ b. ok (a ++ b)))

-- `b"".join(f(x) for x in xs)`
unfoldable pub join {ℓ} : {A : Type ℓ} → (A → Result (List ℕ)) → List A → Result (List ℕ)
join f [] = ok []
join f (x ∷ xs) = f x ⊕ join f xs

pub bind-eq-ok {ℓ κ} :
    {A : Type ℓ} {B : Type κ} (m : Result A) (f : A → Result B) {b : B}
    → bind m f ≡ ok b
    → (a : A) × (m ≡ ok a) × (f a ≡ ok b)
bind-eq-ok (ok a) f h = (a, refl, h)
bind-eq-ok (err e) f h = cc

pub ⊕-eq-ok :
    (m n : Result (List ℕ)) {e : List ℕ}
    → (m ⊕ n) ≡ ok e
    → (a : List ℕ) × (b : List ℕ) × (m ≡ ok a) × (n ≡ ok b) × (e ≡ a ++ b)
⊕-eq-ok (ok a) (ok b) h = (a, b, refl, refl, cc)
⊕-eq-ok (ok a) (err x) h = cc
⊕-eq-ok (err x) n h = cc

pub Result-cases {ℓ} :
    {A : Type ℓ} (r : Result A) → ((a : A) × (r ≡ ok a)) ⊎ ((e : Error) × (r ≡ err e))
Result-cases (ok a) = inl (a, refl)
Result-cases (err e) = inr (e, refl)

pub ok-injective {ℓ} : {A : Type ℓ} {a b : A} → ok a ≡ ok b → a ≡ b
ok-injective h = cc

pub err-ne-ok {ℓ} : {A : Type ℓ} {e : Error} {a : A} → ¬ (err e ≡ ok a)
err-ne-ok h = cc

pub bind_assoc {ℓ κ μ} :
    {A : Type ℓ} {B : Type κ} {C : Type μ} (m : Result A) (f : A → Result B) (k : B → Result C)
    → bind (bind m f) k ≡ bind m (λ a. bind (f a) k)
bind_assoc (ok a) f k = refl
bind_assoc (err e) f k = refl

pub ⊕_assoc : (a b c : Result (List ℕ)) → ((a ⊕ b) ⊕ c) ≡ (a ⊕ (b ⊕ c))
⊕_assoc (ok a) (ok b) (ok c) = ap ok (append_assoc a b c)
⊕_assoc (ok a) (ok b) (err x) = refl
⊕_assoc (ok a) (err x) c = refl
⊕_assoc (err x) b c = refl

pub ⊕_nil : (m : Result (List ℕ)) → (m ⊕ ok []) ≡ m
⊕_nil (ok a) = ap ok (append-nil a)
⊕_nil (err e) = refl
