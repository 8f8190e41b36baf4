-- ===== src/Wire/Reader.antt =====
-- The shape that every decoder of the program has: `read_x(buf, offset) -> (value, new_offset)`,
-- or an exception. A chain `a, offset = read_a(buf, offset); b, offset = read_b(buf, offset)`
-- is a `do` block.
use pure_mls.Prelude.{
  ℕ, zero, suc, Bytes, Bool, true, false, List, [], ◌∷◌, length, ltb, Result, ok, err, Error,
  out_of_fuel, bind, guard, Option, none, some, if◌then◌else◌,
}

abbrev pub Reader {ℓ} : Type ℓ → Type ℓ
Reader A = Bytes → ℕ → Result (A × ℕ)

infixl 5 ◌>>=◌ ◌>>◌
unfoldable pub ◌>>=◌ {ℓ κ} : {A : Type ℓ} {B : Type κ} → Reader A → (A → Reader B) → Reader B
◌>>=◌ r k buf offset = bind (r buf offset) (λ p. k p.0 buf p.1)

unfoldable pub ◌>>◌ {ℓ} : {B : Type ℓ} → Reader (Unit {0}) → Reader B → Reader B
unfolding ◌>>=◌
◌>>◌ r k = r >>= λ _. k

-- `return v, offset`
unfoldable pub pure {ℓ} : {A : Type ℓ} → A → Reader A
pure v buf offset = ok (v, offset)

-- A computation on the way that reads nothing.
unfoldable pub lift {ℓ} : {A : Type ℓ} → Result A → Reader A
lift m buf offset = bind m (λ v. ok (v, offset))

-- `if not test: raise e`
unfoldable pub require : Bool → Error → Reader (Unit {0})
unfolding lift
require test e = lift (guard test e)

-- The first component of what a reader returns at offset 0: `obj, _ = read(data, 0)`.
abbrev pub read_whole {ℓ} : {A : Type ℓ} → Reader A → Bytes → Result A
read_whole r buf = bind (r buf 0) (λ p. ok p.0)

-- `while offset < len(raw): v, offset = r(raw, offset); res.append(v)`
unfoldable pub read_loop {ℓ} : {A : Type ℓ} → Reader A → ℕ → Bytes → ℕ → Result (List A)
read_loop r zero raw offset = elim (ltb offset (length raw)) [
  | true ↦ err out_of_fuel
  | false ↦ ok []
]
read_loop r (suc fuel) raw offset = elim (ltb offset (length raw)) [
  | true ↦ bind (r raw offset) (λ p. bind (read_loop r fuel raw p.1) (λ vs. ok (p.0 ∷ vs)))
  | false ↦ ok []
]

-- The loop over all of `raw`. Each round takes a byte at least, so `len(raw)` rounds are enough.
unfoldable pub read_all {ℓ} : {A : Type ℓ} → Reader A → Bytes → Result (List A)
unfolding read_loop
read_all r raw = read_loop r (length raw) raw 0

-- The same loop over a reader that can leave it early: `none` is a `break`.
unfoldable pub read_until {ℓ} : {A : Type ℓ} → Reader (Option A) → ℕ → Bytes → ℕ → Result (List A)
read_until r zero raw offset = elim (ltb offset (length raw)) [
  | true ↦ err out_of_fuel
  | false ↦ ok []
]
read_until r (suc fuel) raw offset = elim (ltb offset (length raw)) [
  | true ↦ bind (r raw offset) (λ p. elim p.0 [
    | none ↦ ok []
    | some v ↦ bind (read_until r fuel raw p.1) (λ vs. ok (v ∷ vs))
  ])
  | false ↦ ok []
]

-- `for _ in range(n): v, offset = r(data, offset); res.append(v)`
unfoldable pub read_count {ℓ} : {A : Type ℓ} → Reader A → ℕ → Reader (List A)
unfolding ◌>>=◌ pure
read_count r zero = pure []
read_count r (suc n) = r >>= λ v. (read_count r n >>= λ vs. pure (v ∷ vs))

-- `while offset < stop: v, offset = r(data, offset); res.append(v)`, in a buffer that may go on.
unfoldable pub read_to {ℓ} : {A : Type ℓ} → Reader A → ℕ → ℕ → Reader (List A)
read_to r zero stop buf offset = if ltb offset stop then err out_of_fuel else ok ([], offset)
read_to r (suc fuel) stop buf offset = elim (ltb offset stop) [
  | true ↦ bind (r buf offset) (λ p. bind (read_to r fuel stop buf p.1) (λ q. ok (p.0 ∷ q.0, q.1)))
  | false ↦ ok ([], offset)
]
