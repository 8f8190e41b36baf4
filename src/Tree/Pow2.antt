-- ===== src/Tree/Pow2.antt =====
-- `_next_pow2` of src/pure_mls/tree.py.
use pure_mls.Prelude.{
  ℕ, zero, suc, ◌+◌, ◌*◌, ◌^◌, ◌≤◌, ◌<◌, ◌≡◌, refl, ap, ◌∙◌, sym, arith, lt→ltb, le→ltb, inl, inr,
  ◌⊎◌,
}
use pure_mls.Prelude.Bits.{pow_pos}
use pure_mls.Tree.{next_pow2, next_pow2_loop}
use native.Mathlib.Nat.{pow-suc, add-zero, add-suc, zero-add}
use native.Mathlib.Decide.{dec_lt}

step_up :
    (fuel a n : ℕ)
    → 2 ^ a < n
    → next_pow2_loop (suc fuel) (2 ^ a) n ≡ next_pow2_loop fuel (2 ^ suc a) n
unfolding next_pow2_loop
step_up fuel a n h =
    rw (lt→ltb (2 ^ a) n h, next_pow2_loop)
      (ap (λ t. next_pow2_loop fuel t n) (omega (arith, pow-suc 2 a)))

stop_here : (fuel p n : ℕ) → n ≤ p → next_pow2_loop fuel p n ≡ p
unfolding next_pow2_loop
stop_here zero p n h = refl
stop_here (suc fuel) p n h = rw (le→ltb p n h, next_pow2_loop)

pow_grows : (a : ℕ) → 2 ^ a + 1 ≤ 2 ^ suc a
pow_grows a = omega (arith, pow-suc 2 a, pow_pos a)

Least : ℕ → ℕ → Type 0
Least n p = (k : ℕ) × ((p ≡ 2 ^ k) × (n ≤ p) × ((p < 2 * n) ⊎ (p ≡ 1)))

next_pow2_loop-Least :
    (fuel a n : ℕ)
    → n ≤ fuel + 2 ^ a
    → ((2 ^ a < 2 * n) ⊎ (2 ^ a ≡ 1))
    → Least n (next_pow2_loop fuel (2 ^ a) n)
unfolding Least
next_pow2_loop-Least zero a n h low =
    rw (stop_here zero (2 ^ a) n (omega arith)) (a, (refl, omega arith, low))
next_pow2_loop-Least (suc fuel) a n h low = elim (dec_lt (2 ^ a) n) [
  | no done ↦ rw (stop_here (suc fuel) (2 ^ a) n (omega arith)) (a, (refl, omega arith, low))
  | yes more ↦ rw (step_up fuel a n more) (
      next_pow2_loop-Least fuel (suc a) n (omega (arith, pow_grows a))
        (inl (omega (arith, pow-suc 2 a))))
]

-- `_next_pow2(n)` is a power of two that is at least `n`, and it is 1 or less than twice `n`.
pub next_pow2-least :
    (n : ℕ)
    → (k : ℕ) × ((next_pow2 n ≡ 2 ^ k)
        × (n ≤ next_pow2 n)
        × ((next_pow2 n < 2 * n) ⊎ (next_pow2 n ≡ 1)))
unfolding next_pow2 Least
next_pow2-least n = next_pow2_loop-Least n 0 n (omega arith) (inr refl)

pow-add_suc : (a m : ℕ) → 2 ^ (a + suc m) ≡ 2 ^ (suc a + m)
pow-add_suc a m = ap (λ (t : ℕ). 2 ^ t) (omega arith)

pow-le_add : (a m : ℕ) → 2 ^ a ≤ 2 ^ (a + m)
pow-le_add a zero = omega (arith, ap (λ (t : ℕ). 2 ^ t) (add-zero a))
pow-le_add a (suc m) =
    omega (arith, pow-le_add a m, ap (λ (t : ℕ). 2 ^ t) (add-suc a m), pow-suc 2 (a + m))

below_pow : (a m : ℕ) → 2 ^ a < 2 ^ (a + suc m)
below_pow a m =
    omega (arith, pow-le_add a m, pow_pos a, ap (λ (t : ℕ). 2 ^ t) (add-suc a m), pow-suc 2 (a + m))

loop-pow :
    (m fuel a : ℕ)
    → 2 ^ (a + m) ≤ fuel + 2 ^ a
    → next_pow2_loop fuel (2 ^ a) (2 ^ (a + m)) ≡ 2 ^ (a + m)
loop-pow zero fuel a h =
    let same : 2 ^ (a + 0) ≡ 2 ^ a = ap (λ (t : ℕ). 2 ^ t) (add-zero a) in
    stop_here fuel (2 ^ a) (2 ^ (a + 0)) (omega (arith, same)) ∙ sym same
loop-pow (suc m) zero a h = omega (arith, below_pow a m)
loop-pow (suc m) (suc fuel) a h =
    step_up fuel a _ (below_pow a m)
    ∙ rw (pow-add_suc a m) (loop-pow m fuel (suc a) (omega (arith, pow_grows a, pow-add_suc a m)))

pub next_pow2-pow : (d : ℕ) → next_pow2 (2 ^ d) ≡ 2 ^ d
unfolding next_pow2
next_pow2-pow d =
    let same : 2 ^ (0 + d) ≡ 2 ^ d = ap (λ (t : ℕ). 2 ^ t) (zero-add d) in
    rw same at (loop-pow d (2 ^ d) 0 (omega (arith, same)))
