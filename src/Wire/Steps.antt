-- ===== src/Wire/Steps.antt =====
-- How far a reader moves, and why the loops of the decoders end.
use pure_mls.Prelude.{
  ℕ, zero, suc, ◌+◌, ◌-◌, ◌≤◌, ◌<◌, ◌≡◌, ◌≢◌, refl, ap, ◌∙◌, ◌++◌, append_assoc, arith, Bytes, List,
  [], ◌∷◌, length, length-append, All, lt→ltb, le→ltb, true, false, Bool, Result, ok, err, bind,
  ⊕-eq-ok, join, Error, out_of_fuel, bind-eq-ok,
}
use pure_mls.Wire.Reader.{Reader, ◌>>=◌, ◌>>◌, pure, lift, require, read_loop, read_all}
use pure_mls.Wire.RoundTrip.{RoundTrips}
use native.Mathlib.Decide.{dec_lt}

-- The reader consumes at least `k` bytes when it returns, and it never runs out of fuel.
pub record Steps {ℓ} {A : Type ℓ} (k : ℕ) (r : Reader A) : Type ℓ where
  pub moves : (buf : Bytes) (off : ℕ) (v : A) (off' : ℕ) → r buf off ≡ ok (v, off') → off + k ≤ off'
  pub ends : (buf : Bytes) (off : ℕ) → r buf off ≢ err out_of_fuel

pub pure-Steps {ℓ} : {A : Type ℓ} (v : A) → Steps 0 (pure v)
unfolding pure
pure-Steps v = record { moves = λ buf off w off' h. ground arith; ends = λ buf off h. cc }

pub lift-Steps {ℓ} : {A : Type ℓ} (m : Result A) → m ≢ err out_of_fuel → Steps 0 (lift m)
unfolding lift
lift-Steps (ok v) n = record { moves = λ buf off w off' h. ground arith; ends = λ buf off h. cc }
lift-Steps (err e) n = record {
  moves = λ buf off w off' h. cc;
  ends = λ buf off h. n (ground arith);
}

pub Steps-le {ℓ} : {A : Type ℓ} {r : Reader A} (j k : ℕ) → j ≤ k → Steps k r → Steps j r
Steps-le j k le s = record {
  moves = λ buf off v off' h. omega (arith, s.moves buf off v off' h);
  ends = s.ends;
}

pub bind-ends {ℓ κ} :
    {A : Type ℓ} {B : Type κ} (r : Result A) (f : A → Result B)
    → r ≢ err out_of_fuel
    → ((a : A) → r ≡ ok a → f a ≢ err out_of_fuel)
    → bind r f ≢ err out_of_fuel
bind-ends (ok a) f n m h = m a refl h
bind-ends (err e) f n m h = n (ground arith)

module _ {ℓ κ} {A : Type ℓ} {B : Type κ} where
  pub bind-Steps :
      {r : Reader A} (j k : ℕ) (c : A → Reader B)
      → Steps j r
      → ((v : A) → Steps k (c v))
      → Steps (j + k) (r >>= c)
  unfolding ◌>>=◌
  bind-Steps {r} j k c s t = record {
    moves = λ buf off v off' h.
        let (p, first, second) = bind-eq-ok (r buf off) (λ p. c p.0 buf p.1) h in
        omega (arith, s.moves buf off p.0 p.1 first, (t p.0).moves buf p.1 v off' second);
    ends = λ buf off h.
        bind-ends (r buf off) (λ p. c p.0 buf p.1) (s.ends buf off) (λ p e. (t p.0).ends buf p.1) h;
  }

pub require-Steps {ℓ} :
    {A : Type ℓ} {r : Reader A} (k : ℕ) (test : Bool) (e : Error)
    → e ≢ out_of_fuel
    → Steps k r
    → Steps k (require test e >> r)
unfolding require ◌>>◌
require-Steps k true e n s = record {
  moves = λ buf off v off' h. s.moves buf off v off' h;
  ends = λ buf off h. s.ends buf off h;
}
require-Steps k false e n s = record {
  moves = λ buf off v off' h. cc;
  ends = λ buf off h. n (ground arith);
}

module _ {ℓ} {A : Type ℓ} (r : Reader A) where
  pub read_loop_done :
      (fuel : ℕ) (raw : Bytes) (off : ℕ) → length raw ≤ off → read_loop r fuel raw off ≡ ok []
  unfolding read_loop
  read_loop_done zero raw off h = rw (le→ltb off (length raw) h, read_loop)
  read_loop_done (suc fuel) raw off h = rw (le→ltb off (length raw) h, read_loop)

  pub read_loop_more :
      (fuel : ℕ) (raw : Bytes) (off : ℕ)
      → off < length raw
      → read_loop r (suc fuel) raw off
        ≡ bind (r raw off) (λ p. bind (read_loop r fuel raw p.1) (λ vs. ok (p.0 ∷ vs)))
  unfolding read_loop
  read_loop_more fuel raw off h = rw (lt→ltb off (length raw) h, read_loop)

module _ {ℓ} {A : Type ℓ} {r : Reader A} (s : Steps 1 r) where
  -- The loop ends: each round takes a byte.
  pub read_loop-ends :
      (fuel : ℕ) (raw : Bytes) (off : ℕ)
      → length raw ≤ fuel + off
      → read_loop r fuel raw off ≢ err out_of_fuel
  read_loop-ends zero raw off h = rw (read_loop_done r zero raw off (omega arith)) (λ e. cc)
  read_loop-ends (suc fuel) raw off h = elim (dec_lt off (length raw)) [
    | no done ↦ rw (read_loop_done r (suc fuel) raw off (omega arith)) (λ e. cc)
    | yes more ↦ rw (read_loop_more r fuel raw off more) (
        bind-ends (r raw off) _ (s.ends raw off) (λ p e.
          bind-ends (read_loop r fuel raw p.1) _
            (read_loop-ends fuel raw p.1 (omega (arith, s.moves raw off p.0 p.1 e)))
            (λ vs e' e''. cc)))
  ]

  pub read_all-ends : (raw : Bytes) → read_all r raw ≢ err out_of_fuel
  unfolding read_all
  read_all-ends raw = read_loop-ends (length raw) raw 0 (omega arith)

  read_loop-cons :
      (fuel : ℕ) (x : A) (xs : List A) (pre a b : Bytes)
      → r (pre ++ (a ++ b)) (length pre) ≡ ok (x, length pre + length a)
      → read_loop r fuel ((pre ++ a) ++ b) (length (pre ++ a)) ≡ ok xs
      → read_loop r (suc fuel) (pre ++ (a ++ b)) (length pre) ≡ ok (x ∷ xs)
  read_loop-cons fuel x xs pre a b first rest =
      let long = s.moves (pre ++ (a ++ b)) (length pre) x (length pre + length a) first in
      let rest' : read_loop r fuel (pre ++ (a ++ b)) (length pre + length a) ≡ ok xs =
        rw (append_assoc pre a b, length-append pre a) at rest in
      rw
        (
          read_loop_more r fuel (pre ++ (a ++ b)) (length pre)
              (omega (arith, length-append pre (a ++ b), length-append a b)),
          first,
        )
        (rw rest')

  -- The loop takes back a list of items that were written one behind the other.
  pub read_loop-join :
      (f : A → Result Bytes) (xs : List A) (fuel : ℕ) (pre body : Bytes)
      → All (λ x. RoundTrips r (f x) x) xs
      → join f xs ≡ ok body
      → length body ≤ fuel
      → read_loop r fuel (pre ++ body) (length pre) ≡ ok xs
  unfolding join
  read_loop-join f [] fuel pre body rt h le =
      read_loop_done r fuel (pre ++ body) (length pre)
        (omega (arith, length-append pre body, empty))
    where
      empty : length body ≡ 0
      empty = ground arith
  read_loop-join f (x ∷ xs) fuel pre body (t, rt) h le =
      let (a, b, ha, hb, he) = ⊕-eq-ok (f x) (join f xs) h in
      let first = t.decodes a ha pre b in
      let long = s.moves (pre ++ (a ++ b)) (length pre) x (length pre + length a) first in
      let size : length body ≡ length a + length b = ap length he ∙ length-append a b in
      let enough : fuel ≡ suc (fuel - 1) = omega arith in
      rw (he, enough)
        (read_loop-cons (fuel - 1) x xs pre a b first
          (read_loop-join f xs (fuel - 1) (pre ++ a) b rt hb (omega arith)))

  pub read_all-join :
      (f : A → Result Bytes) (xs : List A) (body : Bytes)
      → All (λ x. RoundTrips r (f x) x) xs
      → join f xs ≡ ok body
      → read_all r body ≡ ok xs
  unfolding read_all
  read_all-join f xs body rt h = read_loop-join f xs (length body) [] body rt h (omega arith)
