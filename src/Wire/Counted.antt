-- ===== src/Wire/Counted.antt =====
-- Items in a counted vector, and items up to an end inside a longer buffer, are read as they were written.
use pure_mls.Prelude.{
  ℕ, zero, suc, ◌+◌, ◌-◌, ◌≤◌, ◌<◌, ◌≡◌, ◌≢◌, ap, ◌∙◌, ◌++◌, append_assoc, arith, Bytes, List, [],
  ◌∷◌, length, length-append, map, lt→ltb, le→ltb, Result, ok, err, bind, ⊕-eq-ok, join,
  out_of_fuel,
}
use pure_mls.Wire.Reader.{Reader, read_count, read_to}
use pure_mls.Wire.RoundTrip.{RoundTrips, bind-RoundTrips, map-RoundTrips, pure-RoundTrips}
use pure_mls.Wire.Steps.{Steps, bind-ends}
use native.Mathlib.Decide.{dec_lt}

module _ {ℓ} {A : Type ℓ} (r : Reader A) where
  read_to_done :
      (fuel stop : ℕ) (buf : Bytes) (off : ℕ)
      → stop ≤ off
      → read_to r fuel stop buf off ≡ ok ([], off)
  unfolding read_to
  read_to_done zero stop buf off h = rw (le→ltb off stop h, read_to)
  read_to_done (suc fuel) stop buf off h = rw (le→ltb off stop h, read_to)

  read_to_more :
      (fuel stop : ℕ) (buf : Bytes) (off : ℕ)
      → off < stop
      → read_to r (suc fuel) stop buf off
        ≡ bind (r buf off) (λ p. bind (read_to r fuel stop buf p.1) (λ q. ok (p.0 ∷ q.0, q.1)))
  unfolding read_to
  read_to_more fuel stop buf off h = rw (lt→ltb off stop h, read_to)

  read_to-cons :
      (fuel stop after : ℕ) (x : A) (xs : List A) (pre a b : Bytes)
      → length pre < stop
      → r (pre ++ (a ++ b)) (length pre) ≡ ok (x, length pre + length a)
      → read_to r fuel stop ((pre ++ a) ++ b) (length (pre ++ a)) ≡ ok (xs, after)
      → read_to r (suc fuel) stop (pre ++ (a ++ b)) (length pre) ≡ ok (x ∷ xs, after)
  read_to-cons fuel stop after x xs pre a b more first rest =
      let rest' : read_to r fuel stop (pre ++ (a ++ b)) (length pre + length a) ≡ ok (xs, after) =
        rw (append_assoc pre a b, length-append pre a) at rest in
      rw (read_to_more fuel stop (pre ++ (a ++ b)) (length pre) more, first) (rw rest')

  -- The loop ends: each round takes a byte.
  pub read_to-ends :
      (s : Steps 1 r) (fuel stop : ℕ) (buf : Bytes) (off : ℕ)
      → stop ≤ fuel + off
      → read_to r fuel stop buf off ≢ err out_of_fuel
  read_to-ends s zero stop buf off h = rw (read_to_done zero stop buf off (omega arith)) (λ e. cc)
  read_to-ends s (suc fuel) stop buf off h = elim (dec_lt off stop) [
    | no done ↦ rw (read_to_done (suc fuel) stop buf off (omega arith)) (λ e. cc)
    | yes more ↦ rw (read_to_more fuel stop buf off more) (
        bind-ends (r buf off) _ (s.ends buf off) (λ p e.
          bind-ends (read_to r fuel stop buf p.1) _
            (read_to-ends s fuel stop buf p.1 (omega (arith, s.moves buf off p.0 p.1 e)))
            (λ vs e' e''. cc)))
  ]

module _ {ℓ} {A : Type ℓ} (r : Reader A) (f : A → Result Bytes) (g : A → A)
    (each : (x : A) → RoundTrips r (f x) (g x)) where
  -- A vector behind its count; `g` is what the wire makes of an item.
  pub read_count-RoundTrips :
      (xs : List A) → RoundTrips (read_count r (length xs)) (join f xs) (map g xs)
  unfolding read_count join
  read_count-RoundTrips [] = pure-RoundTrips []
  read_count-RoundTrips (x ∷ xs) =
      bind-RoundTrips _ (each x) (map-RoundTrips (λ vs. g x ∷ vs) (read_count-RoundTrips xs))

  pub read_to-join :
      (s : Steps 1 r) (xs : List A) (fuel : ℕ) (body pre rest : Bytes)
      → join f xs ≡ ok body
      → length body ≤ fuel
      → read_to r fuel (length pre + length body) (pre ++ (body ++ rest)) (length pre)
        ≡ ok (map g xs, length pre + length body)
  unfolding join
  read_to-join s [] fuel body pre rest h le =
      let empty : length body ≡ 0 = ground arith in
      let here : length pre ≡ length pre + length body = omega (arith, empty) in
      read_to_done r fuel _ _ (length pre) (omega (arith, empty)) ∙ ap (λ n. ok ([], n)) here
  read_to-join s (x ∷ xs) fuel body pre rest h le =
      let (a, b, ha, hb, he) = ⊕-eq-ok (f x) (join f xs) h in
      let first = (each x).decodes a ha pre (b ++ rest) in
      let long =
        s.moves (pre ++ (a ++ (b ++ rest))) (length pre) (g x) (length pre + length a) first in
      let size : length body ≡ length a + length b = ap length he ∙ length-append a b in
      let enough : fuel ≡ suc (fuel - 1) = omega arith in
      let stop : length (pre ++ a) + length b ≡ length pre + length body =
        omega (arith, size, length-append pre a) in
      let more = read_to-join s xs (fuel - 1) b (pre ++ a) rest hb (omega arith) in
      let more' : read_to r (fuel - 1) (length pre + length body) ((pre ++ a) ++ (b ++ rest))
            (length (pre ++ a))
          ≡ ok (map g xs, length pre + length body) =
        rw stop at more in
      rw (ap (λ t. t ++ rest) he ∙ append_assoc a b rest, enough)
        (read_to-cons r (fuel - 1) (length pre + length body) (length pre + length body) (g x)
          (map g xs) pre a (b ++ rest) (omega (arith, long, size)) first more')
