-- ===== src/Wire/Until.antt =====
-- A loop that a `break` can leave: it is the loop without one where the break is not taken, and it ends.
use pure_mls.Prelude.{
  ℕ, zero, suc, ◌+◌, ◌≤◌, ◌<◌, ◌≡◌, ◌≢◌, sym, ◌∙◌, arith, Bytes, List, [], ◌∷◌, length, All, lt→ltb,
  le→ltb, Result, ok, err, bind, join, out_of_fuel, bind-eq-ok, Option, none, some, value_error,
  err-ne-ok,
}
use pure_mls.Wire.Reader.{Reader, ◌>>=◌, pure, lift, read_loop, read_until}
use pure_mls.Wire.RoundTrip.{RoundTrips}
use pure_mls.Wire.Steps.{
  Steps, pure-Steps, lift-Steps, bind-Steps, bind-ends, read_loop_done, read_loop_more,
  read_loop-join,
}
use native.Mathlib.Decide.{dec_lt}

-- A loop with a `break` that is never taken is the loop without one.
module _ {ℓ} {A : Type ℓ} (r : Reader (Option A)) where
  abbrev strict : Option A → Reader A
  strict none = lift (err value_error)
  strict (some v) = pure v

  pub without_break : Reader A
  without_break = r >>= strict

  until_round :
      (fuel : ℕ) (raw : Bytes) (off : ℕ) (m : Result (Option A × ℕ)) {xs : List A}
      → ((off' : ℕ) (ys : List A)
          → read_loop without_break fuel raw off' ≡ ok ys
          → read_until r fuel raw off' ≡ ok ys)
      → bind
          (bind m (λ p. strict p.0 raw p.1))
          (λ p. bind (read_loop without_break fuel raw p.1) (λ vs. ok (p.0 ∷ vs)))
        ≡ ok xs
      → bind m (λ p. elim p.0 [
        | none ↦ ok []
        | some v ↦ bind (read_until r fuel raw p.1) (λ vs. ok (v ∷ vs))
      ])
        ≡ ok xs
  unfolding pure lift
  until_round fuel raw off (err e) ih h = h
  until_round fuel raw off (ok (none, off')) ih h = cc
  until_round fuel raw off (ok (some v, off')) ih h =
      let (vs, hv, he) = bind-eq-ok (read_loop without_break fuel raw off') _ h in
      rw (ih off' vs hv) he

  one_round :
      (fuel : ℕ) (raw : Bytes) (off : ℕ) {xs : List A}
      → off < length raw
      → read_loop without_break (suc fuel) raw off ≡ ok xs
      → bind
          (bind (r raw off) (λ p. strict p.0 raw p.1))
          (λ p. bind (read_loop without_break fuel raw p.1) (λ vs. ok (p.0 ∷ vs)))
        ≡ ok xs
  unfolding ◌>>=◌ without_break
  one_round fuel raw off more h = sym (read_loop_more without_break fuel raw off more) ∙ h

  read_until_done :
      (fuel : ℕ) (raw : Bytes) (off : ℕ) → length raw ≤ off → read_until r fuel raw off ≡ ok []
  unfolding read_until
  read_until_done zero raw off h = rw (le→ltb off (length raw) h, read_until)
  read_until_done (suc fuel) raw off h = rw (le→ltb off (length raw) h, read_until)

  no_fuel :
      (raw : Bytes) (off : ℕ)
      → off < length raw
      → read_loop without_break zero raw off ≡ err out_of_fuel
  unfolding read_loop
  no_fuel raw off h = rw (lt→ltb _ _ h, read_loop)

  until_step :
      (fuel : ℕ) (raw : Bytes) (off : ℕ) {xs : List A}
      → off < length raw
      → ((off' : ℕ) (ys : List A)
          → read_loop without_break fuel raw off' ≡ ok ys
          → read_until r fuel raw off' ≡ ok ys)
      → read_loop without_break (suc fuel) raw off ≡ ok xs
      → read_until r (suc fuel) raw off ≡ ok xs
  unfolding read_until
  until_step fuel raw off more ih h =
      rw (lt→ltb _ _ more, read_until)
        (until_round fuel raw off (r raw off) ih (one_round fuel raw off more h))

  pub read_until-read_loop :
      (fuel : ℕ) (raw : Bytes) (off : ℕ) (xs : List A)
      → read_loop without_break fuel raw off ≡ ok xs
      → read_until r fuel raw off ≡ ok xs
  read_until-read_loop zero raw off xs h = elim (dec_lt off (length raw)) [
    | no done ↦
        read_until_done zero raw off (omega arith)
        ∙ sym (read_loop_done without_break zero raw off (omega arith))
        ∙ h
    | yes more ↦ absurd (err-ne-ok (sym (no_fuel raw off more) ∙ h))
  ]
  read_until-read_loop (suc fuel) raw off xs h = elim (dec_lt off (length raw)) [
    | no done ↦
        read_until_done (suc fuel) raw off (omega arith)
        ∙ sym (read_loop_done without_break (suc fuel) raw off (omega arith))
        ∙ h
    | yes more ↦ until_step fuel raw off more (read_until-read_loop fuel raw) h
  ]

  pub without_break-RoundTrips :
      {m : Result Bytes} {v : A} → RoundTrips r m (some v) → RoundTrips without_break m v
  unfolding without_break ◌>>=◌ pure
  without_break-RoundTrips f = record { decodes = λ e h pre rest. rw (f.decodes e h pre rest) }

  without_break-Steps : Steps 1 r → Steps 1 without_break
  unfolding without_break
  without_break-Steps s = bind-Steps 1 0 strict s each
    where
      each : (o : Option A) → Steps 0 (strict o)
      each none = lift-Steps (err value_error) (λ h. cc)
      each (some v) = pure-Steps v

  -- Items that were written one behind the other are read back, with no break.
  pub read_until-join :
      (f : A → Result Bytes) (xs : List A) (body : Bytes)
      → Steps 1 r
      → All (λ x. RoundTrips without_break (f x) x) xs
      → join f xs ≡ ok body
      → read_until r (length body) body 0 ≡ ok xs
  read_until-join f xs body s rt h =
      read_until-read_loop (length body) body 0 xs
        (read_loop-join (without_break-Steps s) f xs (length body) [] body rt h (omega arith))

  read_until_more :
      (fuel : ℕ) (raw : Bytes) (off : ℕ)
      → off < length raw
      → read_until r (suc fuel) raw off
        ≡ bind (r raw off) (λ p. elim p.0 [
          | none ↦ ok []
          | some v ↦ bind (read_until r fuel raw p.1) (λ vs. ok (v ∷ vs))
        ])
  unfolding read_until
  read_until_more fuel raw off h = rw (lt→ltb off (length raw) h, read_until)

  round-ends :
      (o : Option A) (rest : Result (List A))
      → rest ≢ err out_of_fuel
      → elim o [ none ↦ ok [] | some v ↦ bind rest (λ vs. ok (v ∷ vs)) ] ≢ err out_of_fuel
  round-ends none rest n h = cc
  round-ends (some v) rest n h = bind-ends rest (λ vs. ok (v ∷ vs)) n (λ vs e e'. cc) h

  pub read_until-ends :
      (fuel : ℕ) (raw : Bytes) (off : ℕ)
      → Steps 1 r
      → length raw ≤ fuel + off
      → read_until r fuel raw off ≢ err out_of_fuel
  read_until-ends zero raw off s h = rw (read_until_done zero raw off (omega arith)) (λ e. cc)
  read_until-ends (suc fuel) raw off s h = elim (dec_lt off (length raw)) [
    | no done ↦ rw (read_until_done (suc fuel) raw off (omega arith)) (λ e. cc)
    | yes more ↦ rw (read_until_more fuel raw off more) (
        bind-ends (r raw off) _ (s.ends raw off) (λ p e.
          round-ends p.0 (read_until r fuel raw p.1)
            (read_until-ends fuel raw p.1 s (omega (arith, s.moves raw off p.0 p.1 e)))))
  ]
