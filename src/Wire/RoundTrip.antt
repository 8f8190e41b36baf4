-- ===== src/Wire/RoundTrip.antt =====
-- A reader takes back what an encoder wrote, wherever it stands in a buffer.
use pure_mls.Prelude.{
  ◌+◌, ◌≡◌, sym, ap, ◌++◌, append-nil, append_assoc, arith, Bytes, [], length, length-append, true,
  Result, ok, ◌⊕◌, ⊕-eq-ok, Error, Bool, bind, bind-eq-ok, bind_assoc, ◌∙◌,
}
use pure_mls.Wire.Reader.{Reader, ◌>>=◌, ◌>>◌, pure, lift, require}
use native.Mathlib.Nat.{add_assoc, zero-add}

pub record RoundTrips {ℓ} {A : Type ℓ} (r : Reader A) (m : Result Bytes) (v : A) : Type ℓ where
  pub decodes :
      (e : Bytes)
      → m ≡ ok e
      → (pre rest : Bytes) → r (pre ++ (e ++ rest)) (length pre) ≡ ok (v, length pre + length e)

pub pure-RoundTrips {ℓ} : {A : Type ℓ} (v : A) → RoundTrips (pure v) (ok []) v
unfolding pure
pure-RoundTrips v = record { decodes = λ e h pre rest. ground (arith, nil e h) }
  where
    nil : (e : Bytes) → ok [] ≡ ok e → length e ≡ 0
    nil e h = cc

module _ {ℓ κ} {A : Type ℓ} {B : Type κ} where
  -- A field, and then the rest of the structure.
  pub bind-RoundTrips :
      {r : Reader A} {m n : Result Bytes} {v : A} {w : B} (k : A → Reader B)
      → RoundTrips r m v
      → RoundTrips (k v) n w
      → RoundTrips (r >>= k) (m ⊕ n) w
  unfolding ◌>>=◌
  bind-RoundTrips {r} {m} {n} {v} {w} k f g = record { decodes = both }
    where
      both :
          (e : Bytes)
          → (m ⊕ n) ≡ ok e
          → (pre rest : Bytes)
          → (r >>= k) (pre ++ (e ++ rest)) (length pre) ≡ ok (w, length pre + length e)
      both e h pre rest =
          let (a, b, ha, hb, he) = ⊕-eq-ok m n h in
          let first = f.decodes a ha pre (b ++ rest) in
          let second = g.decodes b hb (pre ++ a) rest in
          let here : (pre ++ a) ++ (b ++ rest) ≡ pre ++ (a ++ (b ++ rest)) =
            append_assoc pre a (b ++ rest) in
          let there : length (pre ++ a) ≡ length pre + length a = length-append pre a in
          rw (he, append_assoc a b rest, first, length-append a b, ← add_assoc)
            (rw (here, there) at second)

  -- The last field.
  pub map-RoundTrips :
      {r : Reader A} {m : Result Bytes} {v : A} (f : A → B)
      → RoundTrips r m v
      → RoundTrips (r >>= λ x. pure (f x)) m (f v)
  unfolding ◌>>=◌ pure
  map-RoundTrips f g = record { decodes = λ e h pre rest. rw (g.decodes e h pre rest) }

module _ {ℓ} {A : Type ℓ} where
  -- A check that passes.
  pub require-RoundTrips :
      {r : Reader A} {m : Result Bytes} {v : A} (test : Bool) (e : Error)
      → test ≡ true
      → RoundTrips r m v
      → RoundTrips (require test e >> r) m v
  unfolding require ◌>>◌
  require-RoundTrips test e h f = record {
    decodes = λ b hb pre rest. rw h (f.decodes b hb pre rest);
  }

  -- A computation that gives `x`.
  pub lift-RoundTrips {κ} :
      {B : Type κ} {x : A} {n : Result Bytes} {w : B} (m : Result A) (k : A → Reader B)
      → m ≡ ok x
      → RoundTrips (k x) n w
      → RoundTrips (lift m >>= k) n w
  unfolding lift ◌>>=◌
  lift-RoundTrips m k h f = record { decodes = λ b hb pre rest. rw h (f.decodes b hb pre rest) }

  -- Reading a byte string that holds the encoding and nothing else.
  pub read_whole-RoundTrips :
      {r : Reader A} {m : Result Bytes} {v : A} {e : Bytes}
      → RoundTrips r m v
      → m ≡ ok e
      → r e 0 ≡ ok (v, length e)
  read_whole-RoundTrips {e} f h = rw (append-nil e, zero-add) at (f.decodes e h [] [])

-- A structure inside a length-prefixed byte string: `wrap` writes the prefix, `r` reads it, and
-- `parse` reads what is inside.
module _ {ℓ} {A : Type ℓ} where
  pub nested-RoundTrips :
      {r : Reader Bytes} {wrap : Bytes → Result Bytes} {v : A} (inner : Result Bytes)
      (parse : Bytes → Result A)
      → ((d : Bytes) → RoundTrips r (wrap d) d)
      → ((d : Bytes) → inner ≡ ok d → parse d ≡ ok v)
      → RoundTrips (r >>= λ d. lift (parse d)) (bind inner wrap) v
  unfolding ◌>>=◌ lift
  nested-RoundTrips {wrap} inner parse f g = record {
    decodes = λ e h pre rest.
        let (d, hd, hw) = bind-eq-ok inner wrap h in rw ((f d).decodes e hw pre rest, g d hd);
  }

  pub nested_then-RoundTrips {κ} :
      {B : Type κ} {r : Reader Bytes} {wrap : Bytes → Result Bytes} {v : A} {n : Result Bytes}
      {w : B} (inner : Result Bytes) (parse : Bytes → Result A) (k : A → Reader B)
      → ((d : Bytes) → RoundTrips r (wrap d) d)
      → ((d : Bytes) → inner ≡ ok d → parse d ≡ ok v)
      → RoundTrips (k v) n w
      → RoundTrips (r >>= λ d. (lift (parse d) >>= k)) (bind inner wrap ⊕ n) w
  unfolding ◌>>=◌ lift
  nested_then-RoundTrips {r} {wrap} inner parse k f g c = record {
    decodes = λ e h pre rest.
        let (a, b, ha, hb, he) = ⊕-eq-ok (bind inner wrap) _ h in
        let (d, hd, hw) = bind-eq-ok inner wrap ha in
        let whole =
          (bind-RoundTrips (λ d. lift (parse d) >>= k) (f d)
              (lift-RoundTrips (parse d) k (g d hd) c)).decodes
            e in
        whole (rw (hw, hb) (ap ok (sym he))) pre rest;
  }

  -- As above, where the parse cannot fail and the structure ends with it.
  pub map_nested-RoundTrips :
      {r : Reader Bytes} {wrap : Bytes → Result Bytes} {v : A} (inner : Result Bytes)
      (parse : Bytes → A)
      → ((d : Bytes) → RoundTrips r (wrap d) d)
      → ((d : Bytes) → inner ≡ ok d → parse d ≡ v)
      → RoundTrips (r >>= λ d. pure (parse d)) (bind inner wrap) v
  unfolding ◌>>=◌ pure
  map_nested-RoundTrips {wrap} inner parse f g = record {
    decodes = λ e h pre rest.
        let (d, hd, hw) = bind-eq-ok inner wrap h in rw ((f d).decodes e hw pre rest, g d hd);
  }

-- A structure of two readers whose second depends on the first, followed by the rest.
pub assoc-RoundTrips {ℓ κ μ} :
    {A : Type ℓ} {B : Type κ} {C : Type μ} {m : Result Bytes} {w : C} (r : Reader A)
    (s : A → Reader B) (k : B → Reader C)
    → RoundTrips ((r >>= s) >>= k) m w
    → RoundTrips (r >>= λ x. (s x >>= k)) m w
unfolding ◌>>=◌
assoc-RoundTrips r s k f = record {
  decodes = λ e h pre rest.
      sym (
        bind_assoc (r (pre ++ (e ++ rest)) (length pre)) (λ p. s p.0 (pre ++ (e ++ rest)) p.1)
          (λ q. k q.0 (pre ++ (e ++ rest)) q.1))
      ∙ f.decodes e h pre rest;
}
