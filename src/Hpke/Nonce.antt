-- ===== src/Hpke/Nonce.antt =====
-- `_xor_nonce` of src/pure_mls/hpke.py as a function of the sequence number.
use pure_mls.Prelude.{
  ℕ, zero, suc, ◌+◌, ◌*◌, ◌/◌, ◌%◌, ◌<◌, ◌≤◌, ◌≡◌, refl, ap, sym, ◌∙◌, arith, Bytes, [], ◌∷◌,
  length, bit_xor, ok, ok-injective, bind-eq-ok,
}
use pure_mls.Prelude.Bits.{bit_xor_step, zero-bit_xor}
use pure_mls.Tls.Ints.{int_to_bytes, to_be, from_be}
use pure_mls.Tls.Ints.Digits.{int_to_bytes-eq-ok, length-to_be, from_be-to_be}
use pure_mls.Hpke.{xor_bytes, xor_nonce}
use Prim.Native.Nat.{differ}

differ-lt : (a b : ℕ) → a < 2 → b < 2 → differ a b < 2
differ-lt zero b ha hb = hb
differ-lt (suc a) zero ha hb = ha
differ-lt (suc a) (suc b) ha hb = differ-lt a b (omega arith) (omega arith)

differ-injective : (a b c : ℕ) → a < 2 → b < 2 → c < 2 → differ a b ≡ differ a c → b ≡ c
differ-injective zero b c ha hb hc h = h
differ-injective (suc zero) zero zero ha hb hc h = refl
differ-injective (suc zero) zero (suc zero) ha hb hc h = absurd (omega (arith, h))
differ-injective (suc zero) (suc zero) zero ha hb hc h = absurd (omega (arith, h))
differ-injective (suc zero) (suc zero) (suc zero) ha hb hc h = refl
differ-injective (suc (suc a)) b c ha hb hc h = absurd (omega (arith, ha))
differ-injective a (suc (suc b)) c ha hb hc h = absurd (omega (arith, hb))
differ-injective a b (suc (suc c)) ha hb hc h = absurd (omega (arith, hc))

bit_xor-injective_count : (n a b c : ℕ) → a ≤ n → bit_xor a b ≡ bit_xor a c → b ≡ c
bit_xor-injective_count n zero b c le h = sym (zero-bit_xor b) ∙ h ∙ zero-bit_xor c
bit_xor-injective_count zero (suc a) b c le h = absurd (omega arith)
bit_xor-injective_count (suc n) (suc a) b c le h =
    let x = suc a in
    let stepped : bit_xor (x / 2) (b / 2) * 2 + differ (x % 2) (b % 2)
        ≡ bit_xor (x / 2) (c / 2) * 2 + differ (x % 2) (c % 2) =
      sym (bit_xor_step x b) ∙ h ∙ bit_xor_step x c in
    let lb = differ-lt (x % 2) (b % 2) (omega arith) (omega arith) in
    let lc = differ-lt (x % 2) (c % 2) (omega arith) (omega arith) in
    let high =
      bit_xor-injective_count n (x / 2) (b / 2) (c / 2) (omega arith)
        (omega (arith, stepped, lb, lc)) in
    let low =
      differ-injective (x % 2) (b % 2) (c % 2) (omega arith) (omega arith) (omega arith)
        (omega (arith, stepped, lb, lc)) in
    omega (arith, high, low)

bit_xor-injective : (a b c : ℕ) → bit_xor a b ≡ bit_xor a c → b ≡ c
bit_xor-injective a b c h = bit_xor-injective_count a a b c (omega arith) h

head-eq : {x y : ℕ} {xs ys : Bytes} → x ∷ xs ≡ y ∷ ys → x ≡ y
head-eq h = cc

tail-eq : {x y : ℕ} {xs ys : Bytes} → x ∷ xs ≡ y ∷ ys → xs ≡ ys
tail-eq h = cc

xor_bytes-injective :
    (base s t : Bytes)
    → length s ≡ length base
    → length t ≡ length base
    → xor_bytes base s ≡ xor_bytes base t
    → s ≡ t
unfolding xor_bytes
xor_bytes-injective [] [] [] hs ht h = refl
xor_bytes-injective [] (x ∷ s) t hs ht h = absurd (omega (arith, hs))
xor_bytes-injective [] [] (y ∷ t) hs ht h = absurd (omega (arith, ht))
xor_bytes-injective (b ∷ base) [] t hs ht h = absurd (omega (arith, hs))
xor_bytes-injective (b ∷ base) (x ∷ s) [] hs ht h = absurd (omega (arith, ht))
xor_bytes-injective (b ∷ base) (x ∷ s) (y ∷ t) hs ht h =
    let first = bit_xor-injective b x y (head-eq h) in
    let more = xor_bytes-injective base s t (omega (arith, hs)) (omega (arith, ht)) (tail-eq h) in
    cc

-- With a base nonce of 12 bytes, no two sequence numbers give the same nonce: where two of them give
-- one nonce, they are equal.
pub xor_nonce-injective :
    (base nonce : Bytes) (m n : ℕ)
    → length base ≡ 12
    → xor_nonce base m ≡ ok nonce
    → xor_nonce base n ≡ ok nonce
    → m ≡ n
unfolding xor_nonce
xor_nonce-injective base nonce m n size hm hn =
    let (s, hs, es) = bind-eq-ok (int_to_bytes 12 m) _ hm in
    let (t, ht, et) = bind-eq-ok (int_to_bytes 12 n) _ hn in
    let (small_m, ds) = int_to_bytes-eq-ok 12 m s hs in
    let (small_n, dt) = int_to_bytes-eq-ok 12 n t ht in
    let same =
      xor_bytes-injective base (to_be 12 m) (to_be 12 n) (length-to_be 12 m ∙ sym size)
        (length-to_be 12 n ∙ sym size)
        (ap (xor_bytes base) ds ∙ ok-injective (es ∙ sym et) ∙ ap (xor_bytes base) (sym dt)) in
    sym (from_be-to_be 12 m small_m) ∙ ap from_be same ∙ from_be-to_be 12 n small_n
