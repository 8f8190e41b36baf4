-- ===== src/Hkdf/Expand.antt =====
-- The length of what src/pure_mls/hkdf.py derives, and the lengths that can be asked for.
use pure_mls.Prelude.{
  ℕ, zero, suc, ◌+◌, ◌-◌, ◌*◌, ◌/◌, ◌≤◌, ◌≡◌, refl, arith, Bytes, [], ◌∷◌, ◌++◌, length,
  length-append, length-take, take, ok, lt→ltb,
}
use pure_mls.Primitives.{Primitives}
use pure_mls.Hkdf.{expand_rounds, hkdf_expand}

-- The output of HMAC-SHA-256 has 32 bytes.
pub record HasDigestSize (p : Primitives) : Type 0 where
  pub digest : (key message : Bytes) → length (p.hmac_sha256 key message) ≡ 32

expand_rounds-length :
    (p : Primitives)
    → HasDigestSize p
    → (prk info : Bytes) (rounds i : ℕ) (t : Bytes) → rounds + i ≤ 256
    → (okm : Bytes) × ((expand_rounds p prk info rounds i t ≡ ok okm) × (length okm ≡ 32 * rounds))
unfolding expand_rounds
expand_rounds-length p s prk info zero i t h = ([], (refl, refl))
expand_rounds-length p s prk info (suc rounds) i t h =
    let t' = p.hmac_sha256 prk (t ++ info ++ (i ∷ [])) in
    let (okm, (he, hl)) = expand_rounds-length p s prk info rounds (i + 1) t' (omega arith) in
    (
      t' ++ okm,
      (
        rw (lt→ltb i 256 (omega arith), he),
        omega (arith, length-append t' okm, hl, s.digest prk (t ++ info ++ (i ∷ []))),
      ),
    )

-- If HMAC gives 32 bytes, `hkdf_expand` returns, and gives exactly the bytes asked for, up to 255
-- digests of them.
pub hkdf_expand-length :
    (p : Primitives) (prk info : Bytes) (size : ℕ)
    → HasDigestSize p
    → size ≤ 255 * 32
    → (okm : Bytes) × ((hkdf_expand p prk info size ≡ ok okm) × (length okm ≡ size))
unfolding hkdf_expand
hkdf_expand-length p prk info size s h =
    let rounds = (size + 32 - 1) / 32 in
    let (okm, (he, hl)) = expand_rounds-length p s prk info rounds 1 [] (omega arith) in
    (take size okm, (rw he, omega (arith, length-take size okm, hl)))
