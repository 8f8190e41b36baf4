-- ===== src/Group/Welcome/RoundTrip.antt =====
-- The wire form of `Welcome` of src/pure_mls/group.py in the three dialects.
use pure_mls.Prelude.{
  ℕ, ◌+◌, ◌≡◌, ◌<◌, refl, sym, ap, ◌∙◌, arith, false, Bool-cases, inl, inr, Bytes, List, [], ◌∷◌,
  ◌++◌, append-nil, append_assoc, length, length-append, some, Option, ok, Result, bind, bind-eq-ok,
  ◌⊕◌, ⊕-eq-ok, ⊕_nil, join, ok-injective, err-ne-ok, subst, ◌==◌,
}
use pure_mls.Wire.Reader.{Reader, ◌>>=◌, lift, pure, read_all}
use pure_mls.Wire.RoundTrip.{RoundTrips, bind-RoundTrips, pure-RoundTrips, lift-RoundTrips}
use pure_mls.Wire.Steps.{read_all-join}
use pure_mls.Prelude.{All}
use pure_mls.Tls.Ints.{tls_u16, pack, to_be}
use pure_mls.Tls.Ints.RoundTrip.{tls_u16-RoundTrips}
use pure_mls.Tls.Opaque.{tls_varint, varint_decode, varint_form}
use pure_mls.Tls.Opaque.Varint.{tls_varint-RoundTrips}
use pure_mls.Codecs.{SerializerStrategy, Registry, get_dialect, standard, joined, with_length}
use pure_mls.Codecs.RoundTrip.{Built, is_standard, is_cisco, is_mlspp, decode_vector-RoundTrips}
use pure_mls.Group.Secrets.{EncryptedGroupSecrets, encrypted_bytes, read_encrypted}
use pure_mls.Group.Secrets.RoundTrip.{encrypted_bytes-RoundTrips, read_encrypted-Steps}
use pure_mls.Group.Welcome.{
  Welcome, suite, dialect_or_standard, written, to_bytes, body_offset, first_item, read_body,
  from_bytes,
}

-- What the wire makes of a welcome: the suite is the constant, and the dialect is named.
abbrev pub on_the_wire : Welcome → Bytes → Welcome
on_the_wire w name = record w { cipher_suite = suite; dialect = some name }

each_secret :
    (ss : List EncryptedGroupSecrets)
    → All (λ s. RoundTrips read_encrypted (encrypted_bytes s) s) ss
each_secret [] = tt
each_secret (s ∷ ss) = (encrypted_bytes-RoundTrips s, each_secret ss)

joined_one : (b : Bytes) → joined (b ∷ []) ≡ b
joined_one b = append-nil b

-- A vector of one item, and what is read of it.
vector_then {ℓ} :
    {B : Type ℓ} {n : Result Bytes} {w : B} (s : SerializerStrategy) (b : Bytes)
    (k : Bytes → Reader B)
    → Built s
    → RoundTrips (k b) n w
    → RoundTrips
        (s.decode_vector >>= λ items. (lift (first_item items) >>= k))
        (s.encode_vector (b ∷ []) ⊕ n)
        w
vector_then s b k built f =
    bind-RoundTrips _ (decode_vector-RoundTrips s (b ∷ []) built)
      (lift-RoundTrips (first_item (joined (b ∷ []) ∷ [])) k (ap ok (joined_one b)) f)

vector_last {ℓ} :
    {B : Type ℓ} (s : SerializerStrategy) (b : Bytes) (f : Bytes → B)
    → Built s
    → RoundTrips
        (s.decode_vector >>= λ items. (lift (first_item items) >>= λ v. pure (f v)))
        (s.encode_vector (b ∷ []))
        (f b)
vector_last s b f built =
    subst
      (λ m.
        RoundTrips (s.decode_vector >>= λ items. (lift (first_item items) >>= λ v. pure (f v))) m
          (f b))
      (⊕_nil (s.encode_vector (b ∷ [])))
      (vector_then s b (λ v. pure (f v)) built (pure-RoundTrips (f b)))

body-RoundTrips :
    (s : SerializerStrategy) (w : Welcome) (name egs : Bytes)
    → Built s
    → join encrypted_bytes w.encrypted_group_secrets ≡ ok egs
    → RoundTrips
        (read_body s name)
        (tls_u16 suite ⊕ s.encode_vector (egs ∷ []) ⊕ s.encode_vector (w.encrypted_group_info ∷ []))
        (on_the_wire w name)
unfolding read_body
body-RoundTrips s w name egs built h = bind-RoundTrips _ (tls_u16-RoundTrips suite) (
    vector_then s egs _ built (
      lift-RoundTrips (read_all read_encrypted egs) _
        (read_all-join read_encrypted-Steps encrypted_bytes w.encrypted_group_secrets egs
          (each_secret w.encrypted_group_secrets) h)
        (vector_last s w.encrypted_group_info _ built)))

-- A length that is not zero does not start with a zero byte.
varint_first :
    (n : ℕ) (v : Bytes)
    → 0 < n
    → tls_varint n ≡ ok v
    → (x : ℕ) × ((more : Bytes) × ((v ≡ x ∷ more) × ((x == 0) ≡ false)))
unfolding varint_decode varint_form
varint_first n [] pos h = absurd (err-ne-ok ((tls_varint-RoundTrips n).decodes [] h [] []))
varint_first n (x ∷ more) pos h = elim (Bool-cases (x == 0)) [
  | inr other ↦ (x, (more, (refl, other)))
  | inl null ↦
      let first : x ≡ 0 = ground (arith, null) in
      let back : varint_decode ((x ∷ more) ++ []) 0 ≡ ok (n, 0 + length (x ∷ more)) =
        (tls_varint-RoundTrips n).decodes (x ∷ more) h [] [] in
      let same : ok (0, 1) ≡ ok (n, 0 + length (x ∷ more)) = rw first at back in
      let none_left : 0 ≡ n = ap (λ t. t.0) (ok-injective same) in
      absurd (omega (arith, none_left, pos))
]

-- The offset behind the header, for a welcome with a secret at least.
body_offset-written :
    (s : SerializerStrategy) (secret : EncryptedGroupSecrets) (secrets : List EncryptedGroupSecrets)
    (egs body rest : Bytes) (last : Result Bytes)
    → Built s
    → join encrypted_bytes (secret ∷ secrets) ≡ ok egs
    → (tls_u16 suite ⊕ s.encode_vector (egs ∷ []) ⊕ last) ≡ ok body
    → body_offset s (s.header ++ (body ++ rest)) ≡ length s.header
unfolding body_offset tls_u16 pack to_be join with_length
body_offset-written s secret secrets egs body rest last is_cisco h hb = refl
body_offset-written s secret secrets egs body rest last is_mlspp h hb = refl
body_offset-written s secret secrets egs body rest last is_standard h hb =
    let (a, b, ha, hrest, he) = ⊕-eq-ok (tls_u16 suite) _ hb in
    let two : 0 ∷ 1 ∷ [] ≡ a = ok-injective ha in
    let (b1, b2, h1, h2, hb12) = ⊕-eq-ok (standard.encode_vector (egs ∷ [])) last hrest in
    let (v, w, hv, hw, hvw) = ⊕-eq-ok (tls_varint (length (egs ++ []))) (ok (egs ++ [])) h1 in
    let (x1, x2, hx1, hx2, hx) =
      ⊕-eq-ok (encrypted_bytes secret) (join encrypted_bytes secrets) h in
    let long =
      read_encrypted-Steps.moves _ 0 secret (0 + length x1)
        ((encrypted_bytes-RoundTrips secret).decodes x1 hx1 [] []) in
    let size : length (egs ++ []) ≡ length x1 + length x2 =
      ap length (append-nil egs ∙ hx) ∙ length-append x1 x2 in
    let (x, (more, (hx', nonzero))) =
      varint_first (length (egs ++ [])) v (omega (arith, long, size)) hv in
    rw (he, ← two, hb12, hvw, hx', nonzero)

-- In each of the three dialects, if the registry gives the dialect under the welcome's name for it, a welcome with one
-- encrypted secret at least is read as it was written, whatever stands behind it: with the cipher suite that is
-- always written, and the name of the dialect.
pub from_bytes-to_bytes_welcome :
    (registry : Registry) (s : SerializerStrategy) (cipher : ℕ) (secret : EncryptedGroupSecrets)
    (secrets : List EncryptedGroupSecrets) (info e rest : Bytes) (dialect : Option Bytes)
    → Built s
    → get_dialect registry (dialect_or_standard dialect) ≡ ok s
    → to_bytes registry (record {
      cipher_suite = cipher;
      encrypted_group_secrets = secret ∷ secrets;
      encrypted_group_info = info;
      dialect = dialect;
    })
      ≡ ok e
    → from_bytes registry (e ++ rest) (some (dialect_or_standard dialect))
      ≡ ok (record {
        cipher_suite = suite;
        encrypted_group_secrets = secret ∷ secrets;
        encrypted_group_info = info;
        dialect = some (dialect_or_standard dialect);
      })
unfolding to_bytes from_bytes written
from_bytes-to_bytes_welcome registry s cipher secret secrets info e rest dialect built hd h =
    let w : Welcome = record {
      cipher_suite = cipher;
      encrypted_group_secrets = secret ∷ secrets;
      encrypted_group_info = info;
      dialect = dialect;
    } in
    let h' : written s w ≡ ok e = rw hd at h in
    let (a, body, ha, hb, he) = ⊕-eq-ok (ok s.header) _ h' in
    let (u, r, hu, hr, hur) = ⊕-eq-ok (tls_u16 suite) _ hb in
    let (x, y, hx, hy, hxy) =
      ⊕-eq-ok (bind (join encrypted_bytes (secret ∷ secrets)) (λ b. s.encode_vector (b ∷ []))) _
        hr in
    let (egs, hegs, hv) = bind-eq-ok (join encrypted_bytes (secret ∷ secrets)) _ hx in
    let hb' : (tls_u16 suite ⊕ s.encode_vector (egs ∷ []) ⊕ s.encode_vector (info ∷ [])) ≡ ok body =
      rw hegs at hb in
    let taken =
      (body-RoundTrips s w (dialect_or_standard dialect) egs built hegs).decodes body hb' s.header
        rest in
    let at_body = body_offset-written s secret secrets egs body rest _ built hegs hb' in
    let whole : e ++ rest ≡ s.header ++ (body ++ rest) =
      ap (λ t. t ++ rest) he
      ∙ ap (λ t. (t ++ body) ++ rest) (sym (ok-injective ha))
      ∙ append_assoc s.header body rest in
    rw (hd, whole, at_body, taken)
