-- ===== src/Group/Welcome.antt =====
-- `Welcome` of src/pure_mls/group.py. The registry of the dialects is an argument.
use pure_mls.Prelude.{
  ℕ, Bool, true, false, ◌&&◌, not, Bytes, List, [], ◌∷◌, ◌++◌, length, drop, get_elem?, Option,
  none, some, Result, ok, err, Error, bind, ◌⊕◌, join, ◌==◌, if◌then◌else◌, or_raise, index_error,
  invalid_tag,
}
use pure_mls.Primitives.{Primitives, ascii}
use pure_mls.Ciphers.{Ciphers}
use pure_mls.Wire.Reader.{Reader, ◌>>=◌, pure, lift, read_all}
use pure_mls.Tls.Ints.{tls_u16, read_u16}
use pure_mls.Tls.Opaque.{tls_opaque}
use pure_mls.Codecs.{SerializerStrategy, Registry, get_dialect, startswith, same_bytes}
use pure_mls.Keys.{KemKey}
use pure_mls.Hpke.{hpke_open}
use pure_mls.Group.Secrets as Secrets
use pure_mls.Group.Secrets.{GroupSecrets, EncryptedGroupSecrets, encrypted_bytes, read_encrypted}
pub mod RoundTrip
pub mod Decrypting

pub record Welcome : Type 0 where
  pub cipher_suite : ℕ
  pub encrypted_group_secrets : List EncryptedGroupSecrets
  pub encrypted_group_info : Bytes
  pub dialect : Option Bytes

abbrev pub suite : ℕ
suite = 0x0001

-- `dialect or "standard"`
abbrev pub dialect_or_standard : Option Bytes → Bytes
dialect_or_standard none = ascii "standard"
dialect_or_standard (some []) = ascii "standard"
dialect_or_standard (some (b ∷ bs)) = b ∷ bs

unfoldable pub written : SerializerStrategy → Welcome → Result Bytes
written strategy w =
    ok strategy.header
    ⊕ tls_u16 suite
    ⊕ bind (join encrypted_bytes w.encrypted_group_secrets) (λ b. strategy.encode_vector (b ∷ []))
    ⊕ strategy.encode_vector (w.encrypted_group_info ∷ [])

unfoldable pub to_bytes : Registry → Welcome → Result Bytes
unfolding written
to_bytes registry w =
    bind (get_dialect registry (dialect_or_standard w.dialect)) (λ strategy. written strategy w)

-- `header and data.startswith(header)`, and the bytes 00 01 00 03 of the standard dialect.
unfoldable pub body_offset : SerializerStrategy → Bytes → ℕ
body_offset strategy raw =
    if not (length strategy.header == 0) && startswith raw strategy.header
    then length strategy.header
    else if same_bytes strategy.name (ascii "standard")
        && startswith raw (0x00 ∷ 0x01 ∷ 0x00 ∷ 0x03 ∷ [])
    then 4
    else 0

-- `vec_list[0]`
abbrev pub first_item : List Bytes → Result Bytes
first_item items = or_raise index_error (get_elem? items 0)

unfoldable pub read_body : SerializerStrategy → Bytes → Reader Welcome
unfolding ◌>>=◌ pure lift
read_body strategy name = do
  suite' ← read_u16
  egs_list ← strategy.decode_vector
  egs_bytes ← lift (first_item egs_list)
  secrets ← lift (read_all read_encrypted egs_bytes)
  egi_list ← strategy.decode_vector
  egi ← lift (first_item egi_list)
  pure (record {
    cipher_suite = suite';
    encrypted_group_secrets = secrets;
    encrypted_group_info = egi;
    dialect = some name;
  })

-- `"standard" if dialect is None else dialect`
abbrev pub chosen : Option Bytes → Bytes
chosen none = ascii "standard"
chosen (some name) = name

unfoldable pub from_bytes : Registry → Bytes → Option Bytes → Result Welcome
unfolding read_body body_offset
from_bytes registry raw dialect' = bind (get_dialect registry (chosen dialect')) (λ strategy.
    bind (read_body strategy (chosen dialect') raw (body_offset strategy raw)) (λ p. ok p.0))

unfoldable pub from_mlsmessage_bytes : Registry → Bytes → Result Welcome
unfolding from_bytes
from_mlsmessage_bytes registry raw = from_bytes registry (drop 4 raw) none

-- `except InvalidTag: continue`
abbrev pub opened_or : Result Bytes → Result (Option Bytes) → Result (Option Bytes)
opened_or (ok b) rest = ok (some b)
opened_or (err invalid_tag) rest = rest
opened_or (err e) rest = err e

-- The first secrets that the key opens.
unfoldable pub first_opened :
    Primitives → Ciphers → KemKey → Bytes → List EncryptedGroupSecrets → Result (Option Bytes)
first_opened p c key info [] = ok none
first_opened p c key info (s ∷ more) =
    opened_or (hpke_open p c key s.kem_output s.ciphertext [] 0 info)
      (first_opened p c key info more)

abbrev pub parse_opened : Option Bytes → Result (Option GroupSecrets)
parse_opened none = ok none
parse_opened (some b) = bind (Secrets.from_bytes b) (λ s. ok (some s))

unfoldable pub decrypt_group_secrets :
    Primitives → Ciphers → Registry → Welcome → KemKey → Result (Option GroupSecrets)
unfolding first_opened
decrypt_group_secrets p c registry w key =
    bind (get_dialect registry (dialect_or_standard w.dialect)) (λ strategy.
      bind (tls_opaque strategy.welcome_label ⊕ tls_opaque w.encrypted_group_info)
        (λ info. bind (first_opened p c key info w.encrypted_group_secrets) parse_opened))
