-- ===== src/Group/Secrets/RoundTrip.antt =====
-- The wire forms of `GroupSecrets` and `EncryptedGroupSecrets` of src/pure_mls/group.py.
use pure_mls.Prelude.{
  ℕ, ◌+◌, ◌≡◌, sym, arith, Bytes, List, [], ◌∷◌, ◌++◌, length, length-append, map, Option, none,
  some, ok, ok-injective, bind, bind-eq-ok, join, ⊕-eq-ok, lt→ltb, append_assoc, ◌==◌,
  if◌then◌else◌, Bool-cases, inl, inr,
}
use pure_mls.Wire.Reader.{◌>>=◌}
use pure_mls.Wire.RoundTrip.{
  RoundTrips, bind-RoundTrips, assoc-RoundTrips, map-RoundTrips, pure-RoundTrips,
}
use pure_mls.Wire.Steps.{Steps, bind-Steps, pure-Steps, Steps-le}
use pure_mls.Wire.Counted.{read_to-join}
use pure_mls.Tls.Ints.{byte_at}
use pure_mls.Tls.Opaque.{tls_opaque, tls_varint}
use pure_mls.Tls.Opaque.Varint.{tls_varint-RoundTrips}
use pure_mls.Tls.Opaque.RoundTrip.{tls_opaque-RoundTrips}
use pure_mls.Tls.Opaque.Bounds.{read_opaque-Steps}
use pure_mls.KeySchedule.{
  PreSharedKeyId, psk_id_bytes, read_psk_id, read_external, read_resumption, psk_type_external,
}
use pure_mls.Tls.Ints.Steps.{read_u8-Steps, read_u64-Steps}
use native.Mathlib.Nat.{add_assoc}
use pure_mls.KeySchedule.Psk as Psk
use pure_mls.Proposals.RoundTrip.{byte-RoundTrips}
use pure_mls.Group.Secrets.{
  GroupSecrets, path_bytes, to_bytes, read_path, psk_vector, read_psks, read_secrets, from_bytes,
  EncryptedGroupSecrets, encrypted_bytes, read_encrypted,
}

pub encrypted_bytes-RoundTrips :
    (s : EncryptedGroupSecrets) → RoundTrips read_encrypted (encrypted_bytes s) s
unfolding read_encrypted encrypted_bytes
encrypted_bytes-RoundTrips s = bind-RoundTrips _ (tls_opaque-RoundTrips s.new_member) (
    bind-RoundTrips _ (tls_opaque-RoundTrips s.kem_output)
      (map-RoundTrips _ (tls_opaque-RoundTrips s.ciphertext)))

pub read_encrypted-Steps : Steps 1 read_encrypted
unfolding read_encrypted
read_encrypted-Steps = bind-Steps 1 0 _ read_opaque-Steps (λ m.
    bind-Steps 0 0 _ (Steps-le 0 1 (omega arith) read_opaque-Steps)
      (λ k. bind-Steps 0 0 _ (Steps-le 0 1 (omega arith) read_opaque-Steps) (λ c. pure-Steps _)))

external-Steps : (type : ℕ) → Steps 1 (read_external type)
unfolding read_external
external-Steps type =
    bind-Steps 1 0 _ read_opaque-Steps (λ id.
      bind-Steps 0 0 _ (Steps-le 0 1 (omega arith) read_opaque-Steps) (λ nonce. pure-Steps _))

resumption-Steps : (type : ℕ) → Steps 1 (read_resumption type)
unfolding read_resumption
resumption-Steps type = bind-Steps 1 0 _ read_u8-Steps (λ usage.
    bind-Steps 0 0 _ (Steps-le 0 1 (omega arith) read_opaque-Steps) (λ id.
      bind-Steps 0 0 _ (Steps-le 0 8 (omega arith) read_u64-Steps) (λ epoch.
        bind-Steps 0 0 _ (Steps-le 0 1 (omega arith) read_opaque-Steps) (λ nonce. pure-Steps _))))

read_psk_id-Steps : Steps 1 read_psk_id
unfolding read_psk_id
read_psk_id-Steps = bind-Steps 1 0 _ read_u8-Steps each
  where
    each :
        (type : ℕ)
        → Steps 0 (if type == psk_type_external then read_external type else read_resumption type)
    each type = elim (Bool-cases (type == psk_type_external)) [
      | inl external ↦ rw external (Steps-le 0 1 (omega arith) (external-Steps type))
      | inr other ↦ rw other (Steps-le 0 1 (omega arith) (resumption-Steps type))
    ]

-- The wire has no empty path secret.
abbrev pub path_on_the_wire : Option Bytes → Option Bytes
path_on_the_wire none = none
path_on_the_wire (some []) = none
path_on_the_wire (some (b ∷ bs)) = some (b ∷ bs)

abbrev pub on_the_wire : GroupSecrets → GroupSecrets
on_the_wire s = record {
  joiner_secret = s.joiner_secret;
  path_secret = path_on_the_wire s.path_secret;
  psks = map Psk.on_the_wire s.psks;
}

path_reader :
    (o : Option Bytes) → RoundTrips (byte_at >>= read_path) (path_bytes o) (path_on_the_wire o)
unfolding read_path path_bytes
path_reader none = bind-RoundTrips read_path (byte-RoundTrips 0x00) (pure-RoundTrips none)
path_reader (some []) = bind-RoundTrips read_path (byte-RoundTrips 0x00) (pure-RoundTrips none)
path_reader (some (b ∷ bs)) =
    bind-RoundTrips _ (byte-RoundTrips 0x01) (map-RoundTrips _ (tls_opaque-RoundTrips (b ∷ bs)))

psk_vector-RoundTrips :
    (ids : List PreSharedKeyId)
    → RoundTrips psk_vector (bind (join psk_id_bytes ids) tls_opaque) (map Psk.on_the_wire ids)
unfolding psk_vector tls_opaque ◌>>=◌
psk_vector-RoundTrips ids = record {
  decodes = λ e h pre rest.
      let (body, hb, hw) = bind-eq-ok (join psk_id_bytes ids) _ h in
      let (a, b, ha, hb', he) = ⊕-eq-ok (tls_varint (length body)) (ok body) hw in
      let first = (tls_varint-RoundTrips (length body)).decodes a ha pre (body ++ rest) in
      let more =
        read_to-join read_psk_id psk_id_bytes Psk.on_the_wire Psk.psk_id_bytes-RoundTrips
          read_psk_id-Steps ids (length body) body (pre ++ a) rest hb (omega arith) in
      let same : b ≡ body = sym (ok-injective hb') in
      rw (he, same, append_assoc a body rest, first, length-append a body, ← add_assoc)
        (rw (append_assoc pre a (body ++ rest), length-append pre a) at more);
}

psks-RoundTrips :
    (ids : List PreSharedKeyId)
    → RoundTrips read_psks (bind (join psk_id_bytes ids) tls_opaque) (map Psk.on_the_wire ids)
unfolding read_psks
psks-RoundTrips ids = record {
  decodes = λ e h pre rest.
      let taken = (psk_vector-RoundTrips ids).decodes e h pre rest in
      let (body, hb, hw) = bind-eq-ok (join psk_id_bytes ids) _ h in
      let some_left =
        read_opaque-Steps.moves (e ++ []) 0 body (0 + length e)
          ((tls_opaque-RoundTrips body).decodes e hw [] []) in
      rw
        (lt→ltb (length pre) (length (pre ++ (e ++ rest)))
          (omega (arith, some_left, length-append pre (e ++ rest), length-append e rest)))
        taken;
}

pub to_bytes-RoundTrips : (s : GroupSecrets) → RoundTrips read_secrets (to_bytes s) (on_the_wire s)
unfolding read_secrets to_bytes
to_bytes-RoundTrips s = bind-RoundTrips _ (tls_opaque-RoundTrips s.joiner_secret) (
    assoc-RoundTrips byte_at read_path _
      (bind-RoundTrips _ (path_reader s.path_secret) (map-RoundTrips _ (psks-RoundTrips s.psks))))

-- Group secrets are read as they were written, whatever stands behind them, up to an empty path secret, which
-- comes back as none, and the fields of a pre-shared key identifier that its type does not write.
pub from_bytes-to_bytes_secrets :
    (s : GroupSecrets) (e rest : Bytes)
    → to_bytes s ≡ ok e
    → from_bytes (e ++ rest) ≡ ok (on_the_wire s)
unfolding from_bytes
from_bytes-to_bytes_secrets s e rest h = rw ((to_bytes-RoundTrips s).decodes e h [] rest)
