-- ===== src/KeySchedule.antt =====
-- src/pure_mls/keyschedule.py: the pre-shared key identifiers, the chain of pre-shared keys and
-- the secrets of an epoch. An exception of the derivation is an error of the result.
use pure_mls.Prelude.{
  ℕ, ◌+◌, ◌*◌, Bytes, List, [], ◌∷◌, ◌++◌, length, slice, replicate, Option, none, some, Result, ok,
  err, bind, ◌⊕◌, ◌==◌, not, if◌then◌else◌, value_error,
}
use pure_mls.Primitives.{Primitives}
use pure_mls.Wire.Reader.{Reader, ◌>>=◌, pure}
use pure_mls.Tls.Ints.{pack, read_u8, read_u64}
use pure_mls.Tls.Opaque.{read_opaque}
use pure_mls.Hkdf.{varint_encode, hkdf_extract, expand_with_label, derive_secret}
pub mod Psk
pub mod Derive
pub mod RoundTrip

-- `_NH`
abbrev pub nh : ℕ
nh = 32

-- `PSK_TYPE_EXTERNAL`
abbrev pub psk_type_external : ℕ
psk_type_external = 1

pub record PreSharedKeyId : Type 0 where
  pub psk_type : ℕ
  pub psk_id : Bytes
  pub psk_nonce : Bytes
  pub usage : ℕ
  pub psk_group_id : Bytes
  pub psk_epoch : ℕ

-- `varint_encode(len(d)) + d`
unfoldable pub opaque : Bytes → Result Bytes
unfolding varint_encode
opaque d = varint_encode (length d) ⊕ ok d

unfoldable pub external_bytes : PreSharedKeyId → Result Bytes
external_bytes i = opaque i.psk_id ⊕ opaque i.psk_nonce

unfoldable pub resumption_bytes : PreSharedKeyId → Result Bytes
resumption_bytes i =
    pack 1 i.usage ⊕ opaque i.psk_group_id ⊕ pack 8 i.psk_epoch ⊕ opaque i.psk_nonce

unfoldable pub psk_id_bytes : PreSharedKeyId → Result Bytes
unfolding external_bytes resumption_bytes
psk_id_bytes i =
    pack 1 i.psk_type
    ⊕ (if i.psk_type == psk_type_external then external_bytes i else resumption_bytes i)

unfoldable pub read_external : ℕ → Reader PreSharedKeyId
unfolding ◌>>=◌ pure
read_external type = do
  id ← read_opaque
  nonce ← read_opaque
  pure (record {
    psk_type = type;
    psk_id = id;
    psk_nonce = nonce;
    usage = 0;
    psk_group_id = [];
    psk_epoch = 0;
  })

unfoldable pub read_resumption : ℕ → Reader PreSharedKeyId
unfolding ◌>>=◌ pure
read_resumption type = do
  usage' ← read_u8
  group_id ← read_opaque
  epoch ← read_u64
  nonce ← read_opaque
  pure (record {
    psk_type = type;
    psk_id = [];
    psk_nonce = nonce;
    usage = usage';
    psk_group_id = group_id;
    psk_epoch = epoch;
  })

unfoldable pub read_psk_id : Reader PreSharedKeyId
unfolding ◌>>=◌ read_external read_resumption
read_psk_id = read_u8 >>= λ type.
    (if type == psk_type_external then read_external type else read_resumption type)

abbrev pub zeros : Bytes
zeros = replicate nh 0

-- One round of `_psk_secret`: key `i` of `n`.
unfoldable pub psk_round : Primitives → ℕ → ℕ → PreSharedKeyId × Bytes → Bytes → Result Bytes
unfolding hkdf_extract
psk_round p n i key acc = bind (psk_id_bytes key.0 ⊕ pack 2 i ⊕ pack 2 n) (λ psk_label.
    bind (expand_with_label p (hkdf_extract p (some zeros) key.1) "derived psk" psk_label nh)
      (λ psk_input. ok (hkdf_extract p (some psk_input) acc)))

unfoldable pub psk_rounds :
    Primitives → ℕ → ℕ → List (PreSharedKeyId × Bytes) → Bytes → Result Bytes
unfolding psk_round
psk_rounds p n i [] acc = ok acc
psk_rounds p n i (key ∷ keys) acc =
    bind (psk_round p n i key acc) (λ acc'. psk_rounds p n (i + 1) keys acc')

unfoldable pub psk_secret : Primitives → List (PreSharedKeyId × Bytes) → Result Bytes
unfolding psk_rounds
psk_secret p keys = psk_rounds p (length keys) 0 keys zeros

pub record KeySchedule : Type 0 where
  pub joiner_secret : Bytes
  pub epoch_secret : Bytes
  pub sender_data_secret : Bytes
  pub encryption_secret : Bytes
  pub exporter_secret : Bytes
  pub epoch_authenticator : Bytes
  pub external_secret : Bytes
  pub resumption_psk_secret : Bytes
  pub confirmation_key : Bytes
  pub membership_key : Bytes
  pub init_secret : Bytes

-- The epoch secret and the joiner secret; the third result of the source is not used by its callers.
unfoldable pub derive_epoch_secret :
    Primitives → Bytes → Bytes → Bytes → List (PreSharedKeyId × Bytes) → Result (Bytes × Bytes)
unfolding hkdf_extract
derive_epoch_secret p init_secret commit_secret group_context psk_list =
    bind
      (expand_with_label p (hkdf_extract p (some init_secret) commit_secret) "joiner" group_context
        nh)
      (λ joiner. bind (psk_secret p psk_list) (λ psk.
        bind (expand_with_label p (hkdf_extract p (some joiner) psk) "epoch" group_context nh)
          (λ epoch. ok (epoch, joiner))))

unfoldable pub from_epoch_secret : Primitives → Bytes → Bytes → Result KeySchedule
from_epoch_secret p epoch joiner = bind (derive_secret p epoch "sender data") (λ sender_data.
    bind (derive_secret p epoch "encryption") (λ encryption.
      bind (derive_secret p epoch "exporter") (λ exporter.
        bind (derive_secret p epoch "authentication") (λ authenticator.
          bind (derive_secret p epoch "external") (λ external.
            bind (derive_secret p epoch "resumption") (λ resumption.
              bind (derive_secret p epoch "confirm") (λ confirm.
                bind (derive_secret p epoch "membership") (λ membership.
                  bind (derive_secret p epoch "init") (λ init. ok (record {
                    joiner_secret = joiner;
                    epoch_secret = epoch;
                    sender_data_secret = sender_data;
                    encryption_secret = encryption;
                    exporter_secret = exporter;
                    epoch_authenticator = authenticator;
                    external_secret = external;
                    resumption_psk_secret = resumption;
                    confirmation_key = confirm;
                    membership_key = membership;
                    init_secret = init;
                  }))))))))))

unfoldable pub derive :
    Primitives → Bytes → Bytes → Bytes → List (PreSharedKeyId × Bytes) → Result KeySchedule
unfolding derive_epoch_secret from_epoch_secret
derive p init_secret commit_secret group_context psk_list =
    bind (derive_epoch_secret p init_secret commit_secret group_context psk_list)
      (λ s. from_epoch_secret p s.0 s.1)

unfoldable pub derive_confirmation_key :
    Primitives → Bytes → Bytes → Bytes → List (PreSharedKeyId × Bytes) → Result Bytes
unfolding derive_epoch_secret
derive_confirmation_key p init_secret commit_secret group_context psk_list =
    bind (derive_epoch_secret p init_secret commit_secret group_context psk_list)
      (λ s. derive_secret p s.0 "confirm")

-- `psk_secret or 32 zeros`
abbrev pub secret_or_zeros : Option Bytes → Bytes
secret_or_zeros none = zeros
secret_or_zeros (some psk) = psk

unfoldable pub derive_welcome_key : Primitives → Bytes → Option Bytes → Result Bytes
unfolding hkdf_extract
derive_welcome_key p joiner psk =
    bind (derive_secret p (hkdf_extract p (some joiner) (secret_or_zeros psk)) "welcome")
      (λ welcome. expand_with_label p welcome "key" [] 16)

unfoldable pub derive_welcome_nonce : Primitives → Bytes → Option Bytes → Result Bytes
unfolding hkdf_extract
derive_welcome_nonce p joiner psk =
    bind (derive_secret p (hkdf_extract p (some joiner) (secret_or_zeros psk)) "welcome")
      (λ welcome. expand_with_label p welcome "nonce" [] 12)

unfoldable pub to_bytes : KeySchedule → Bytes
to_bytes k =
    k.joiner_secret ++ k.epoch_secret ++ k.sender_data_secret ++ k.encryption_secret
    ++ k.exporter_secret ++ k.epoch_authenticator ++ k.external_secret ++ k.resumption_psk_secret
    ++ k.confirmation_key ++ k.membership_key ++ k.init_secret

-- The field that starts at position `o`.
abbrev pub field_at : Bytes → ℕ → Bytes
field_at raw o = slice raw o (o + 32)

unfoldable pub from_bytes : Bytes → Result KeySchedule
from_bytes raw =
    if not (length raw == 11 * 32)
    then err value_error
    else ok (record {
      joiner_secret = field_at raw 0;
      epoch_secret = field_at raw 32;
      sender_data_secret = field_at raw 64;
      encryption_secret = field_at raw 96;
      exporter_secret = field_at raw 128;
      epoch_authenticator = field_at raw 160;
      external_secret = field_at raw 192;
      resumption_psk_secret = field_at raw 224;
      confirmation_key = field_at raw 256;
      membership_key = field_at raw 288;
      init_secret = field_at raw 320;
    })
