-- ===== src/Group/Welcome/Decrypting.antt =====
-- `decrypt_group_secrets` of `Welcome` of src/pure_mls/group.py, for secrets that `HPKE.seal` sealed.
use pure_mls.Prelude.{
  ◌≡◌, sym, ap, ◌∙◌, Bytes, List, [], ◌∷◌, ◌++◌, append-nil, All, some, ok, err, ◌⊕◌, invalid_tag,
}
use pure_mls.Primitives.{Primitives}
use pure_mls.Ciphers.{Ciphers, Agrees, Decrypts}
use pure_mls.Tls.Opaque.{tls_opaque}
use pure_mls.Codecs.{SerializerStrategy, Registry, get_dialect}
use pure_mls.Keys.{KemKey, new_kem_key}
use pure_mls.Hpke.{hpke_open, seal}
use pure_mls.Hpke.Opening.{hpke_open-seal}
use pure_mls.Group.Secrets as Secrets
use pure_mls.Group.Secrets.{GroupSecrets, EncryptedGroupSecrets}
use pure_mls.Group.Secrets.RoundTrip as SecretsLaws
use pure_mls.Group.Welcome.{Welcome, dialect_or_standard, first_opened, decrypt_group_secrets}

-- The key does not open the secrets: the tag is refused.
abbrev pub IsRefused : Primitives → Ciphers → KemKey → Bytes → EncryptedGroupSecrets → Type 0
IsRefused p c key info s = hpke_open p c key s.kem_output s.ciphertext [] 0 info ≡ err invalid_tag

first_opened-found :
    (p : Primitives) (c : Ciphers) (key : KemKey) (info : Bytes)
    (others : List EncryptedGroupSecrets) (mine : EncryptedGroupSecrets)
    (more : List EncryptedGroupSecrets) (b : Bytes)
    → All (IsRefused p c key info) others
    → hpke_open p c key mine.kem_output mine.ciphertext [] 0 info ≡ ok b
    → first_opened p c key info (others ++ (mine ∷ more)) ≡ ok (some b)
unfolding first_opened
first_opened-found p c key info [] mine more b r h = rw h
first_opened-found p c key info (s ∷ ss) mine more b (refused, r) h =
    rw (refused, first_opened-found p c key info ss mine more b r h)

-- If the ephemeral key and the joiner's key agree and AES-GCM decrypts what it encrypted, then the group secrets that
-- were sealed to the joiner's public key under the welcome's label are the ones that the joiner decrypts, if the
-- key opens none of the secrets before them; they come back as the wire keeps them.
pub decrypt_group_secrets-seal :
    (p : Primitives) (c : Ciphers) (registry : Registry) (strategy : SerializerStrategy)
    (w : Welcome) (ephemeral joiner info b enc ct ref : Bytes) (secrets : GroupSecrets)
    (others more : List EncryptedGroupSecrets)
    → Agrees c ephemeral joiner
    → Decrypts c
    → get_dialect registry (dialect_or_standard w.dialect) ≡ ok strategy
    → (tls_opaque strategy.welcome_label ⊕ tls_opaque w.encrypted_group_info) ≡ ok info
    → w.encrypted_group_secrets
      ≡ others ++ (record { new_member = ref; kem_output = enc; ciphertext = ct } ∷ more)
    → All (IsRefused p c (new_kem_key c joiner) info) others
    → Secrets.to_bytes secrets ≡ ok b
    → seal p c (new_kem_key c ephemeral) (c.x25519_public joiner) b [] 0 info ≡ ok (enc, ct)
    → decrypt_group_secrets p c registry w (new_kem_key c joiner)
      ≡ ok (some (SecretsLaws.on_the_wire secrets))
unfolding decrypt_group_secrets
decrypt_group_secrets-seal p c registry strategy w ephemeral joiner info b enc ct ref secrets others
      more agree dec hd hi hs refused hb sealed =
    let opened = hpke_open-seal p c ephemeral joiner b [] 0 info enc ct agree dec sealed in
    let found =
      first_opened-found p c (new_kem_key c joiner) info others
        (record { new_member = ref; kem_output = enc; ciphertext = ct }) more b refused opened in
    let parsed : Secrets.from_bytes b ≡ ok (SecretsLaws.on_the_wire secrets) =
      ap Secrets.from_bytes (sym (append-nil b))
      ∙ SecretsLaws.from_bytes-to_bytes_secrets secrets b [] hb in
    rw (hd, hi, hs, found, parsed)
