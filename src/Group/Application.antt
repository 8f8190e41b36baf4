-- ===== src/Group/Application.antt =====
-- Application messages of src/pure_mls/group.py. Each call gives what it returns or raises, and the group
-- behind it: its secret tree moves on also where the call raises.
use pure_mls.Prelude.{
  ℕ, ◌+◌, ◌-◌, Bytes, [], ◌++◌, length, take, drop, slice, replicate, Option, some, Result, ok, err,
  bind, ◌⊕◌, ltb, ◌==◌, not, if◌then◌else◌, struct_error, value_error, invalid_tag,
}
use pure_mls.Primitives.{Primitives}
use pure_mls.Ciphers.{Ciphers}
use pure_mls.Tls.Ints.{int_to_bytes, pack, from_be}
use pure_mls.SecretTree.{
  SecretTree, application, get_key_and_nonce, get_key_and_nonce_for_gen, derive_sender_data_key,
  derive_sender_data_nonce,
}
use pure_mls.Group.State.{MlsGroup, get_secret_tree}
pub mod Delivery

-- The associated data: the group and the epoch.
unfoldable pub associated_data : MlsGroup → Result Bytes
associated_data g = ok g.state.group_id ⊕ int_to_bytes 8 g.state.epoch_id

-- `content_ct[:32].ljust(32, b"\x00")`
unfoldable pub sample_of : Bytes → Bytes
sample_of content = take 32 content ++ replicate (32 - length (take 32 content)) 0

-- The key and the nonce of the sender data.
unfoldable pub sender_data_keys : Primitives → MlsGroup → Bytes → Result (Bytes × Bytes)
unfolding sample_of
sender_data_keys p g content =
    bind (derive_sender_data_key p g.state.key_schedule.sender_data_secret (sample_of content))
      (λ key.
        bind
          (derive_sender_data_nonce p g.state.key_schedule.sender_data_secret (sample_of content))
          (λ nonce. ok (key, nonce)))

-- The message under a key, a nonce and a generation of the secret tree.
unfoldable pub sealed : Primitives → Ciphers → MlsGroup → Bytes → Bytes × (Bytes × ℕ) → Result Bytes
unfolding associated_data sender_data_keys
sealed p c g plaintext k = bind (associated_data g) (λ ad.
    bind (c.aes_gcm_encrypt k.0 k.1.0 plaintext ad) (λ content.
      bind (sender_data_keys p g content) (λ sd. bind (pack 4 g.my_index) (λ sd_plaintext.
        bind (c.aes_gcm_encrypt sd.0 sd.1 sd_plaintext ad)
          (λ sd_ct. int_to_bytes 2 (length sd_ct) ⊕ ok sd_ct ⊕ pack 4 k.1.1 ⊕ ok content)))))

unfoldable pub encrypt_application_message :
    Primitives → Ciphers → MlsGroup → Bytes → Result Bytes × MlsGroup
unfolding sealed
encrypt_application_message p c g plaintext =
    let (keys, st) = get_key_and_nonce p (get_secret_tree g) g.my_index application in
    (bind keys (sealed p c g plaintext), record g { secret_tree = some st })

-- `except InvalidTag: raise ValueError(...)`
abbrev pub tag_or_raise : Result Bytes → Result Bytes
tag_or_raise (ok b) = ok b
tag_or_raise (err invalid_tag) = err value_error
tag_or_raise (err e) = err e

-- `struct.unpack(">I", data)`
unfoldable pub unpack_u32 : Bytes → Result ℕ
unpack_u32 raw = if length raw == 4 then ok (from_be raw) else err struct_error

-- A message that is cut into its parts: the sender data, the generation and the content.
unfoldable pub parts : Bytes → Result (Bytes × (ℕ × Bytes))
unfolding unpack_u32
parts payload =
    let n = from_be (slice payload 0 2) in
    bind (unpack_u32 (slice payload (2 + n) (2 + n + 4)))
      (λ gen. ok (slice payload 2 (2 + n), (gen, drop (2 + n + 4) payload)))

-- The leaf that the sender data names.
unfoldable pub sender_leaf : MlsGroup → Bytes → Result ℕ
unfolding unpack_u32
sender_leaf g sd_plaintext =
    if not (length sd_plaintext == 4)
    then err value_error
    else bind (unpack_u32 sd_plaintext)
        (λ leaf. if not (ltb leaf g.state.tree.num_leaves) then err value_error else ok leaf)

-- Up to the sender: the associated data, the leaf, the generation and the content.
unfoldable pub opened_sender :
    Primitives → Ciphers → MlsGroup → Bytes → Result (Bytes × (ℕ × (ℕ × Bytes)))
unfolding parts sender_leaf associated_data sender_data_keys
opened_sender p c g payload =
    if ltb (length payload) 2
    then err value_error
    else bind (associated_data g) (λ ad. bind (parts payload) (λ q.
      bind (sender_data_keys p g q.1.1) (λ sd.
        bind (tag_or_raise (c.aes_gcm_decrypt sd.0 sd.1 q.0 ad)) (λ sd_plaintext.
          bind (sender_leaf g sd_plaintext) (λ leaf. ok (ad, (leaf, (q.1.0, q.1.1))))))))

unfoldable pub decrypt_application_message :
    Primitives → Ciphers → MlsGroup → Bytes → Result Bytes × MlsGroup
unfolding opened_sender
decrypt_application_message p c g payload = elim (opened_sender p c g payload) [
  | err e ↦ (err e, g)
  | ok (ad, (leaf, (gen, content))) ↦
      let (keys, st) = get_key_and_nonce_for_gen p (get_secret_tree g) leaf gen application in
      (
        bind keys (λ k. tag_or_raise (c.aes_gcm_decrypt k.0 k.1 content ad)),
        record g { secret_tree = some st },
      )
]
