-- ===== src/Group/Join.antt =====
-- `join` of src/pure_mls/group.py: a group from a welcome. The two kinds of welcome are two functions, one of
-- which parses the bytes.
use pure_mls.Prelude.{
  ℕ, zero, suc, ◌+◌, ◌*◌, ◌/◌, ◌%◌, true, false, Bytes, List, [], ◌∷◌, length, Option, none, some,
  Result, ok, err, bind, ltb, ◌==◌, if◌then◌else◌, value_error, invalid_tag, out_of_fuel,
}
use pure_mls.Primitives.{Primitives}
use pure_mls.Ciphers.{Ciphers}
use pure_mls.Codecs.{Registry, same_bytes}
use pure_mls.Hkdf.{hkdf_extract, expand_with_label}
use pure_mls.Hpke.{hpke_open}
use pure_mls.Keys.{SignatureKey, KemKey}
use pure_mls.KeySchedule.{
  PreSharedKeyId, KeySchedule, psk_secret, derive_welcome_key, derive_welcome_nonce,
  from_epoch_secret, zeros,
}
use pure_mls.Tls.Extension.{read_extension}
use pure_mls.Tree.{Node, leaf, parent_node, RatchetTree, get_node}
use pure_mls.Tree.Hash.{tree_hash, egs_info}
use pure_mls.Tree.Wire as TreeWire
use pure_mls.Epoch as Epoch
use pure_mls.Group.Context as Context
use pure_mls.Group.Dict.{Dict, dict_set, dict_get}
use pure_mls.Group.Framing.{interim_transcript_hash}
use pure_mls.Group.Info as Info
use pure_mls.Group.Info.{GroupInfo}
use pure_mls.Group.Secrets as Secrets
use pure_mls.Group.Secrets.{GroupSecrets, EncryptedGroupSecrets}
use pure_mls.Group.State as State
use pure_mls.Group.State.{MlsGroup}
use pure_mls.Group.Receive.{leaf_or_value_error, check}
use pure_mls.Group.Welcome as Welcome
use pure_mls.Group.Welcome.{Welcome}

-- `except (InvalidTag, ValueError)`: something else is tried.
abbrev pub or_else {ℓ} : {A : Type ℓ} → Result A → Result A → Result A
or_else (ok a) other = ok a
or_else (err invalid_tag) other = other
or_else (err value_error) other = other
or_else (err e) other = err e

-- `except Exception`: a `ValueError`. Running out of fuel is no exception.
abbrev pub any_or_raise {ℓ} : {A : Type ℓ} → Result A → Result A
any_or_raise (ok a) = ok a
any_or_raise (err out_of_fuel) = err out_of_fuel
any_or_raise (err e) = err value_error

-- The first secrets that the key opens.
unfoldable pub open_secrets :
    Primitives → Ciphers → KemKey → Bytes → List EncryptedGroupSecrets → Result Bytes
open_secrets p c key egi [] = err value_error
open_secrets p c key egi (s ∷ more) =
    or_else (bind (egs_info egi) (λ info. hpke_open p c key s.kem_output s.ciphertext [] 0 info))
      (open_secrets p c key egi more)

-- `{p.psk_id: v for p, v in psk_list}`
unfoldable pub psk_map : List (PreSharedKeyId × Bytes) → Dict → Dict
psk_map [] d = d
psk_map (kv ∷ more) d = psk_map more (dict_set d kv.0.psk_id kv.1)

unfoldable pub resolve : Dict → List PreSharedKeyId → Result (List (PreSharedKeyId × Bytes))
resolve d [] = ok []
resolve d (i ∷ is) = elim (dict_get d i.psk_id) [
  | none ↦ err value_error
  | some psk ↦ bind (resolve d is) (λ more. ok ((i, psk) ∷ more))
]

-- The keys that the welcome asks for, under the identifiers of the welcome.
unfoldable pub resolved_psks :
    List PreSharedKeyId → List (PreSharedKeyId × Bytes) → Result (List (PreSharedKeyId × Bytes))
unfolding psk_map resolve
resolved_psks [] given = ok []
resolved_psks (i ∷ is) [] = err value_error
resolved_psks (i ∷ is) (kv ∷ given) = resolve (psk_map (kv ∷ given) []) (i ∷ is)

unfoldable pub open_info_with : Primitives → Ciphers → Bytes → Bytes → Bytes → Result Bytes
open_info_with p c joiner psk egi = bind (derive_welcome_key p joiner (some psk)) (λ key.
    bind (derive_welcome_nonce p joiner (some psk)) (λ nonce. c.aes_gcm_decrypt key nonce egi []))

-- First with the pre-shared keys, then with the secret of none.
unfoldable pub open_info : Primitives → Ciphers → Bytes → Bytes → Bytes → Result Bytes
unfolding open_info_with
open_info p c joiner psk egi =
    or_else (open_info_with p c joiner psk egi)
      (or_else (open_info_with p c joiner zeros egi) (err value_error))

-- The loop over the extensions, up to a ratchet tree. Each round takes a byte, so their length is fuel enough.
unfoldable pub find_tree : ℕ → Bytes → ℕ → Result (Option RatchetTree)
find_tree zero raw offset = if ltb offset (length raw) then err out_of_fuel else ok none
find_tree (suc fuel) raw offset = elim (ltb offset (length raw)) [
  | false ↦ ok none
  | true ↦ bind (read_extension raw offset) (λ q. elim (q.0.0 == 0x0002) [
    | true ↦ bind (TreeWire.from_bytes q.0.1) (λ t. ok (some t))
    | false ↦ find_tree fuel raw q.1
  ])
]

-- The tree that was given, or the one of the extensions.
unfoldable pub joined_tree : Option RatchetTree → Bytes → Result RatchetTree
unfolding find_tree
joined_tree (some t) raw = ok t
joined_tree none raw =
    bind (find_tree (length raw) raw 0)
      (λ found. elim found [ some t ↦ ok t | none ↦ err value_error ])

-- The first leaf with my signature key: at the even positions, node `i` on.
unfoldable pub my_leaf : Bytes → ℕ → List (Option Node) → Result ℕ
my_leaf key i [] = err value_error
my_leaf key i (some (leaf l) ∷ ns) =
    let later = my_leaf key (i + 1) ns in
    if i % 2 == 0 then (if same_bytes l.signature_key key then ok (i / 2) else later) else later
my_leaf key i (some (parent_node n) ∷ ns) = my_leaf key (i + 1) ns
my_leaf key i (none ∷ ns) = my_leaf key (i + 1) ns

-- The epoch's secrets from the joiner secret.
unfoldable pub joined_schedule :
    Primitives → Bytes → List (PreSharedKeyId × Bytes) → Bytes → Result KeySchedule
joined_schedule p joiner psks context_bytes = bind (psk_secret p psks) (λ psk.
    bind (expand_with_label p (hkdf_extract p (some joiner) psk) "epoch" context_bytes 32)
      (λ epoch. from_epoch_secret p epoch joiner))

-- From the group info on: every check, and the new group.
unfoldable pub admitted :
    Primitives
    → SignatureKey
    → KemKey
    → Bytes
    → List (PreSharedKeyId × Bytes)
    → GroupInfo
    → RatchetTree
    → Result MlsGroup
unfolding my_leaf joined_schedule
admitted p sig kem joiner psks info tree = bind (tree_hash p tree) (λ hash.
    bind (check (same_bytes hash info.group_context.tree_hash)) (λ _.
      bind (leaf_or_value_error (get_node tree (2 * info.signer))) (λ committer.
        bind (any_or_raise (Info.verify p info committer.signature_key)) (λ _.
          bind (my_leaf sig.public_bytes 0 tree.nodes) (λ index.
            bind (Context.to_bytes info.group_context) (λ context_bytes.
              bind (joined_schedule p joiner psks context_bytes) (λ schedule.
                let st =
                  Epoch.new info.group_context.group_id info.group_context.epoch tree schedule in
                let confirmed = info.group_context.confirmed_transcript_hash in
                bind
                  (check (
                    same_bytes (p.hmac_sha256 schedule.confirmation_key confirmed)
                      info.confirmation_tag))
                  (λ _. ok (
                    State.new st index sig kem
                      (interim_transcript_hash p confirmed info.confirmation_tag))))))))))

unfoldable pub join_welcome :
    Primitives
    → Ciphers
    → Welcome
    → SignatureKey
    → KemKey
    → List (PreSharedKeyId × Bytes)
    → Option RatchetTree
    → Result MlsGroup
unfolding open_secrets resolved_psks open_info joined_tree admitted
join_welcome p c w sig kem given external =
    bind (open_secrets p c kem w.encrypted_group_info w.encrypted_group_secrets) (λ raw.
      bind (Secrets.from_bytes raw) (λ gs. bind (resolved_psks gs.psks given) (λ psks.
        bind (psk_secret p psks) (λ psk.
          bind (open_info p c gs.joiner_secret psk w.encrypted_group_info) (λ info_bytes.
            bind (Info.from_bytes info_bytes) (λ info.
              bind (joined_tree external info.extensions_bytes)
                (λ tree. admitted p sig kem gs.joiner_secret psks info tree)))))))

unfoldable pub join_bytes :
    Primitives
    → Ciphers
    → Registry
    → Bytes
    → SignatureKey
    → KemKey
    → List (PreSharedKeyId × Bytes)
    → Option RatchetTree
    → Result MlsGroup
unfolding join_welcome
join_bytes p c registry raw sig kem given external =
    bind (any_or_raise (Welcome.from_bytes registry raw none))
      (λ w. join_welcome p c w sig kem given external)
