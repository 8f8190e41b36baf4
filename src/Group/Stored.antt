-- ===== src/Group/Stored.antt =====
-- `MLSGroup.to_bytes` and `MLSGroup.from_bytes` of src/pure_mls/group.py: a group with its private keys.
use pure_mls.Prelude.{
  ℕ, Bytes, List, [], ◌∷◌, length, Result, ok, bind, ◌⊕◌, join, ltb, if◌then◌else◌,
}
use pure_mls.Ciphers.{Ciphers}
use pure_mls.Wire.Reader.{Reader, ◌>>=◌, pure, lift, read_all}
use pure_mls.Tls.Ints.{int_to_bytes}
use pure_mls.Tls.Opaque.{tls_opaque, tls_opaque32, read_opaque, read_opaque32, read_fixed}
use pure_mls.Keys.{signature_key_from_private_bytes, kem_key_from_private_bytes}
use pure_mls.Epoch as Epoch
use pure_mls.Epoch.{read_int}
use pure_mls.Group.Dict.{bytes_leb, sort, set_add}
use pure_mls.Group.State as State
use pure_mls.Group.State.{MlsGroup}
pub mod RoundTrip

unfoldable pub to_bytes : MlsGroup → Result Bytes
to_bytes g = bind (Epoch.to_bytes g.state) (λ state_bytes.
    int_to_bytes 4 g.my_index
    ⊕ ok g.my_sig_key.private_bytes
    ⊕ ok g.my_kem_key.private_bytes
    ⊕ int_to_bytes 4 (length state_bytes)
    ⊕ ok state_bytes
    ⊕ (int_to_bytes 2 (length g.interim_transcript_hash) ⊕ ok g.interim_transcript_hash)
    ⊕ bind (join tls_opaque (sort bytes_leb g.consumed)) tls_opaque32)

-- What is behind the state may be missing, in what older versions stored.
unfoldable pub read_interim : Reader Bytes
unfolding ◌>>=◌
read_interim buf offset =
    if ltb offset (length buf) then (read_int 2 >>= read_fixed) buf offset else ok ([], offset)

-- `group._consumed_key_packages.add(ref)`, one by one
unfoldable pub collected : List Bytes → List Bytes → List Bytes
unfolding set_add
collected refs [] = refs
collected refs (r ∷ more) = collected (set_add refs r) more

unfoldable pub read_refs : Reader (List Bytes)
unfolding ◌>>=◌ lift
read_refs =
    read_opaque32 >>= λ raw. lift (bind (read_all read_opaque raw) (λ refs. ok (collected [] refs)))

unfoldable pub read_consumed : Reader (List Bytes)
unfolding read_refs
read_consumed buf offset = if ltb offset (length buf) then read_refs buf offset else ok ([], offset)

unfoldable pub read_group : Ciphers → Reader MlsGroup
unfolding ◌>>=◌ pure lift read_interim read_consumed
read_group c = do
  index ← read_int 4
  sig_raw ← read_fixed 32
  sig ← lift (signature_key_from_private_bytes c sig_raw)
  kem_raw ← read_fixed 32
  kem ← lift (kem_key_from_private_bytes c kem_raw)
  s_len ← read_int 4
  state_bytes ← read_fixed s_len
  st ← lift (Epoch.from_bytes state_bytes)
  interim ← read_interim
  refs ← read_consumed
  pure (record (State.new st index sig kem interim) { consumed = refs })

unfoldable pub from_bytes : Ciphers → Bytes → Result MlsGroup
unfolding read_group
from_bytes c raw = bind (read_group c raw 0) (λ p. ok p.0)
