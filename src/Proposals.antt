-- ===== src/Proposals.antt =====
-- src/pure_mls/proposals.py: the proposals, their references and the body of a commit.
use pure_mls.Prelude.{
  ℕ, ◌+◌, Bytes, List, [], ◌∷◌, ◌++◌, length, slice, Option, none, some, Result, ok, err, bind, ◌⊕◌,
  join, ◌==◌, if◌then◌else◌, value_error, not,
}
use pure_mls.Primitives.{Primitives}
use pure_mls.Wire.Reader.{Reader, ◌>>=◌, ◌>>◌, pure, lift, require, read_all}
use pure_mls.Tls.Ints.{from_be, byte_at, tls_u16, tls_u32, read_u16, read_u32}
use pure_mls.Tls.Opaque.{tls_varint, tls_opaque, read_opaque, index}
pub mod RoundTrip

-- `ProposalType`
abbrev pub add_type : ℕ
add_type = 0x0001

abbrev pub update_type : ℕ
update_type = 0x0002

abbrev pub remove_type : ℕ
remove_type = 0x0003

abbrev pub psk_type : ℕ
psk_type = 0x0004

-- The four proposals that the code has a class for.
pub data Proposal : Type 0 where
  add_proposal : Bytes → Proposal
  update_proposal : Bytes → Proposal
  remove_proposal : ℕ → Proposal
  psk_proposal : Bytes → Bytes → Proposal

-- `psk_id_wire`: the type byte of an external key, the identifier and the nonce.
unfoldable pub psk_id_wire : Bytes → Bytes → Result Bytes
psk_id_wire psk_id psk_nonce = ok (0x01 ∷ []) ⊕ tls_opaque psk_id ⊕ tls_opaque psk_nonce

unfoldable pub to_bytes : Proposal → Result Bytes
unfolding psk_id_wire
to_bytes (add_proposal key_package_bytes) = tls_u16 add_type ⊕ tls_opaque key_package_bytes
to_bytes (update_proposal leaf_node_bytes) = tls_u16 update_type ⊕ tls_opaque leaf_node_bytes
to_bytes (remove_proposal removed) = tls_u16 remove_type ⊕ tls_u32 removed
to_bytes (psk_proposal psk_id psk_nonce) =
    tls_u16 psk_type ⊕ bind (psk_id_wire psk_id psk_nonce) tls_opaque

unfoldable pub read_add : Reader Proposal
unfolding ◌>>=◌ ◌>>◌ pure require
read_add = do
  proposal_type ← read_u16
  require (proposal_type == add_type) value_error
  kp_bytes ← read_opaque
  pure (add_proposal kp_bytes)

unfoldable pub read_update : Reader Proposal
unfolding ◌>>=◌ ◌>>◌ pure require
read_update = do
  proposal_type ← read_u16
  require (proposal_type == update_type) value_error
  ln_bytes ← read_opaque
  pure (update_proposal ln_bytes)

unfoldable pub read_remove : Reader Proposal
unfolding ◌>>=◌ ◌>>◌ pure require
read_remove = do
  proposal_type ← read_u16
  require (proposal_type == remove_type) value_error
  removed ← read_u32
  pure (remove_proposal removed)

-- The type byte is read and not looked at; what follows the nonce is dropped.
unfoldable pub read_psk_id : Reader (Bytes × Bytes)
unfolding ◌>>=◌ pure
read_psk_id = byte_at >>= λ _.
    (read_opaque >>= λ psk_id. (read_opaque >>= λ psk_nonce. pure (psk_id, psk_nonce)))

unfoldable pub parse_psk_id : Bytes → Result Proposal
parse_psk_id raw = bind (read_psk_id raw 0) (λ p. ok (psk_proposal p.0.0 p.0.1))

unfoldable pub read_psk : Reader Proposal
unfolding ◌>>=◌ ◌>>◌ lift require
read_psk = do
  proposal_type ← read_u16
  require (proposal_type == psk_type) value_error
  wire ← read_opaque
  lift (parse_psk_id wire)

-- The type dispatch of `proposal_from_bytes`: a peek at two bytes, which may be short.
unfoldable pub from_bytes_at : Reader Proposal
from_bytes_at buf offset =
    let proposal_type = from_be (slice buf offset (offset + 2)) in
    if proposal_type == add_type
    then read_add buf offset
    else if proposal_type == update_type
    then read_update buf offset
    else if proposal_type == remove_type
    then read_remove buf offset
    else if proposal_type == psk_type
    then read_psk buf offset
    else err value_error

unfoldable pub proposal_ref : Primitives → Bytes → Bytes
proposal_ref p proposal_bytes = p.sha256 proposal_bytes

pub record ProposalOrRef : Type 0 where
  pub value : Option Bytes
  pub reference : Option Bytes

unfoldable pub or_ref_bytes : ProposalOrRef → Result Bytes
or_ref_bytes r = elim r.value [
  | some v ↦ ok (0x01 ∷ []) ⊕ tls_opaque v
  | none ↦ elim r.reference [ some h ↦ ok (0x02 ∷ []) ⊕ tls_opaque h | none ↦ err value_error ]
]

unfoldable pub read_kind : ℕ → Reader ProposalOrRef
unfolding ◌>>=◌ pure lift
read_kind kind =
    if kind == 0x01
    then (read_opaque >>= λ v. pure (record { value = some v; reference = none }))
    else if kind == 0x02
    then (read_opaque >>= λ h. pure (record { value = none; reference = some h }))
    else lift (err value_error)

unfoldable pub read_or_ref : Reader ProposalOrRef
unfolding ◌>>=◌
read_or_ref = byte_at >>= read_kind

pub record Commit : Type 0 where
  pub proposals : List ProposalOrRef
  pub update_path_bytes : Option Bytes

-- The optional update path, behind its presence byte.
unfoldable pub optional_bytes : Option Bytes → Result Bytes
optional_bytes none = ok (0x00 ∷ [])
optional_bytes (some b) = ok (0x01 ∷ []) ⊕ tls_opaque b

unfoldable pub commit_bytes : Commit → Result Bytes
commit_bytes c =
    bind (join or_ref_bytes c.proposals) tls_opaque ⊕ optional_bytes c.update_path_bytes

unfoldable pub read_optional : ℕ → Reader (Option Bytes)
unfolding ◌>>=◌ pure
read_optional has_path = if has_path == 0 then pure none else (read_opaque >>= λ b. pure (some b))

unfoldable pub read_commit : Reader Commit
unfolding ◌>>=◌ pure lift
read_commit = do
  props_data ← read_opaque
  props ← lift (read_all read_or_ref props_data)
  has_path ← byte_at
  path_bytes ← read_optional has_path
  pure (record { proposals = props; update_path_bytes = path_bytes })
