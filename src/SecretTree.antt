-- ===== src/SecretTree.antt =====
-- src/pure_mls/secret_tree.py: the path through the secret tree and the ratchets of its leaves.
-- The two dictionaries are functions from a leaf to what is stored for it.
use pure_mls.Prelude.{
  ℕ, zero, suc, ◌+◌, ◌-◌, ◌*◌, ◌^◌, ◌/◌, bit_and, bit_or, bit_xor, Bool, true, false, Bytes, List,
  [], ◌∷◌, ◌++◌, length, replicate, Option, none, some, ltb, leb, if◌then◌else◌, ◌==◌, ◌&&◌, Result,
  ok, err, bind, value_error, out_of_fuel,
}
use pure_mls.Primitives.{Primitives, ascii}
use pure_mls.TreeMath.{bit_at, bit_length, level_loop}
use pure_mls.Tls.Ints.{pack}
use pure_mls.Hkdf.{expand_with_label}
use Prim.Native.String.{String}
pub mod Root
pub mod Ratchet
pub mod Sender
pub mod Coherence
pub mod Agreement

unfoldable pub log2 : ℕ → ℕ
log2 x = if x == 0 then 0 else bit_length x - 1

-- `_level`: an index has at most as many trailing ones as its value.
unfoldable pub level : ℕ → ℕ
level index = if bit_and index 0x01 == 0 then 0 else level_loop index 0 index

unfoldable pub root : ℕ → ℕ
unfolding log2
root n_leaves = 2 ^ log2 (2 * n_leaves - 1) - 1

-- `_left`; a leaf has no child, and the shift by -1 raises.
unfoldable pub left : ℕ → Result ℕ
left index =
    if level index == 0 then err value_error else ok (bit_xor index (0x01 * 2 ^ (level index - 1)))

unfoldable pub parent_step : ℕ → ℕ
parent_step index =
    let k = level index in
    bit_xor index (bit_or (0x01 * 2 ^ k) (bit_at index (k + 1) * 2 ^ (k + 1)))

unfoldable pub reparent : ℕ → ℕ → ℕ → Result ℕ
reparent zero w p = if leb w p then err out_of_fuel else ok p
reparent (suc fuel) w p = elim (leb w p) [ true ↦ reparent fuel w (parent_step p) | false ↦ ok p ]

-- `_parent`. The loop climbs; 64 rounds are more than a tree of 2 ^ 32 leaves has levels.
unfoldable pub parent : ℕ → ℕ → Result ℕ
parent index n_leaves =
    if leb n_leaves 1
    then ok 0
    else if index == root n_leaves
    then ok index
    else reparent 64 (2 * n_leaves - 1) (parent_step index)

pub data Direction : Type 0 where
  to_left : Direction
  to_right : Direction

-- The loop of `_get_path`, with `rounds` left of its 32; the list is turned round as it grows.
unfoldable pub climb : ℕ → ℕ → ℕ → List Direction → Result (List Direction)
climb zero n_leaves curr path = ok path
climb (suc rounds) n_leaves curr path = elim (curr == root n_leaves) [
  | true ↦ ok path
  | false ↦ bind (parent curr n_leaves) (λ p.
      bind (left p)
        (λ l. climb rounds n_leaves p ((if curr == l then to_left else to_right) ∷ path)))
]

unfoldable pub get_path : ℕ → ℕ → Result (List Direction)
unfolding climb
get_path target_leaf_index n_leaves = climb 32 n_leaves (target_leaf_index * 2) []

-- The two values that `secret_type` takes.
pub data SecretType : Type 0 where
  handshake : SecretType
  application : SecretType

abbrev pub type_label : SecretType → String
type_label handshake = "handshake"
type_label application = "application"

abbrev pub same_type : SecretType → SecretType → Bool
same_type handshake handshake = true
same_type handshake application = false
same_type application handshake = false
same_type application application = true

pub record SecretTree : Type 0 where
  pub encryption_secret : Bytes
  pub n_leaves : ℕ
  pub generations : ℕ → Option ℕ
  pub leaf_cache : ℕ → SecretType → Option (ℕ × Bytes)

-- `SecretTree(encryption_secret, n_leaves)`
unfoldable pub new : Bytes → ℕ → SecretTree
new secret n = record {
  encryption_secret = secret;
  n_leaves = n;
  generations = λ _. none;
  leaf_cache = λ _ _. none;
}

abbrev pub direction_label : Direction → Bytes
direction_label to_left = ascii "left"
direction_label to_right = ascii "right"

unfoldable pub down : Primitives → List Direction → Bytes → Result Bytes
down p [] secret = ok secret
down p (d ∷ ds) secret = bind (expand_with_label p secret "tree" (direction_label d) 32) (down p ds)

unfoldable pub derive_leaf_node_secret : Primitives → SecretTree → ℕ → Result Bytes
unfolding down
derive_leaf_node_secret p st leaf_index =
    bind (get_path leaf_index st.n_leaves) (λ path. down p path st.encryption_secret)

-- The rounds `g`, `g + 1`, … of the ratchet, `rounds` of them.
unfoldable pub ratchet : Primitives → ℕ → ℕ → Bytes → Result Bytes
ratchet p zero g secret = ok secret
ratchet p (suc rounds) g secret =
    bind (pack 4 g)
      (λ context. bind (expand_with_label p secret "secret" context 32) (ratchet p rounds (g + 1)))

-- `cache[secret_type] = (generation, secret)` of a leaf.
unfoldable pub store : SecretTree → ℕ → SecretType → ℕ × Bytes → SecretTree
store st leaf_index type tip = record st {
  leaf_cache = λ l t. if (l == leaf_index) && same_type t type then some tip else st.leaf_cache l t;
}

-- The secret of generation 0.
unfoldable pub first_secret : Primitives → SecretTree → ℕ → SecretType → Result Bytes
unfolding derive_leaf_node_secret
first_secret p st leaf_index type =
    bind (derive_leaf_node_secret p st leaf_index)
      (λ node. expand_with_label p node (type_label type) [] 32)

-- From the tip that the cache holds, or from generation 0. An exception leaves the state as it was.
unfoldable pub from_tip :
    Primitives → SecretTree → ℕ → ℕ → SecretType → Option (ℕ × Bytes) → Result (Bytes × SecretTree)
unfolding store
from_tip p st leaf_index generation type none = bind (first_secret p st leaf_index type) (λ first.
    bind (ratchet p generation 0 first)
      (λ secret. ok (secret, store st leaf_index type (generation, secret))))
from_tip p st leaf_index generation type (some (tip_gen, tip_secret)) =
    if tip_gen == generation
    then ok (tip_secret, st)
    else if ltb generation tip_gen
    then err value_error
    else bind (ratchet p (generation - tip_gen) tip_gen tip_secret)
        (λ secret. ok (secret, store st leaf_index type (generation, secret)))

unfoldable pub get_ratchet_secret :
    Primitives → SecretTree → ℕ → ℕ → SecretType → Result (Bytes × SecretTree)
unfolding from_tip
get_ratchet_secret p st leaf_index generation type =
    from_tip p st leaf_index generation type (st.leaf_cache leaf_index type)

-- The key and the nonce that a ratchet secret gives.
unfoldable pub key_and_nonce : Primitives → ℕ → Bytes → Result (Bytes × Bytes)
key_and_nonce p generation secret = bind (pack 4 generation) (λ context.
    bind (expand_with_label p secret "key" context 16)
      (λ key. bind (expand_with_label p secret "nonce" context 12) (λ nonce. ok (key, nonce))))

-- What the call returns or raises, and the tree behind it: the cache moves also where the key fails.
unfoldable pub get_key_and_nonce_for_gen :
    Primitives → SecretTree → ℕ → ℕ → SecretType → Result (Bytes × Bytes) × SecretTree
get_key_and_nonce_for_gen p st leaf_index generation type =
    elim (get_ratchet_secret p st leaf_index generation type) [
      | ok (secret, st') ↦ (key_and_nonce p generation secret, st')
      | err e ↦ (err e, st)
    ]

-- `self._generations.get(leaf_index, 0)`
unfoldable pub next_generation : SecretTree → ℕ → ℕ
next_generation st leaf_index = elim (st.generations leaf_index) [ none ↦ 0 | some g ↦ g ]

unfoldable pub count_up : SecretTree → ℕ → ℕ → SecretTree
count_up st leaf_index gen = record st {
  generations = λ l. if l == leaf_index then some (gen + 1) else st.generations l;
}

unfoldable pub get_key_and_nonce :
    Primitives → SecretTree → ℕ → SecretType → Result (Bytes × (Bytes × ℕ)) × SecretTree
unfolding next_generation count_up
get_key_and_nonce p st leaf_index type =
    let gen = next_generation st leaf_index in
    let (result, st') = get_key_and_nonce_for_gen p st leaf_index gen type in
    elim result [
      | ok (key, nonce) ↦ (ok (key, (nonce, gen)), count_up st' leaf_index gen)
      | err e ↦ (err e, st')
    ]

unfoldable pub wipe : SecretTree → SecretTree
wipe st = record st {
  encryption_secret = replicate (length st.encryption_secret) 0;
  generations = λ _. none;
  leaf_cache = λ _ _. none;
}

unfoldable pub derive_sender_data_key : Primitives → Bytes → Bytes → Result Bytes
derive_sender_data_key p sender_data_secret sample =
    expand_with_label p sender_data_secret "key" sample 16

unfoldable pub derive_sender_data_nonce : Primitives → Bytes → Bytes → Result Bytes
derive_sender_data_nonce p sender_data_secret sample =
    expand_with_label p sender_data_secret "nonce" sample 12
