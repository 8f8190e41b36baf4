-- ===== src/Lib.antt =====
-- pure_mls: a model of the Python package pure_mls, an implementation of Messaging Layer Security
-- (RFC 9420), and proofs about it. Paths are from the root of the repository.
--
-- The parts of the program and the modules that model them:
--   src/pure_mls/tls.py          Tls/Ints (fixed-width integers), Tls/Opaque (VarInt and vectors),
--                                Tls/Extension
--   src/pure_mls/extensions.py   Capabilities
--   src/pure_mls/tree.py         Node/Credential, Node/Leaf, Node/KeyPackage, Node/Parent (what
--                                stands in a tree), TreeMath (array arithmetic), Tree (RatchetTree:
--                                its list of nodes, paths, resolution, removal), Tree/Wire (to_bytes,
--                                _parse), Tree/Hash (tree_hash)
--   src/pure_mls/crypto.py       Tree/Hash
--   src/pure_mls/hkdf.py         Hkdf
--   src/pure_mls/keyschedule.py  KeySchedule
--   src/pure_mls/secret_tree.py  SecretTree
--   src/pure_mls/proposals.py    Proposals
--   src/pure_mls/epoch.py        Epoch
--   src/pure_mls/codecs.py       Codecs
--   src/pure_mls/keys.py         Keys
--   src/pure_mls/hpke.py         Hpke
--   src/pure_mls/group.py        Group/Context, Group/Secrets, Group/Welcome, Group/Info, Group/Path,
--                                Group/Framing, Group/Update, Group/Message (what is sent), Group/State
--                                (MLSGroup), Group/Commit (what the three commits share), Group/Member
--                                (update_key, remove_member, add_member), Group/Receive
--                                (process_update), Group/Join (join), Group/Application (application
--                                messages), Group/Stored (to_bytes, from_bytes), Group/Dict (sets and
--                                dictionaries of byte strings)
-- Prelude holds the shared types and lemmas, Wire the decoders as such: a Reader takes a buffer and an
-- offset and gives a value and the next offset, or an error; Wire/RoundTrip and Wire/Steps are the laws
-- that the proofs on each structure are built from. Examples holds concrete runs.
--
-- How the code corresponds: bytes are lists of natural numbers, a Python exception is a value of
-- Error in a Result, and an object that the code changes is a record that the operation returns. A
-- function keeps the name that it has in the code, without a leading underscore. A method of MLSGroup
-- gives what it returns or raises, and the group that it was called on. What the code draws at random
-- is an argument: Fresh holds it for a commit.
--
-- Parameters: Primitives stands for hashlib, hmac and the checks of the cryptography package, Ciphers
-- for its private keys, X25519 and AES-GCM. What a theorem relies on is a named hypothesis:
-- HasDigestSize (HMAC-SHA-256 gives 32 bytes), Signs (the public key accepts what the signing function
-- makes), Agrees (both sides of an exchange get one secret) and Decrypts (AES-GCM decrypts what it
-- encrypted).
--
-- Fuel: a loop over a buffer of n bytes gets n rounds, since each round takes a byte; the loops that
-- climb a tree get 64 rounds, more than a tree of 2 ^ 32 leaves has levels; `while p < n: p <<= 1` gets
-- n rounds. Depth limits of the code (32 in resolution and in the secret tree's path) are kept.
--
-- Not modelled: src/pure_mls/storage.py and src/pure_mls/cli.py, which are I/O and argument parsing, and
-- the scripts. Of src/pure_mls/group.py: WelcomeInfo, MLSGroup.application_key and apply_commit, which
-- are an old interface, an accessor and an alias, and the field _raw_data, which keeps the bytes that
-- were read. The text of exception messages is left out everywhere.
pub mod Prelude
pub mod Wire
pub mod Tls
pub mod Capabilities
pub mod Node
pub mod Primitives
pub mod TreeMath
pub mod Tree
pub mod Proposals
pub mod Hkdf
pub mod KeySchedule
pub mod SecretTree
pub mod Epoch
pub mod Codecs
pub mod Examples
pub mod Ciphers
pub mod Keys
pub mod Hpke
pub mod Group
