-- ===== src/Node.antt =====
-- src/pure_mls/tree.py, the structures that the ratchet tree holds.
pub mod Credential
pub mod Leaf
pub mod KeyPackage
pub mod Parent
