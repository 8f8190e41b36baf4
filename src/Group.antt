-- ===== src/Group.antt =====
-- src/pure_mls/group.py: the structures on the wire and the operations of a group.
pub mod Dict
pub mod Context
pub mod Secrets
pub mod Welcome
pub mod Info
pub mod Path
pub mod Framing
pub mod Update
pub mod Message
pub mod State
pub mod Application
pub mod Commit
pub mod Member
pub mod Receive
pub mod Join
pub mod Stored
