-- ===== src/Tls.antt =====
-- src/pure_mls/tls.py: the TLS presentation language, in parts.
pub mod Ints
pub mod Opaque
pub mod Extension
