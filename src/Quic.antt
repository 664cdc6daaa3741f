-- ===== src/Quic.antt =====
-- src/core/quic.rs: the QUIC servers.
pub mod Server
pub mod Route
pub mod Routed
pub mod Direct
