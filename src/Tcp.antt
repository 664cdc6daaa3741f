-- ===== src/Tcp.antt =====
-- src/core/tcp.rs: the loops that accept connections and hand them to the workers.
pub mod Simulated
pub mod Direct
pub mod Server
pub mod State
