-- ===== src/Platform/Linux.antt =====
-- src/platform/linux.rs.
pub mod Attach
pub mod Cbpf
pub mod Ebpf
mod Tests
pub mod Probe
pub mod OriginalDst
pub mod Quic
