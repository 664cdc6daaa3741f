-- ===== src/Platform.antt =====
-- src/platform: what the operating system provides, and how the crate asks for it.
pub mod Bpf
pub mod Binding
pub mod Linux
pub mod Options
