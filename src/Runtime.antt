-- ===== src/Runtime.antt =====
-- src/runtime: the executors that run the workers' tasks, and the sockets, over tokio and async-std.
pub mod Adapter
pub mod AsyncStd
pub mod Net
pub mod Tokio
