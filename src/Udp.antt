-- ===== src/Udp.antt =====
-- src/core/udp.rs: the loops that receive datagrams and hand them to the workers.
pub mod Simulated
pub mod Direct
pub mod Callback
pub mod Wake
pub mod Routed
pub mod Server
pub mod Socket
pub mod State
pub mod Task
use sfo_reuseport.Prelude.{ℕ, List}
use sfo_reuseport.Net.{PacketMeta}

-- `UdpWorkItem`, less its socket, which is the one the loop receives on, and its permit, which the
-- router keeps beside it.
pub record UdpWorkItem : Type 0 where
  pub meta : PacketMeta
  pub payload : List ℕ
