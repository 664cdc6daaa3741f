-- ===== src/Config/Socket.antt =====
-- src/core/config.rs, the trait `SocketConfig`: what the binding of a socket reads of a
-- configuration, as a record with one field per method.
use sfo_reuseport.Prelude.{Option}
use sfo_reuseport.Net.{SocketAddr}
use sfo_reuseport.Config.{SocketOptions}
use sfo_reuseport.Config.Tcp.{TcpServiceConfig}
use sfo_reuseport.Config.Udp.{UdpServiceConfig}

pub record SocketConfig (F : Type 0) : Type 0 where
  pub bind_addr : SocketAddr
  pub socket_options : SocketOptions
  pub socket_init_callback : Option F

abbrev pub of_tcp : {F : Type 0} → TcpServiceConfig F → SocketConfig F
of_tcp c = record {
  bind_addr = c.bind_addr;
  socket_options = c.socket_options;
  socket_init_callback = c.socket_init_callback;
}

abbrev pub of_udp : {F : Type 0} → UdpServiceConfig F → SocketConfig F
of_udp c = record {
  bind_addr = c.bind_addr;
  socket_options = c.socket_options;
  socket_init_callback = c.socket_init_callback;
}
