-- ===== src/Config/Udp.antt =====
-- src/core/config.rs, `UdpServiceConfig`. `F` is the type of socket initialisation callbacks, which
-- the configuration only carries.
use sfo_reuseport.Prelude.{ℕ, ◌==◌, Option, none, some, if◌then◌else◌}
use sfo_reuseport.Error.{Error, invalid_config, text, Result, ok, err}
use sfo_reuseport.Net.{SocketAddr}
use sfo_reuseport.Config.{
  SocketOptions, default_socket_options, default_routed_packet_channel_capacity,
}

pub record UdpServiceConfig (F : Type 0) : Type 0 where
  pub bind_addr : SocketAddr
  pub socket_options : SocketOptions
  pub socket_init_callback : Option F
  pub max_concurrency_per_worker : Option ℕ
  pub routed_packet_channel_capacity : ℕ

-- The methods of `UdpServiceConfig`.
module _ {F : Type 0} where
  unfoldable pub new : SocketAddr → UdpServiceConfig F
  new addr = record {
    bind_addr = addr;
    socket_options = default_socket_options;
    socket_init_callback = none;
    max_concurrency_per_worker = none;
    routed_packet_channel_capacity = default_routed_packet_channel_capacity;
  }

  unfoldable pub with_socket_options : UdpServiceConfig F → SocketOptions → UdpServiceConfig F
  with_socket_options c o = record c { socket_options = o }

  unfoldable pub with_socket_init_callback : UdpServiceConfig F → F → UdpServiceConfig F
  with_socket_init_callback c f = record c { socket_init_callback = some f }

  unfoldable pub without_socket_init_callback : UdpServiceConfig F → UdpServiceConfig F
  without_socket_init_callback c = record c { socket_init_callback = none }

  unfoldable pub with_max_concurrency_per_worker : UdpServiceConfig F → ℕ → UdpServiceConfig F
  with_max_concurrency_per_worker c max = record c { max_concurrency_per_worker = some max }

  unfoldable pub with_routed_packet_channel_capacity : UdpServiceConfig F → ℕ → UdpServiceConfig F
  with_routed_packet_channel_capacity c capacity = record c {
    routed_packet_channel_capacity = capacity;
  }

  unfoldable pub validate_routed_packet_channel_capacity :
      UdpServiceConfig F → Result Error (Unit {0})
  validate_routed_packet_channel_capacity c =
      if c.routed_packet_channel_capacity == 0
      then err (invalid_config (text "routed packet channel capacity must be greater than zero"))
      else ok tt

  unfoldable pub validate : UdpServiceConfig F → Result Error (Unit {0})
  unfolding validate_routed_packet_channel_capacity
  validate c = validate_routed_packet_channel_capacity c
