-- ===== src/Config.antt =====
-- src/core/config.rs: the socket options and the configuration of the worker runtime. The children
-- hold the configurations of TCP and UDP services.
pub mod Socket
pub mod Tcp
pub mod Udp
use sfo_reuseport.Prelude.{ℕ, ◌==◌, Bool, true, false, if◌then◌else◌}
use sfo_reuseport.Error.{Error, invalid_config, text, Result, ok, err}

abbrev pub default_routed_packet_channel_capacity : ℕ
default_routed_packet_channel_capacity = 4096

pub data TransparentMode : Type 0 where
  disabled required best_effort : TransparentMode

pub record SocketOptions : Type 0 where
  pub reuse_address : Bool
  pub ipv4_transparent : TransparentMode
  pub ipv6_transparent : TransparentMode

abbrev pub default_socket_options : SocketOptions
default_socket_options = record {
  reuse_address = true;
  ipv4_transparent = disabled;
  ipv6_transparent = disabled;
}

pub data WorkerCount : Type 0 where
  default : WorkerCount
  fixed : ℕ → WorkerCount

pub record ServerRuntimeConfig : Type 0 where
  pub workers : WorkerCount

-- The methods of `ServerRuntimeConfig`.
unfoldable pub new : ServerRuntimeConfig
new = record { workers = default }

unfoldable pub with_workers : ServerRuntimeConfig → ℕ → ServerRuntimeConfig
with_workers c workers = record c { workers = fixed workers }

abbrev is_fixed_zero : WorkerCount → Bool
is_fixed_zero default = false
is_fixed_zero (fixed n) = n == 0

unfoldable pub validate : ServerRuntimeConfig → Result Error (Unit {0})
validate c =
    if is_fixed_zero c.workers
    then err (invalid_config (text "worker count must be greater than zero"))
    else ok tt
