-- ===== src/Config/Tcp.antt =====
-- src/core/config.rs, `TcpServiceConfig`. `F` is the type of socket initialisation callbacks, which
-- the configuration only carries.
use sfo_reuseport.Prelude.{ℕ, Option, none, some}
use sfo_reuseport.Error.{Error, Result, ok}
use sfo_reuseport.Net.{SocketAddr}
use sfo_reuseport.Config.{SocketOptions, default_socket_options}

pub record TcpServiceConfig (F : Type 0) : Type 0 where
  pub bind_addr : SocketAddr
  pub socket_options : SocketOptions
  pub socket_init_callback : Option F
  pub max_concurrency_per_worker : Option ℕ

-- The methods of `TcpServiceConfig`.
module _ {F : Type 0} where
  unfoldable pub new : SocketAddr → TcpServiceConfig F
  new addr = record {
    bind_addr = addr;
    socket_options = default_socket_options;
    socket_init_callback = none;
    max_concurrency_per_worker = none;
  }

  unfoldable pub with_socket_options : TcpServiceConfig F → SocketOptions → TcpServiceConfig F
  with_socket_options c o = record c { socket_options = o }

  unfoldable pub with_socket_init_callback : TcpServiceConfig F → F → TcpServiceConfig F
  with_socket_init_callback c f = record c { socket_init_callback = some f }

  unfoldable pub without_socket_init_callback : TcpServiceConfig F → TcpServiceConfig F
  without_socket_init_callback c = record c { socket_init_callback = none }

  unfoldable pub with_max_concurrency_per_worker : TcpServiceConfig F → ℕ → TcpServiceConfig F
  with_max_concurrency_per_worker c max = record c { max_concurrency_per_worker = some max }

  unfoldable pub validate : TcpServiceConfig F → Result Error (Unit {0})
  validate c = ok tt
