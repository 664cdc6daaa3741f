-- ===== src/Platform/Binding.antt =====
-- src/platform/mod.rs: the sockets of a server, from the configuration to the bound socket, as the
-- order of the calls of the system. A socket is its descriptor.
pub mod Laws
pub mod Refusal
pub mod Quiet
pub mod Script
mod Tests
use sfo_reuseport.Prelude.{
  ℕ, zero, suc, Bool, true, false, List, [], ◌∷◌, Option, none, some, if◌then◌else◌,
}
use sfo_reuseport.Error.{Error, socket_init_callback, IoError}
use sfo_reuseport.Net.{SocketAddr, IpAddr, v4, v6}
use sfo_reuseport.Config.Socket.{SocketConfig}
use sfo_reuseport.System.{
  Domain, ipv4, ipv6, stream, dgram, socket, init_callback, set_reuse_address, set_nonblocking,
  bind, listen, Oracle, Action, pure, ask, ◌>>=◌, ◌>>◌,
}
use sfo_reuseport.Platform.Options.{Platform, capabilities, set_reuse_port, apply_transparent}

-- `socket2::Domain::for_address`.
abbrev pub for_address : IpAddr → Domain
for_address (v4 _) = ipv4
for_address (v6 _) = ipv6

-- The callback may fail with any error of the crate, of which the text is kept.
unfoldable pub apply_socket_init_callback :
    {F J S : Type 0} → Oracle F J → Option F → ℕ → Action F J S (Unit {0})
apply_socket_init_callback system none fd = pure tt
apply_socket_init_callback system (some callback) fd = ask system (init_callback callback fd)

-- `(0..workers).map(|_| bind).collect()`: the first failure ends it.
unfoldable pub collect : {F J S : Type 0} → Action F J S ℕ → ℕ → Action F J S (List ℕ)
collect bind_one zero = pure []
collect bind_one (suc workers) = do fd ← bind_one; rest ← collect bind_one workers; pure (fd ∷ rest)

unfoldable pub bind_workers :
    {F J S : Type 0} → Platform → Action F J S ℕ → ℕ → Action F J S (List ℕ)
unfolding collect capabilities
bind_workers p bind_one workers =
    if (capabilities p).reuse_port_balancing
    then collect bind_one workers
    else (bind_one >>= λ fd. pure (fd ∷ []))

module _ {F J S : Type 0} (system : Oracle F J) (p : Platform) where
  unfoldable pub apply_common_options : SocketConfig F → ℕ → Action F J S (Unit {0})
  unfolding set_reuse_port apply_transparent
  apply_common_options c fd =
      ask system (set_reuse_address fd c.socket_options.reuse_address)
      >> set_reuse_port system p fd
      >> apply_transparent system p c fd

  unfoldable pub bind_tcp : SocketConfig F → Action F J S ℕ
  unfolding apply_socket_init_callback apply_common_options
  bind_tcp c = do
    fd ← ask system (socket (for_address c.bind_addr.ip) stream)
    apply_socket_init_callback system c.socket_init_callback fd
    apply_common_options c fd
    ask system (bind fd c.bind_addr)
    ask system (listen fd 1024)
    ask system (set_nonblocking fd true)
    pure fd

  unfoldable pub bind_udp : SocketConfig F → Action F J S ℕ
  unfolding apply_socket_init_callback apply_common_options
  bind_udp c = do
    fd ← ask system (socket (for_address c.bind_addr.ip) dgram)
    apply_socket_init_callback system c.socket_init_callback fd
    apply_common_options c fd
    ask system (bind fd c.bind_addr)
    ask system (set_nonblocking fd true)
    pure fd

  unfoldable pub bind_tcp_workers : SocketConfig F → ℕ → Action F J S (List ℕ)
  unfolding bind_tcp bind_workers
  bind_tcp_workers c workers = bind_workers p (bind_tcp c) workers

  unfoldable pub bind_udp_workers : SocketConfig F → ℕ → Action F J S (List ℕ)
  unfolding bind_udp bind_workers
  bind_udp_workers c workers = bind_workers p (bind_udp c) workers
