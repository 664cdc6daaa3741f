-- ===== src/Platform/Linux/Quic.antt =====
-- `bind_quic_udp_reuseport_workers` of src/platform/linux.rs: the sockets of the workers behind a
-- kernel program. `none` tells the caller to dispatch by itself. Whether a program can be attached to
-- the first socket for a number of workers, and whether the probe is routed, are parameters.
pub mod Laws
pub mod Own
mod Tests
use sfo_reuseport.Prelude.{
  ℕ, zero, suc, ◌&&◌, ◌||◌, Bool, true, false, List, [], ◌∷◌, Option, none, some, if◌then◌else◌,
}
use sfo_reuseport.Error.{invalid_config, text}
use sfo_reuseport.Net.{SocketAddr}
use sfo_reuseport.Config.Socket.{SocketConfig}
use sfo_reuseport.System.{local_addr, Oracle, Action, pure, raise, ask, optional, ◌>>=◌, ◌>>◌}
use sfo_reuseport.Platform.Options.{linux}
use sfo_reuseport.Platform.Binding.{bind_udp}

module _ {F J S : Type 0} (system : Oracle F J) (attach_ebpf attach_cbpf : ℕ → ℕ → Bool)
    (routes_probe : List ℕ → SocketAddr → Bool) where
  -- One more socket, where it was bound.
  unfoldable pub add_socket :
      Option ℕ → Action F J S (Option (List ℕ)) → Action F J S (Option (List ℕ))
  add_socket none rest = pure none
  add_socket (some socket) rest =
      rest >>= λ sockets. pure (elim sockets [ none ↦ none | some l ↦ some (socket ∷ l) ])

  -- The sockets after the first; the first failure ends the loop.
  unfoldable pub bind_rest : SocketConfig F → ℕ → Action F J S (Option (List ℕ))
  unfolding bind_udp add_socket
  bind_rest c zero = pure (some [])
  bind_rest c (suc count) =
      optional (bind_udp system linux c) >>= λ socket. add_socket socket (bind_rest c count)

  -- The program is attached to the first socket, eBPF before classic BPF, and then tested.
  unfoldable pub selected : ℕ → SocketAddr → ℕ → Option (List ℕ) → Action F J S (Option (List ℕ))
  selected first bind_addr workers none = pure none
  selected first bind_addr workers (some rest) =
      if (attach_ebpf first workers || attach_cbpf first workers)
        && routes_probe (first ∷ rest) bind_addr
      then pure (some (first ∷ rest))
      else pure none

  unfoldable pub with_first : SocketConfig F → ℕ → Option ℕ → Action F J S (Option (List ℕ))
  unfolding bind_rest selected
  with_first c count none = pure none
  with_first c count (some first) = do
    bind_addr ← ask system (local_addr first)
    rest ← bind_rest (record c { bind_addr = bind_addr }) count
    selected first bind_addr (suc count) rest

  -- By whether the environment variable that disables the programs is set.
  unfoldable pub bind_quic_udp_reuseport_workers :
      Bool → SocketConfig F → ℕ → Action F J S (Option (List ℕ))
  unfolding bind_udp with_first
  bind_quic_udp_reuseport_workers true c workers = pure none
  bind_quic_udp_reuseport_workers false c zero =
      raise (invalid_config (text "worker count must be greater than zero"))
  bind_quic_udp_reuseport_workers false c (suc count) =
      optional (bind_udp system linux c) >>= with_first c count
