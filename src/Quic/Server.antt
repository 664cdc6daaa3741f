-- ===== src/Quic/Server.antt =====
-- `QuicServer` of src/core/quic.rs and the functions that add its listeners: behind a kernel program
-- where the platform has it and it passes its test, or else on one socket.
pub mod Chosen
pub mod Invalid
pub mod Laws
pub mod Own
pub mod Serve
mod Tests
use sfo_reuseport.Prelude.{
  ℕ, zero, suc, Bool, true, false, List, Option, none, some, length, get_elem?, if◌then◌else◌,
}
use sfo_reuseport.Net.{SocketAddr}
use sfo_reuseport.Config.Udp.{UdpServiceConfig}
use sfo_reuseport.Config.Socket.{SocketConfig, of_udp}
use sfo_reuseport.System.{Oracle, Action, pure, update, for_each, for_range, ◌>>=◌, ◌>>◌}
use sfo_reuseport.Server.{ServerRuntime, worker_count}
use sfo_reuseport.Server.Setup.{
  worker_executors, ensure_simulation, ensure_some, executor_of, submit_to_executor,
  submit_to_worker,
}
use sfo_reuseport.Platform.Options.{Platform, linux, bsd, windows, capabilities}
use sfo_reuseport.Platform.Binding.{bind_udp}
use sfo_reuseport.Platform.Linux.Quic.{bind_quic_udp_reuseport_workers}
use sfo_reuseport.Udp.State.{UdpServerState, register_task, register_callback_task}
use sfo_reuseport.Udp.Task.{
  UdpTask, connection_id, quic_listen_on, dispatch_work, quic_receive_on, call_on,
}
use sfo_reuseport.Udp.Server.{validated, add_socket_callback_simulated_listener}

-- What the kernel answers about its programs: whether the environment disables them, whether either
-- can be attached to a socket for a number of workers, and whether the probe is routed.
pub record Kernel : Type 0 where
  pub disabled : Bool
  pub attach_ebpf : ℕ → ℕ → Bool
  pub attach_cbpf : ℕ → ℕ → Bool
  pub routes_probe : List ℕ → SocketAddr → Bool

-- `platform::bind_quic_udp_reuseport_workers`: only Linux has the programs.
unfoldable pub bind_quic_workers :
    {F J S : Type 0}
    → Oracle F J
    → Kernel
    → Platform
    → SocketConfig F
    → ℕ
    → Action F J S (Option (List ℕ))
unfolding bind_quic_udp_reuseport_workers
bind_quic_workers system k linux c workers =
    bind_quic_udp_reuseport_workers system k.attach_ebpf k.attach_cbpf k.routes_probe k.disabled c
      workers
bind_quic_workers system k bsd c workers = pure none
bind_quic_workers system k windows c workers = pure none

module _ {F : Type 0} (system : Oracle F UdpTask) (k : Kernel) (p : Platform) (tokio : Bool)
    (r : ServerRuntime) (c : UdpServiceConfig F) where
  -- The loop over the sockets that were bound, if they were.
  unfoldable pub with_callbacks : Option (List ℕ) → Action F UdpTask UdpServerState Bool
  unfolding for_each worker_executors submit_to_executor register_callback_task
  with_callbacks none = pure false
  with_callbacks (some sockets) =
      ensure_some sockets
      >> for_each
          (λ worker_id socket.
            executor_of (get_elem? (worker_executors r) worker_id) >>= λ executor.
            submit_to_executor system executor (call_on socket worker_id) >>= λ task.
            update (register_callback_task task))
          0 sockets
      >> pure true

  unfoldable pub add_quic_socket_callback_reuseport_bpf_listener :
      Action F UdpTask UdpServerState Bool
  unfolding bind_quic_workers worker_count with_callbacks
  add_quic_socket_callback_reuseport_bpf_listener =
      bind_quic_workers system k p (of_udp c) (worker_count r) >>= with_callbacks

  unfoldable pub add_quic_socket_callback_listener : Action F UdpTask UdpServerState (Unit {0})
  unfolding capabilities add_quic_socket_callback_reuseport_bpf_listener
      add_socket_callback_simulated_listener
  add_quic_socket_callback_listener =
      (if (capabilities p).reuse_port_balancing
        then add_quic_socket_callback_reuseport_bpf_listener
        else pure false)
      >>= λ added.
          if added
          then pure tt
          else add_socket_callback_simulated_listener system p tokio r c connection_id

  unfoldable pub with_listeners : Option (List ℕ) → Action F UdpTask UdpServerState Bool
  unfolding for_each worker_count submit_to_worker register_task
  with_listeners none = pure false
  with_listeners (some sockets) =
      ensure_some sockets
      >> for_each
          (λ worker_id socket.
            submit_to_worker system r worker_id
              (quic_listen_on socket (worker_count r) c.max_concurrency_per_worker)
            >>= λ task. update (register_task task))
          0 sockets
      >> pure true

  unfoldable pub add_quic_reuseport_bpf_listener_with_state : Action F UdpTask UdpServerState Bool
  unfolding bind_quic_workers worker_count with_listeners
  add_quic_reuseport_bpf_listener_with_state =
      bind_quic_workers system k p (of_udp c) (worker_count r) >>= with_listeners

  unfoldable pub add_quic_simulated_listener_with_state : Action F UdpTask UdpServerState (Unit {0})
  unfolding bind_udp for_range worker_executors submit_to_executor submit_to_worker register_task
  add_quic_simulated_listener_with_state = do
    ensure_simulation
    socket ← bind_udp system p (of_udp c)
    let worker_count = length (worker_executors r)
    for_range
        (λ worker_id. executor_of (get_elem? (worker_executors r) worker_id) >>= λ executor.
          submit_to_executor system executor (dispatch_work worker_id) >>= λ task.
          update (register_task task))
        worker_count
    task ←
        submit_to_worker system r 0
          (quic_receive_on socket worker_count c.max_concurrency_per_worker)
    update (register_task task)

  unfoldable pub add_quic_reuseport_listener_with_state : Action F UdpTask UdpServerState (Unit {0})
  unfolding add_quic_reuseport_bpf_listener_with_state add_quic_simulated_listener_with_state
  add_quic_reuseport_listener_with_state = add_quic_reuseport_bpf_listener_with_state >>= λ added.
      if added then pure tt else add_quic_simulated_listener_with_state

  unfoldable pub add_quic_routed_listener_with_state : Action F UdpTask UdpServerState (Unit {0})
  unfolding capabilities add_quic_reuseport_listener_with_state
      add_quic_simulated_listener_with_state
  add_quic_routed_listener_with_state =
      if (capabilities p).reuse_port_balancing
      then add_quic_reuseport_listener_with_state
      else add_quic_simulated_listener_with_state

  unfoldable pub serve_with_state : Action F UdpTask UdpServerState (Unit {0})
  unfolding validated add_quic_routed_listener_with_state
  serve_with_state = validated c >> add_quic_routed_listener_with_state

  unfoldable pub serve_socket : Action F UdpTask UdpServerState (Unit {0})
  unfolding validated add_quic_socket_callback_listener
  serve_socket = validated c >> add_quic_socket_callback_listener
