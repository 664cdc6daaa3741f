-- ===== src/Quic/Server/Chosen.antt =====
-- The functions that add the listeners of a QUIC server, by the calls that they make.
use sfo_reuseport.Prelude.{ℕ, refl, Bool, length, if◌then◌else◌}
use sfo_reuseport.Config.Udp.{UdpServiceConfig}
use sfo_reuseport.System.{Oracle, World, pure, ◌>>=◌}
use sfo_reuseport.System.Submitted.{worker-Keeps, executor-Keeps}
use sfo_reuseport.Server.{ServerRuntime, worker_count}
use sfo_reuseport.Server.Setup.{worker_executors}
use sfo_reuseport.Platform.Options.{
  Platform, linux, bsd, windows, capabilities, supports_reuse_port_balancing,
}
use sfo_reuseport.Udp.State.{UdpServerState, register_task, register_callback_task}
use sfo_reuseport.Udp.Task.{UdpTask, connection_id, quic_listen_on, call_on}
use sfo_reuseport.Udp.Server.{add_socket_callback_simulated_listener}
use sfo_reuseport.Udp.Server.Registry.{Holds, task-Registers, callback-Registers}
use sfo_reuseport.Udp.Server.Laws.{callback_simulated-Keeps}
use sfo_reuseport.Quic.Server.{
  Kernel, with_callbacks, with_listeners, add_quic_socket_callback_reuseport_bpf_listener,
  add_quic_socket_callback_listener, add_quic_reuseport_bpf_listener_with_state,
  add_quic_simulated_listener_with_state, add_quic_reuseport_listener_with_state,
  add_quic_routed_listener_with_state,
}
use sfo_reuseport.Quic.Server.Laws.{simulated-Keeps}
use sfo_reuseport.Quic.Server.Own.{Received, Fed, Chooses, chosen-Chooses, unbound-Chooses}

module _ {F : Type 0} (system : Oracle F UdpTask) (k : Kernel) (tokio : Bool) (r : ServerRuntime)
    (c : UdpServiceConfig F) where
  abbrev quic_job : ℕ → ℕ → UdpTask
  quic_job _ socket = quic_listen_on socket (length r.workers) c.max_concurrency_per_worker

  reuseport-Chooses :
      (p : Platform) (w : World F UdpTask UdpServerState)
      → Chooses k r c quic_job p
          (Received r c)
          w
          (add_quic_reuseport_listener_with_state system k p tokio r c w)
  unfolding add_quic_reuseport_listener_with_state add_quic_reuseport_bpf_listener_with_state
      with_listeners worker_count
  reuseport-Chooses p =
      chosen-Chooses k r c quic_job _
        (λ id x.
          worker-Keeps system Holds (quic_job id x) register_task (task-Registers _ refl) r id)
        (Received r c) (add_quic_simulated_listener_with_state system k p tokio r c)
        (simulated-Keeps system k tokio r c p) system tokio p

  receiver-Chooses :
      (p : Platform) (w : World F UdpTask UdpServerState)
      → Chooses k r c quic_job p
          (Received r c)
          w
          (add_quic_simulated_listener_with_state system k p tokio r c w)
  receiver-Chooses p =
      unbound-Chooses k r c quic_job _
        (λ id x.
          worker-Keeps system Holds (quic_job id x) register_task (task-Registers _ refl) r id)
        (Received r c) (add_quic_simulated_listener_with_state system k p tokio r c)
        (simulated-Keeps system k tokio r c p) p

  pub routed-Chooses :
      (p : Platform) (w : World F UdpTask UdpServerState)
      → Chooses k r c quic_job p
          (Received r c)
          w
          (add_quic_routed_listener_with_state system k p tokio r c w)
  unfolding add_quic_routed_listener_with_state capabilities supports_reuse_port_balancing
  routed-Chooses linux = reuseport-Chooses linux
  routed-Chooses bsd = reuseport-Chooses bsd
  routed-Chooses windows = receiver-Chooses windows

  chosen_callbacks-Chooses :
      (p : Platform) (w : World F UdpTask UdpServerState)
      → Chooses k r c
          (λ id socket. call_on socket id)
          p
          (Fed p tokio r c)
          w
          ((add_quic_socket_callback_reuseport_bpf_listener system k p tokio r c >>= λ added.
              if added
              then pure tt
              else add_socket_callback_simulated_listener system p tokio r c connection_id)
            w)
  unfolding add_quic_socket_callback_reuseport_bpf_listener with_callbacks worker_count
      worker_executors
  chosen_callbacks-Chooses p =
      chosen-Chooses k r c (λ id socket. call_on socket id) _
        (λ id x.
          executor-Keeps system Holds (call_on x id) register_callback_task
            (callback-Registers _ refl) r id)
        (Fed p tokio r c) (add_socket_callback_simulated_listener system p tokio r c connection_id)
        (callback_simulated-Keeps system tokio r c p connection_id) system tokio p

  pub callback-Chooses :
      (p : Platform) (w : World F UdpTask UdpServerState)
      → Chooses k r c
          (λ id socket. call_on socket id)
          p
          (Fed p tokio r c)
          w
          (add_quic_socket_callback_listener system k p tokio r c w)
  unfolding add_quic_socket_callback_listener capabilities supports_reuse_port_balancing
  callback-Chooses linux = chosen_callbacks-Chooses linux
  callback-Chooses bsd = chosen_callbacks-Chooses bsd
  callback-Chooses windows =
      unbound-Chooses k r c (λ id socket. call_on socket id) _
        (λ id x.
          executor-Keeps system Holds (call_on x id) register_callback_task
            (callback-Registers _ refl) r id)
        (Fed windows tokio r c)
        (add_socket_callback_simulated_listener system windows tokio r c connection_id)
        (callback_simulated-Keeps system tokio r c windows connection_id) windows
