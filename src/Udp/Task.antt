-- ===== src/Udp/Task.antt =====
-- The tasks of the servers on UDP sockets, QUIC's among them: the closures that src/core/udp.rs and
-- src/core/quic.rs submit to the workers, with what they capture, and what they do once they run.
use sfo_reuseport.Prelude.{ℕ, Bool, true, false, List, [], Option, replicate}
use sfo_reuseport.Error.{Error, IoError, Result, ok, err, to_option}
use sfo_reuseport.Net.{SocketAddr, PacketMeta}
use sfo_reuseport.Schedule.{linux_reuseport_select}
use sfo_reuseport.Dispatch.{Datagram, Round, Flow, Router, worker_limits}
use sfo_reuseport.Listen.{Turn, Listener, listener}
use sfo_reuseport.Work.{Worker, WorkRound, idle, udp_state_dispatch_loop}
use sfo_reuseport.Udp.{UdpWorkItem}
use sfo_reuseport.Udp.Direct.{udp_listener_loop_with_state}
use sfo_reuseport.Udp.Simulated.{simulated_udp_listener_loop}
use sfo_reuseport.Udp.Callback.{CallbackRound, Queues, dispatch_socket_only_packets}
use sfo_reuseport.Udp.State.{UdpServerState, register_listener_socket}
use sfo_reuseport.Quic.Route.{quic_worker_index}
use sfo_reuseport.Quic.Routed.{quic_routed_udp_listener_loop}
use sfo_reuseport.Quic.Direct.{quic_reuseport_bpf_listener_loop_with_state}

-- The function that a server gives to the dispatcher of its callbacks.
pub data RouteBy : Type 0 where
  hash connection_id : RouteBy

unfoldable pub route_packet : RouteBy → List ℕ → PacketMeta → ℕ → Option ℕ
unfolding linux_reuseport_select quic_worker_index
route_packet hash packet meta worker_count = to_option (linux_reuseport_select meta worker_count)
route_packet connection_id packet meta worker_count = quic_worker_index packet worker_count

-- A task for a worker that receives on a socket of its own, for QUIC with the number of workers; for a
-- worker that is sent its work; for the worker that receives for all of them; for a callback on a
-- socket of its own, or on one that packets are routed to; for the dispatcher that feeds those.
pub data UdpTask : Type 0 where
  listen_on : ℕ → Option ℕ → Bool → UdpTask
  quic_listen_on : ℕ → ℕ → Option ℕ → UdpTask
  dispatch_work : ℕ → UdpTask
  receive_on : ℕ → ℕ → Option ℕ → Bool → UdpTask
  quic_receive_on : ℕ → ℕ → Option ℕ → UdpTask
  call_on : ℕ → ℕ → UdpTask
  call_routed : ℕ → ℕ → SocketAddr → ℕ → UdpTask
  feed_callbacks : RouteBy → ℕ → SocketAddr → ℕ → Bool → UdpTask

-- Which registry a task is put in.
abbrev pub is_callback : UdpTask → Bool
is_callback (call_on _ _) = true
is_callback (call_routed _ _ _ _) = true
is_callback _ = false

-- What a task meets: its thread, the answers to the two `try_clone` and to `udp_socket_from_std`, the
-- address that its socket answers, and the turns or rounds of its loop.
pub record Surroundings : Type 0 where
  pub thread : ℕ
  pub thread_clone : Result IoError ℕ
  pub pool_clone : Result IoError ℕ
  pub from_std : Result IoError ℕ
  pub local_addr : Option SocketAddr
  pub turns : List (Turn Datagram)
  pub works : List (WorkRound UdpWorkItem)
  pub rounds : List (Round Datagram)
  pub callback_rounds : List CallbackRound

-- What a task has run: nothing, one of the loops, or the user's callback, on a socket of the runtime
-- or on a routed one with this sender, with the number of its worker.
pub data UdpRun : Type 0 where
  returned : UdpRun
  listened : Flow (Listener UdpWorkItem) → UdpRun
  dispatched : Flow (Worker UdpWorkItem) → UdpRun
  received : Flow (Router UdpWorkItem) → UdpRun
  called : ℕ → ℕ → UdpRun
  called_routed : ℕ → ℕ → UdpRun
  fed : Flow Queues → UdpRun

-- `let Ok(socket) = udp_socket_from_std(socket) else { return; };` and the rest.
unfoldable pub from_std : Result IoError ℕ → (ℕ → UdpRun) → UdpRun
from_std (err _) body = returned
from_std (ok socket) body = body socket

-- `if register_listener_socket(&socket).is_err() { return; }` and the rest.
unfoldable pub once_registered :
    UdpServerState × Result Error (Unit {0}) → UdpRun → UdpServerState × UdpRun
once_registered (s, err _) run = (s, returned)
once_registered (s, ok _) run = (s, run)

-- The beginning of every task that receives on a socket of the server.
unfoldable pub on_socket : Surroundings → (ℕ → UdpRun) → UdpServerState → UdpServerState × UdpRun
unfolding from_std once_registered register_listener_socket
on_socket e body s =
    once_registered (register_listener_socket e.thread e.thread_clone e.pool_clone s)
      (from_std e.from_std body)

abbrev pub free_router : ℕ → Option ℕ → Router UdpWorkItem
unfolding worker_limits
free_router worker_count max = record {
  limits = worker_limits worker_count max;
  sent = replicate worker_count [];
}

-- The bodies of the tasks, on the state of their server.
unfoldable pub run_task : UdpTask → Surroundings → UdpServerState → UdpServerState × UdpRun
unfolding on_socket from_std udp_listener_loop_with_state
    quic_reuseport_bpf_listener_loop_with_state udp_state_dispatch_loop simulated_udp_listener_loop
    quic_routed_udp_listener_loop dispatch_socket_only_packets route_packet
run_task (listen_on _ max _) e =
    on_socket e (λ _. listened (udp_listener_loop_with_state e.turns (listener max)))
run_task (quic_listen_on _ worker_count max) e = on_socket e (λ _.
    listened (
      quic_reuseport_bpf_listener_loop_with_state e.local_addr worker_count e.turns (listener max)))
run_task (dispatch_work _) e = λ s. (s, dispatched (udp_state_dispatch_loop e.works idle))
run_task (receive_on _ worker_count max _) e = on_socket e (λ _.
    received (simulated_udp_listener_loop worker_count e.rounds (free_router worker_count max)))
run_task (quic_receive_on _ worker_count max) e = on_socket e (λ _. received (
    quic_routed_udp_listener_loop e.local_addr worker_count e.rounds
      (free_router worker_count max)))
run_task (call_on _ worker_id) e = on_socket e (λ socket. called socket worker_id)
run_task (call_routed sender worker_id _ _) e = λ s. (s, called_routed sender worker_id)
run_task (feed_callbacks by _ addr worker_count transparent) e = λ s. (
  s,
  from_std e.from_std (λ _. fed (
      dispatch_socket_only_packets (route_packet by) addr worker_count transparent e.callback_rounds
        (replicate worker_count []))),
)
