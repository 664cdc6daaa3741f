-- ===== src/Udp/Server.antt =====
-- `UdpServer` of src/core/udp.rs and the functions that add its listeners, as the order of what they
-- ask of the system and of the workers.
pub mod Close
pub mod Laws
pub mod Registry
pub mod Serve
mod Tests
use sfo_reuseport.Prelude.{
  ℕ, zero, suc, ◌||◌, Bool, true, false, not, List, length, get_elem?, if◌then◌else◌,
}
use sfo_reuseport.Error.{Error, Result, ok, err}
use sfo_reuseport.Config.{TransparentMode, disabled, required, best_effort}
use sfo_reuseport.Config.Udp.{UdpServiceConfig, validate, validate_routed_packet_channel_capacity}
use sfo_reuseport.Config.Socket.{of_udp}
use sfo_reuseport.System.{
  local_addr, try_clone, Oracle, Action, pure, raise, lift, ask, update, for_each, for_range, ◌>>=◌,
  ◌>>◌,
}
use sfo_reuseport.Server.{ServerRuntime, worker_count}
use sfo_reuseport.Server.Setup.{
  worker_executors, ensure_simulation, ensure_some, ensure_workers, executor_of, submit_to_executor,
  submit_to_worker,
}
use sfo_reuseport.Platform.Options.{Platform, linux, bsd, windows, capabilities}
use sfo_reuseport.Platform.Binding.{bind_udp, bind_udp_workers}
use sfo_reuseport.Udp.State.{
  UdpServerState, new, lock, registry_poisoned, register_task, register_callback_task,
  register_close_socket,
}
use sfo_reuseport.Udp.Task.{
  UdpTask, RouteBy, hash, listen_on, dispatch_work, receive_on, call_on, call_routed,
  feed_callbacks,
}

-- `TransparentMode::Required | TransparentMode::BestEffort`
abbrev is_transparent : TransparentMode → Bool
is_transparent disabled = false
is_transparent required = true
is_transparent best_effort = true

-- By the platform and whether the runtime is tokio.
unfoldable pub uses_transparent_receive : {F : Type 0} → Platform → Bool → UdpServiceConfig F → Bool
uses_transparent_receive linux true c =
    is_transparent c.socket_options.ipv4_transparent
    || is_transparent c.socket_options.ipv6_transparent
uses_transparent_receive _ _ c = false

-- `register_close_socket` locks the registry before it clones the socket: the first of these, between
-- the two.
abbrev locked_first : UdpServerState → Result Error (List ℕ) → Result Error UdpServerState
locked_first s (ok _) = ok s
locked_first s (err e) = err e

-- The socket that a closing server wakes, a clone of the one that it receives on.
unfoldable pub keep_close_socket :
    {F : Type 0} → Oracle F UdpTask → ℕ → Action F UdpTask UdpServerState (Unit {0})
unfolding register_close_socket
keep_close_socket system socket = do
  update (λ s. locked_first s (lock registry_poisoned s.close_sockets))
  clone ← ask system (try_clone socket)
  update (register_close_socket (ok clone))

-- Both validations, before the state is created.
unfoldable pub validated :
    {F : Type 0} → UdpServiceConfig F → Action F UdpTask UdpServerState (Unit {0})
unfolding validate validate_routed_packet_channel_capacity new
validated c =
    lift (validate c) >> lift (validate_routed_packet_channel_capacity c) >> update (λ _. ok new)

module _ {F : Type 0} (system : Oracle F UdpTask) (p : Platform) (tokio : Bool) (r : ServerRuntime)
    (c : UdpServiceConfig F) where
  unfoldable pub add_reuse_port_listener_with_state : Action F UdpTask UdpServerState (Unit {0})
  unfolding bind_udp_workers worker_count for_each submit_to_worker register_task
      uses_transparent_receive
  add_reuse_port_listener_with_state = do
    sockets ← bind_udp_workers system p (of_udp c) (worker_count r)
    ensure_some sockets
    for_each
        (λ worker_id socket.
          submit_to_worker system r worker_id
            (listen_on socket c.max_concurrency_per_worker (uses_transparent_receive p tokio c))
          >>= λ task. update (register_task task))
        0 sockets

  unfoldable pub add_socket_callback_reuse_port_listener :
      Action F UdpTask UdpServerState (Unit {0})
  unfolding bind_udp_workers worker_count for_each worker_executors submit_to_executor
      register_callback_task
  add_socket_callback_reuse_port_listener = do
    sockets ← bind_udp_workers system p (of_udp c) (worker_count r)
    ensure_some sockets
    for_each
        (λ worker_id socket. executor_of (get_elem? (worker_executors r) worker_id) >>= λ executor.
          submit_to_executor system executor (call_on socket worker_id) >>= λ task.
          update (register_callback_task task))
        0 sockets

  unfoldable pub add_simulated_listener_with_state : Action F UdpTask UdpServerState (Unit {0})
  unfolding bind_udp for_range worker_executors submit_to_executor submit_to_worker register_task
      uses_transparent_receive
  add_simulated_listener_with_state = do
    ensure_simulation
    socket ← bind_udp system p (of_udp c)
    let worker_count = length (worker_executors r)
    for_range
        (λ worker_id. executor_of (get_elem? (worker_executors r) worker_id) >>= λ executor.
          submit_to_executor system executor (dispatch_work worker_id) >>= λ task.
          update (register_task task))
        worker_count
    task ← submit_to_worker system r 0 (
        receive_on socket worker_count c.max_concurrency_per_worker
          (uses_transparent_receive p tokio c))
    update (register_task task)

  unfoldable pub add_socket_callback_simulated_listener :
      RouteBy → Action F UdpTask UdpServerState (Unit {0})
  unfolding bind_udp keep_close_socket worker_count for_range worker_executors submit_to_executor
      submit_to_worker register_task register_callback_task uses_transparent_receive
  add_socket_callback_simulated_listener by = do
    ensure_simulation
    socket ← bind_udp system p (of_udp c)
    keep_close_socket system socket
    addr ← ask system (local_addr socket)
    ensure_workers (worker_count r)
    for_range
        (λ worker_id. ask system (try_clone socket) >>= λ sender.
          executor_of (get_elem? (worker_executors r) worker_id) >>= λ executor.
          submit_to_executor system executor
            (call_routed sender worker_id addr c.routed_packet_channel_capacity)
          >>= λ task. update (register_callback_task task))
        (worker_count r)
    task ←
        submit_to_worker system r 0
          (feed_callbacks by socket addr (worker_count r) (uses_transparent_receive p tokio c))
    update (register_task task)

  -- The server that these return is the state that they leave. `serve` is `serve_with_state` with a
  -- trivial state for each worker.
  unfoldable pub serve_with_state : Action F UdpTask UdpServerState (Unit {0})
  unfolding validated capabilities add_simulated_listener_with_state
      add_reuse_port_listener_with_state
  serve_with_state = do
    validated c
    if not (capabilities p).reuse_port_balancing
        then add_simulated_listener_with_state
        else add_reuse_port_listener_with_state

  unfoldable pub serve_socket : Action F UdpTask UdpServerState (Unit {0})
  unfolding validated capabilities add_socket_callback_simulated_listener
      add_socket_callback_reuse_port_listener
  serve_socket = do
    validated c
    if not (capabilities p).reuse_port_balancing
        then add_socket_callback_simulated_listener hash
        else add_socket_callback_reuse_port_listener
