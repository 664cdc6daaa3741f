-- ===== src/Udp/Server/Laws.antt =====
-- What setting a UDP server up has spawned and registered, for both kinds of handler.
use sfo_reuseport.Prelude.{ℕ, ◌≡◌, refl, Bool, true, false, List, ◌++◌, length}
use sfo_reuseport.Net.{SocketAddr}
use sfo_reuseport.Config.Udp.{UdpServiceConfig}
use sfo_reuseport.Config.Socket.{of_udp}
use sfo_reuseport.System.{Event, dgram, local_addr, try_clone, Oracle, World, for_range}
use sfo_reuseport.System.Spawned.{Spawned, spawned}
use sfo_reuseport.System.Registered.{Given, Each, Keeps, weaken-Keeps, bind-Keeps}
use sfo_reuseport.System.Submitted.{worker-Keeps, executor-Keeps, for_found-Keeps}
use sfo_reuseport.Server.{ServerRuntime, worker_count}
use sfo_reuseport.Server.Setup.{worker_executors}
use sfo_reuseport.Server.Setup.Laws.{
  OwnSockets, OneFeeder, then-Keeps, ensure_simulation-Keeps, ensure_workers-Keeps, all_own-Keeps,
  with_feeder-Keeps, ask-Keeps,
}
use sfo_reuseport.Server.Setup.Own.{EachOwn, Owns, all_own}
use sfo_reuseport.Platform.Options.{Platform, windows, capabilities}
use sfo_reuseport.Platform.Binding.{for_address, bind_udp, bind_udp_workers}
use sfo_reuseport.Platform.Binding.Script.{bind_steps}
use sfo_reuseport.Platform.Binding.Laws.{bind_udp-Opens}
use sfo_reuseport.Platform.Binding.Quiet.{bind_udp-Keeps, bind_workers-Keeps}
use sfo_reuseport.Udp.State.{UdpServerState, register_task, register_callback_task}
use sfo_reuseport.Udp.Task.{
  UdpTask, RouteBy, hash, listen_on, dispatch_work, receive_on, call_on, call_routed,
  feed_callbacks,
}
use sfo_reuseport.Udp.Server.{
  uses_transparent_receive, add_reuse_port_listener_with_state,
  add_socket_callback_reuse_port_listener, add_simulated_listener_with_state,
  add_socket_callback_simulated_listener,
}
use sfo_reuseport.Udp.Server.Registry.{
  Holds, task-Registers, callback-Registers, keep_close_socket-Keeps,
}

-- Callbacks on sockets that are fed by one dispatcher: a callback for each worker, with a sender of its
-- own, and the dispatcher on worker 0.
pub record FedCallbacks (by : RouteBy) (transparent : Bool) (capacity : ℕ) (r : ServerRuntime)
    (js : List (Spawned UdpTask)) : Type 0 where
  pub socket : ℕ
  pub addr : SocketAddr
  pub callbacks : List (Spawned UdpTask)
  pub feeder : List (Spawned UdpTask)
  pub are_all : js ≡ callbacks ++ feeder
  pub own :
      OwnSockets r.workers
        (length r.workers)
        (λ id sender. call_routed sender id addr capacity)
        callbacks
  pub one : Given r.workers 0 (feed_callbacks by socket addr (length r.workers) transparent) feeder

-- The tasks of a server with handlers that is set up.
abbrev pub HandlerTasks :
    {F : Type 0}
    → Platform
    → Bool
    → ServerRuntime
    → UdpServiceConfig F
    → List (Event F UdpTask)
    → Type 0
HandlerTasks windows tokio r c calls =
    (socket : ℕ) × OneFeeder r.workers (length r.workers) dispatch_work
      (receive_on socket (length r.workers) c.max_concurrency_per_worker false) (spawned calls)
HandlerTasks p tokio r c calls =
    EachOwn (for_address c.bind_addr.ip) dgram (bind_steps dgram p (of_udp c)) r.workers
      (length r.workers)
      (λ _ socket.
        listen_on socket c.max_concurrency_per_worker (uses_transparent_receive p tokio c))
      calls

-- The tasks of a server with socket callbacks that is set up.
abbrev pub CallbackTasks :
    {F : Type 0} → Platform → ServerRuntime → UdpServiceConfig F → List (Event F UdpTask) → Type 0
CallbackTasks windows r c calls =
    FedCallbacks hash false c.routed_packet_channel_capacity r (spawned calls)
CallbackTasks p r c calls =
    EachOwn (for_address c.bind_addr.ip) dgram (bind_steps dgram p (of_udp c)) r.workers
      (length r.workers) (λ id socket. call_on socket id) calls

module _ {F : Type 0} (system : Oracle F UdpTask) (tokio : Bool) (r : ServerRuntime)
    (c : UdpServiceConfig F) (p : Platform) where
  pub reuse_port-Keeps :
      (capabilities p).reuse_port_balancing ≡ true
      → Keeps Holds (add_reuse_port_listener_with_state system p tokio r c) (λ _.
        OwnSockets r.workers (length r.workers) (λ _ socket.
          listen_on socket c.max_concurrency_per_worker (uses_transparent_receive p tokio c)))
  unfolding add_reuse_port_listener_with_state bind_udp_workers worker_count
  reuse_port-Keeps balanced =
      all_own-Keeps Holds r.workers (length r.workers)
        (λ _ socket.
          listen_on socket c.max_concurrency_per_worker (uses_transparent_receive p tokio c))
        _
        (bind_workers-Keeps Holds p (bind_udp system p (of_udp c))
          (bind_udp-Keeps Holds system p (of_udp c)) (length r.workers) balanced)
        (λ id x. worker-Keeps system Holds _ register_task (task-Registers _ refl) r id)

  pub callback_reuse_port-Keeps :
      (capabilities p).reuse_port_balancing ≡ true
      → Keeps Holds
          (add_socket_callback_reuse_port_listener system p tokio r c)
          (λ _. OwnSockets r.workers (length r.workers) (λ id socket. call_on socket id))
  unfolding add_socket_callback_reuse_port_listener bind_udp_workers worker_count worker_executors
  callback_reuse_port-Keeps balanced =
      all_own-Keeps Holds r.workers (length r.workers) (λ id socket. call_on socket id) _
        (bind_workers-Keeps Holds p (bind_udp system p (of_udp c))
          (bind_udp-Keeps Holds system p (of_udp c)) (length r.workers) balanced)
        (λ id x.
          executor-Keeps system Holds (call_on x id) register_callback_task
            (callback-Registers (call_on x id) refl) r id)

  pub reuse_port-Owns :
      (capabilities p).reuse_port_balancing ≡ true
      → (w : World F UdpTask UdpServerState)
      → Owns
          (for_address c.bind_addr.ip)
          dgram
          (bind_steps dgram p (of_udp c))
          r.workers
          (length r.workers)
          (λ _ socket.
            listen_on socket c.max_concurrency_per_worker (uses_transparent_receive p tokio c))
          w
          (add_reuse_port_listener_with_state system p tokio r c w)
  unfolding add_reuse_port_listener_with_state bind_udp_workers worker_count
  reuse_port-Owns balanced =
      all_own (for_address c.bind_addr.ip) dgram (bind_steps dgram p (of_udp c)) Holds r.workers
        (length r.workers) _ _
        (λ id x. worker-Keeps system Holds _ register_task (task-Registers _ refl) r id)
        (bind_udp system p (of_udp c)) (bind_udp-Opens system p (of_udp c)) p balanced

  pub callback-Owns :
      (capabilities p).reuse_port_balancing ≡ true
      → (w : World F UdpTask UdpServerState)
      → Owns
          (for_address c.bind_addr.ip)
          dgram
          (bind_steps dgram p (of_udp c))
          r.workers
          (length r.workers)
          (λ id socket. call_on socket id)
          w
          (add_socket_callback_reuse_port_listener system p tokio r c w)
  unfolding add_socket_callback_reuse_port_listener bind_udp_workers worker_count worker_executors
  callback-Owns balanced =
      all_own (for_address c.bind_addr.ip) dgram (bind_steps dgram p (of_udp c)) Holds r.workers
        (length r.workers) (λ id socket. call_on socket id) _
        (λ id x.
          executor-Keeps system Holds (call_on x id) register_callback_task
            (callback-Registers (call_on x id) refl) r id)
        (bind_udp system p (of_udp c)) (bind_udp-Opens system p (of_udp c)) p balanced

  pub simulated-Keeps : Keeps Holds (add_simulated_listener_with_state system p tokio r c) (λ _ js.
      (socket : ℕ) × OneFeeder r.workers
        (length r.workers)
        dispatch_work
        (receive_on socket
          (length r.workers)
          c.max_concurrency_per_worker
          (uses_transparent_receive p tokio c))
        js)
  unfolding add_simulated_listener_with_state worker_executors
  simulated-Keeps = then-Keeps Holds (ensure_simulation-Keeps Holds) (λ _.
      then-Keeps Holds (bind_udp-Keeps Holds system p (of_udp c)) (λ socket.
        weaken-Keeps Holds (λ _ _ f. (socket, f))
          (with_feeder-Keeps Holds r.workers (length r.workers) dispatch_work
            (receive_on socket (length r.workers) c.max_concurrency_per_worker
              (uses_transparent_receive p tokio c))
            _
            (λ id.
              executor-Keeps system Holds (dispatch_work id) register_task
                (task-Registers (dispatch_work id) refl) r id)
            (worker-Keeps system Holds _ register_task (task-Registers _ refl) r 0))))

  fed :
      (by : RouteBy) (socket : ℕ) (addr : SocketAddr) (js ks : List (Spawned UdpTask))
      → (xs : List ℕ) × (length xs ≡ length r.workers)
        × Each r.workers
            (λ id sender. call_routed sender id addr c.routed_packet_channel_capacity)
            0
            xs
            js
      → Given r.workers 0
          (feed_callbacks by socket addr (length r.workers) (uses_transparent_receive p tokio c))
          ks
      → FedCallbacks by
          (uses_transparent_receive p tokio c)
          c.routed_packet_channel_capacity
          r
          (js ++ ks)
  fed by socket addr js ks (xs, l, each) one = record {
    socket = socket;
    addr = addr;
    callbacks = js;
    feeder = ks;
    are_all = refl;
    own = record { sockets = xs; one_each = l; tasks = each };
    one = one;
  }

  pub callback_simulated-Keeps :
      (by : RouteBy)
      → Keeps Holds (add_socket_callback_simulated_listener system p tokio r c by) (λ _.
        FedCallbacks by (uses_transparent_receive p tokio c) c.routed_packet_channel_capacity r)
  unfolding add_socket_callback_simulated_listener worker_executors worker_count for_range
  callback_simulated-Keeps by = then-Keeps Holds (ensure_simulation-Keeps Holds) (λ _.
      then-Keeps Holds (bind_udp-Keeps Holds system p (of_udp c)) (λ socket.
        then-Keeps Holds (keep_close_socket-Keeps system socket) (λ _.
          then-Keeps Holds (ask-Keeps Holds system (local_addr socket) refl) (λ addr.
            then-Keeps Holds (ensure_workers-Keeps Holds (length r.workers)) (λ _.
              bind-Keeps Holds
                (λ _.
                  FedCallbacks by (uses_transparent_receive p tokio c)
                    c.routed_packet_channel_capacity r)
                (for_found-Keeps Holds r.workers
                  (λ id sender. call_routed sender id addr c.routed_packet_channel_capacity) _
                  (λ id.
                    then-Keeps Holds (ask-Keeps Holds system (try_clone socket) refl) (λ sender.
                      weaken-Keeps Holds (λ _ _ g. (sender, g))
                        (executor-Keeps system Holds _ register_callback_task
                          (callback-Registers _ refl) r id)))
                  0 (length r.workers))
                (λ _. worker-Keeps system Holds _ register_task (task-Registers _ refl) r 0)
                (λ _ _ js ks. fed by socket addr js ks))))))
