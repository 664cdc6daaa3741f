-- ===== src/Quic/Server/Laws.antt =====
-- What setting a QUIC server up has spawned and registered, for both kinds of handler.
use mathlib.Core.Path.{subst}
use mathlib.Core.List.{append-nil}
use sfo_reuseport.Prelude.{
  ℕ, ◌≡◌, refl, ap, sym, ◌∙◌, Bool, true, false, List, [], ◌++◌, Option, none, some, length,
}
use sfo_reuseport.Error.{ok}
use sfo_reuseport.Config.Udp.{UdpServiceConfig}
use sfo_reuseport.Config.Socket.{of_udp}
use sfo_reuseport.System.{Oracle, Action, pure, ◌>>◌}
use sfo_reuseport.System.Spawned.{Spawned, spawned}
use sfo_reuseport.System.Registered.{Keeps, idle-Kept, weaken-Keeps, bind-Keeps}
use sfo_reuseport.System.Submitted.{worker-Keeps, executor-Keeps}
use sfo_reuseport.Server.{ServerRuntime, worker_count}
use sfo_reuseport.Server.Setup.{worker_executors}
use sfo_reuseport.Server.Setup.Laws.{
  OwnSockets, OneFeeder, then-Keeps, ensure_simulation-Keeps, these_sockets-Keeps,
  with_feeder-Keeps,
}
use sfo_reuseport.Platform.Options.{Platform, linux, bsd, windows}
use sfo_reuseport.Platform.Binding.Quiet.{bind_udp-Keeps}
use sfo_reuseport.Platform.Linux.Quic.Laws.{Bound, behind_program, bind-Bound}
use sfo_reuseport.Udp.State.{UdpServerState, register_task, register_callback_task}
use sfo_reuseport.Udp.Task.{
  UdpTask, connection_id, quic_listen_on, dispatch_work, quic_receive_on, call_on,
}
use sfo_reuseport.Udp.Server.{uses_transparent_receive}
use sfo_reuseport.Udp.Server.Registry.{Holds, task-Registers, callback-Registers}
use sfo_reuseport.Udp.Server.Laws.{FedCallbacks}
use sfo_reuseport.Quic.Server.{
  Kernel, bind_quic_workers, with_callbacks, with_listeners, add_quic_simulated_listener_with_state,
}

-- The tasks of a server with handlers: for each worker one on a socket from a list, and only on Linux;
-- or a dispatcher for each worker and a receiver on worker 0.
pub data QuicHandlerTasks {F : Type 0} (p : Platform) (r : ServerRuntime) (c : UdpServiceConfig F)
    (js : List (Spawned UdpTask)) : Type 0 where
  behind_kernel :
      p ≡ linux
      → OwnSockets r.workers
          (length r.workers)
          (λ _ socket. quic_listen_on socket (length r.workers) c.max_concurrency_per_worker)
          js
      → QuicHandlerTasks p r c js
  behind_receiver :
      (socket : ℕ)
      → OneFeeder r.workers
          (length r.workers)
          dispatch_work
          (quic_receive_on socket (length r.workers) c.max_concurrency_per_worker)
          js
      → QuicHandlerTasks p r c js

-- The same of a server with socket callbacks.
pub data QuicCallbackTasks {F : Type 0} (p : Platform) (tokio : Bool) (r : ServerRuntime)
    (c : UdpServiceConfig F) (js : List (Spawned UdpTask)) : Type 0 where
  on_kernel :
      p ≡ linux
      → OwnSockets r.workers (length r.workers) (λ id socket. call_on socket id) js
      → QuicCallbackTasks p tokio r c js
  on_dispatcher :
      FedCallbacks connection_id
        (uses_transparent_receive p tokio c)
        c.routed_packet_channel_capacity
        r
        js
      → QuicCallbackTasks p tokio r c js

-- The sockets that the platform gives: one for each worker, and only on Linux.
abbrev pub GivenSockets : Platform → ℕ → Option (List ℕ) → Type 0
GivenSockets p n none = Unit
GivenSockets p n (some sockets) = (p ≡ linux) × (length sockets ≡ n)

module _ {F : Type 0} (system : Oracle F UdpTask) (k : Kernel) (tokio : Bool) (r : ServerRuntime)
    (c : UdpServiceConfig F) where
  bound :
      {J : Type 0} (sys : Oracle F J) (o : Option (List ℕ))
      → Bound sys k.routes_probe (length r.workers) o
      → GivenSockets linux (length r.workers) o
  bound sys none b = tt
  bound sys (some l) (behind_program first rest addr before n e p) = (refl, n)

  pub bind_quic-Keeps :
      (p : Platform)
      → Keeps Holds
          (bind_quic_workers system k p (of_udp c) (length r.workers))
          (λ o js. GivenSockets p (length r.workers) o × (js ≡ []))
  unfolding bind_quic_workers spawned
  bind_quic-Keeps linux =
      weaken-Keeps Holds (λ o _ b. (bound system o b.0, b.1))
        (bind-Bound Holds system k.attach_ebpf k.attach_cbpf k.routes_probe k.disabled (of_udp c)
          (length r.workers))
  bind_quic-Keeps bsd = λ w. idle-Kept Holds _ w (ok none) (tt, refl)
  bind_quic-Keeps windows = λ w. idle-Kept Holds _ w (ok none) (tt, refl)

  pub simulated-Keeps :
      (p : Platform)
      → Keeps Holds (add_quic_simulated_listener_with_state system k p tokio r c) (λ _ js.
        (socket : ℕ) × OneFeeder r.workers
          (length r.workers)
          dispatch_work
          (quic_receive_on socket (length r.workers) c.max_concurrency_per_worker)
          js)
  unfolding add_quic_simulated_listener_with_state worker_executors
  simulated-Keeps p = then-Keeps Holds (ensure_simulation-Keeps Holds) (λ _.
      then-Keeps Holds (bind_udp-Keeps Holds system p (of_udp c)) (λ socket.
        weaken-Keeps Holds (λ _ _ f. (socket, f))
          (with_feeder-Keeps Holds r.workers (length r.workers) dispatch_work
            (quic_receive_on socket (length r.workers) c.max_concurrency_per_worker) _
            (λ id.
              executor-Keeps system Holds (dispatch_work id) register_task
                (task-Registers (dispatch_work id) refl) r id)
            (worker-Keeps system Holds _ register_task (task-Registers _ refl) r 0))))

  -- The kernel's program was taken, with a task on each socket, or nothing was done.
  abbrev pub Added : Platform → (ℕ → ℕ → UdpTask) → Bool → List (Spawned UdpTask) → Type 0
  Added p job false js = js ≡ []
  Added p job true js = (p ≡ linux) × OwnSockets r.workers (length r.workers) job js

  and_true :
      (p : Platform) (job : ℕ → ℕ → UdpTask) {m : Action F UdpTask UdpServerState (Unit {0})}
      → p ≡ linux
      → Keeps Holds m (λ _. OwnSockets r.workers (length r.workers) job)
      → Keeps Holds (m >> pure true) (Added p job)
  unfolding spawned
  and_true p job e h =
      bind-Keeps Holds (Added p job) h
        (λ _ w. idle-Kept Holds (λ b js. (b ≡ true) × (js ≡ [])) w (ok true) (refl, refl))
        (λ _ b js ks own q.
          subst (λ x. Added p job x (js ++ ks)) (sym q.0)
            (
              e,
              subst (OwnSockets r.workers (length r.workers) job)
                  (sym (append-nil js) ∙ ap (λ l. js ++ l) (sym q.1)) own,
            ))

  pub with_listeners-Keeps :
      (p : Platform) (o : Option (List ℕ))
      → GivenSockets p (length r.workers) o
      → Keeps Holds (with_listeners system k p tokio r c o) (
          Added p
            (λ _ socket. quic_listen_on socket (length r.workers) c.max_concurrency_per_worker))
  unfolding with_listeners worker_count spawned
  with_listeners-Keeps p none g = λ w. idle-Kept Holds _ w (ok false) refl
  with_listeners-Keeps p (some sockets) (e, l) = and_true p _ e (
      these_sockets-Keeps Holds r.workers (length r.workers) _ _ sockets l (λ id x.
        worker-Keeps system Holds (quic_listen_on x (length r.workers) c.max_concurrency_per_worker)
          register_task (task-Registers _ refl) r id))

  pub with_callbacks-Keeps :
      (p : Platform) (o : Option (List ℕ))
      → GivenSockets p (length r.workers) o
      → Keeps Holds
          (with_callbacks system k p tokio r c o)
          (Added p (λ id socket. call_on socket id))
  unfolding with_callbacks worker_executors spawned
  with_callbacks-Keeps p none g = λ w. idle-Kept Holds _ w (ok false) refl
  with_callbacks-Keeps p (some sockets) (e, l) = and_true p _ e (
      these_sockets-Keeps Holds r.workers (length r.workers) _ _ sockets l (λ id x.
        executor-Keeps system Holds (call_on x id) register_callback_task
          (callback-Registers _ refl) r id))
