-- ===== src/Tcp/Server/Laws.antt =====
-- What setting a TCP server up has spawned and registered, and what its `close` then cancels.
use sfo_reuseport.Prelude.{
  ℕ, ◌≡◌, refl, ap, sym, ◌∙◌, true, false, List, [], ◌∷◌, ◌++◌, map, length,
}
use sfo_reuseport.Error.{ok}
use sfo_reuseport.Net.{SocketAddr}
use sfo_reuseport.Config.Tcp.{TcpServiceConfig, validate}
use sfo_reuseport.Config.Socket.{of_tcp}
use sfo_reuseport.System.{Event, stream, local_addr, Oracle, World}
use sfo_reuseport.System.Spawned.{Spawned, spawned}
use sfo_reuseport.System.Registered.{Served, Keeps, weaken-Keeps, serve-Served, and-Served}
use sfo_reuseport.Server.Setup.Laws.{
  OwnSockets, OneFeeder, then-Keeps, ensure_simulation-Keeps, all_own-Keeps, with_feeder-Keeps,
  ask-Keeps,
}
use sfo_reuseport.System.Submitted.{worker-Keeps, executor-Keeps}
use sfo_reuseport.Server.Setup.Own.{EachOwn, Owns, all_own}
use sfo_reuseport.Server.{ServerRuntime, worker_count}
use sfo_reuseport.Server.Setup.{worker_executors}
use sfo_reuseport.Platform.Options.{
  Platform, linux, bsd, windows, capabilities, supports_reuse_port_balancing,
}
use sfo_reuseport.Platform.Binding.{for_address, bind_tcp, bind_tcp_workers}
use sfo_reuseport.Platform.Binding.Script.{bind_steps}
use sfo_reuseport.Platform.Binding.Laws.{bind_tcp-Opens}
use sfo_reuseport.Platform.Binding.Quiet.{bind_tcp-Keeps, bind_workers-Keeps}
use sfo_reuseport.Tcp.State.{TcpServerState, new, register_task, close}
use sfo_reuseport.Tcp.Server.{
  TcpTask, listen_on, dispatch_work, accept_on, add_reuse_port_listener_with_state,
  add_simulated_listener_with_state, serve_with_state,
}
use sfo_reuseport.Udp.State.{locked}

-- The state of an active server that has registered these tasks.
abbrev pub hold : List (Spawned TcpTask) → TcpServerState
hold js = record { active = true; tasks = locked (map (λ s. s.task) js) }

map-append : {A B : Type 0} (f : A → B) (xs ys : List A) → map f (xs ++ ys) ≡ map f xs ++ map f ys
map-append f [] ys = refl
map-append f (x ∷ xs) ys = ap (λ l. f x ∷ l) (map-append f xs ys)

-- The state is that one.
abbrev pub Holds : TcpServerState → List (Spawned TcpTask) → Type 0
Holds s js = s ≡ hold js

held :
    (job : TcpTask) (js : List (Spawned TcpTask)) (executor task : ℕ)
    → register_task task (hold js)
      ≡ ok (hold (js ++ record { executor = executor; job = job; task = task } ∷ []))
unfolding register_task
held job js executor task =
    ap (λ l. ok (record { active = true; tasks = locked l })) (sym (map-append (λ s. s.task) js _))

registers :
    (job : TcpTask) (s : TcpServerState) (js : List (Spawned TcpTask)) (executor task : ℕ)
    → Holds s js
    → (t : TcpServerState) × (register_task task s ≡ ok t)
      × Holds t (js ++ record { executor = executor; job = job; task = task } ∷ [])
registers job s js executor task h =
    (_, ap (register_task task) h ∙ held job js executor task, refl)

-- The tasks of a server that is set up. Where the platform balances between sockets: for each worker,
-- one that listens on a socket of its own. Elsewhere: for each worker, one that takes the work sent to
-- it, and for worker 0 one that accepts for all of them.
abbrev pub TcpTasks :
    {F : Type 0} → Platform → ServerRuntime → TcpServiceConfig F → List (Event F TcpTask) → Type 0
TcpTasks windows r c calls =
    (listener : ℕ) × (addr : SocketAddr) × OneFeeder r.workers (length r.workers) dispatch_work
      (accept_on listener (length r.workers) addr c.max_concurrency_per_worker) (spawned calls)
TcpTasks p r c calls =
    EachOwn (for_address c.bind_addr.ip) stream (bind_steps stream p (of_tcp c)) r.workers
      (length r.workers) (λ _ listener. listen_on listener c.max_concurrency_per_worker) calls

module _ {F : Type 0} (system : Oracle F TcpTask) (r : ServerRuntime) (c : TcpServiceConfig F) where
  reuse_port-Keeps :
      (p : Platform)
      → (capabilities p).reuse_port_balancing ≡ true
      → Keeps Holds (add_reuse_port_listener_with_state system p r c) (λ _.
        OwnSockets r.workers
          (length r.workers)
          (λ _ listener. listen_on listener c.max_concurrency_per_worker))
  unfolding add_reuse_port_listener_with_state bind_tcp_workers worker_count
  reuse_port-Keeps p balanced =
      all_own-Keeps Holds r.workers (length r.workers)
        (λ _ listener. listen_on listener c.max_concurrency_per_worker) _
        (bind_workers-Keeps Holds p (bind_tcp system p (of_tcp c))
          (bind_tcp-Keeps Holds system p (of_tcp c)) (length r.workers) balanced)
        (λ id x.
          worker-Keeps system Holds (listen_on x c.max_concurrency_per_worker) register_task
            (registers (listen_on x c.max_concurrency_per_worker)) r id)

  simulated-Keeps :
      (p : Platform)
      → Keeps Holds (add_simulated_listener_with_state system p r c) (λ _ js.
        (listener : ℕ) × (addr : SocketAddr) × OneFeeder r.workers
          (length r.workers)
          dispatch_work
          (accept_on listener (length r.workers) addr c.max_concurrency_per_worker)
          js)
  unfolding add_simulated_listener_with_state worker_executors
  simulated-Keeps p = then-Keeps Holds (ensure_simulation-Keeps Holds) (λ _.
      then-Keeps Holds (bind_tcp-Keeps Holds system p (of_tcp c)) (λ listener.
        then-Keeps Holds (ask-Keeps Holds system (local_addr listener) refl) (λ addr.
          weaken-Keeps Holds (λ _ _ f. (listener, addr, f))
            (with_feeder-Keeps Holds r.workers (length r.workers) dispatch_work
              (accept_on listener (length r.workers) addr c.max_concurrency_per_worker) _
              (λ id.
                executor-Keeps system Holds (dispatch_work id) register_task
                  (registers (dispatch_work id)) r id)
              (worker-Keeps system Holds _ register_task (registers _) r 0)))))

  reuse_port-Owns :
      (p : Platform)
      → (capabilities p).reuse_port_balancing ≡ true
      → (w : World F TcpTask TcpServerState)
      → Owns
          (for_address c.bind_addr.ip)
          stream
          (bind_steps stream p (of_tcp c))
          r.workers
          (length r.workers)
          (λ _ listener. listen_on listener c.max_concurrency_per_worker)
          w
          (add_reuse_port_listener_with_state system p r c w)
  unfolding add_reuse_port_listener_with_state bind_tcp_workers worker_count
  reuse_port-Owns p balanced =
      all_own (for_address c.bind_addr.ip) stream (bind_steps stream p (of_tcp c)) Holds r.workers
        (length r.workers) (λ _ listener. listen_on listener c.max_concurrency_per_worker) _
        (λ id x.
          worker-Keeps system Holds (listen_on x c.max_concurrency_per_worker) register_task
            (registers (listen_on x c.max_concurrency_per_worker)) r id)
        (bind_tcp system p (of_tcp c)) (bind_tcp-Opens system p (of_tcp c)) p balanced

  -- Setting a TCP server up, on any system: the state that it leaves is that of an active server that
  -- has registered every task it has spawned, in order, also where it fails. Where it succeeds on a
  -- platform that balances between sockets, its calls have opened one socket after another, as many
  -- as there are workers and each by a `socket` call of its own with the whole script after it, and
  -- then spawned on each worker in order a listener for the socket opened in its place; elsewhere
  -- there are a dispatcher for each worker and a listener on worker 0.
  pub serve_tcp-Served :
      (p : Platform) (w : World F TcpTask TcpServerState)
      → Served Holds (TcpTasks p r c) w (serve_with_state system p r c w)
  unfolding serve_with_state validate new capabilities supports_reuse_port_balancing
  serve_tcp-Served linux w =
      and-Served Holds (TcpTasks linux r c) _ w _
        (serve-Served Holds _ _ (reuse_port-Keeps linux refl) new refl w.log w.state)
        (reuse_port-Owns linux refl (record w { state = new }))
  serve_tcp-Served bsd w =
      and-Served Holds (TcpTasks bsd r c) _ w _
        (serve-Served Holds _ _ (reuse_port-Keeps bsd refl) new refl w.log w.state)
        (reuse_port-Owns bsd refl (record w { state = new }))
  serve_tcp-Served windows w =
      serve-Served Holds _ _ (simulated-Keeps windows) new refl w.log w.state

  -- The `close` of a TCP server that was set up, or that failed to be, cancels exactly the tasks
  -- that were spawned for it, in order, and leaves it inactive without tasks.
  pub close-serve_tcp :
      (p : Platform) (w : World F TcpTask TcpServerState)
      → (calls : List (Event F TcpTask)) × ((serve_with_state system p r c w).1.log
          ≡ w.log ++ calls)
        × (close (serve_with_state system p r c w).1.state
            ≡ (record { active = false; tasks = locked [] }, map (λ s. s.task) (spawned calls)))
  unfolding close
  close-serve_tcp p w = let s = serve_tcp-Served p w in (s.calls, s.are_logged, ap close s.is_held)
