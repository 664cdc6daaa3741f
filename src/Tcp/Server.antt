-- ===== src/Tcp/Server.antt =====
-- `TcpServer` of src/core/tcp.rs and the functions that add its listeners, as the order of what they
-- ask of the system and of the workers. A task is the closure that is submitted, with what it
-- captures; what tasks do once they run is a function of its own.
pub mod Laws
mod Tests
use sfo_reuseport.Prelude.{
  ℕ, ◌==◌, Bool, true, false, not, List, [], ◌∷◌, Option, none, some, length, get_elem?, replicate,
  if◌then◌else◌,
}
use sfo_reuseport.Error.{IoError, Result, ok, err}
use sfo_reuseport.Net.{SocketAddr}
use sfo_reuseport.Config.Tcp.{TcpServiceConfig, validate}
use sfo_reuseport.Config.Socket.{of_tcp}
use sfo_reuseport.System.{
  local_addr, Oracle, Action, pure, raise, lift, ask, update, for_each, for_range, ◌>>=◌, ◌>>◌,
}
use sfo_reuseport.Server.{ServerRuntime, worker_count}
use sfo_reuseport.Server.Setup.{
  worker_executors, ensure_simulation, ensure_some, executor_of, submit_to_executor,
  submit_to_worker,
}
use sfo_reuseport.Platform.Options.{Platform, capabilities}
use sfo_reuseport.Platform.Binding.{bind_tcp, bind_tcp_workers}
use sfo_reuseport.Dispatch.{Round, Flow, Router, worker_limits}
use sfo_reuseport.Listen.{Turn, Listener, listener}
use sfo_reuseport.Work.{Worker, WorkRound, idle, tcp_state_dispatch_loop}
use sfo_reuseport.Tcp.Direct.{tcp_listener_loop_with_state}
use sfo_reuseport.Tcp.Simulated.{simulated_tcp_accept_loop}
use sfo_reuseport.Tcp.State.{TcpServerState, new, register_task}

-- The tasks: a worker's own listener; the work sent to a worker; the one listener for all workers.
pub data TcpTask : Type 0 where
  listen_on : ℕ → Option ℕ → TcpTask
  dispatch_work : ℕ → TcpTask
  accept_on : ℕ → ℕ → SocketAddr → Option ℕ → TcpTask

module _ {F : Type 0} (system : Oracle F TcpTask) (p : Platform) (r : ServerRuntime)
    (c : TcpServiceConfig F) where
  unfoldable pub add_reuse_port_listener_with_state : Action F TcpTask TcpServerState (Unit {0})
  unfolding bind_tcp_workers worker_count for_each submit_to_worker register_task
  add_reuse_port_listener_with_state = do
    listeners ← bind_tcp_workers system p (of_tcp c) (worker_count r)
    ensure_some listeners
    for_each
        (λ worker_id listener.
          submit_to_worker system r worker_id (listen_on listener c.max_concurrency_per_worker)
          >>= λ task. update (register_task task))
        0 listeners

  unfoldable pub add_simulated_listener_with_state : Action F TcpTask TcpServerState (Unit {0})
  unfolding bind_tcp for_range worker_executors submit_to_executor submit_to_worker register_task
  add_simulated_listener_with_state = do
    ensure_simulation
    listener ← bind_tcp system p (of_tcp c)
    addr ← ask system (local_addr listener)
    let worker_count = length (worker_executors r)
    for_range
        (λ worker_id. executor_of (get_elem? (worker_executors r) worker_id) >>= λ executor.
          submit_to_executor system executor (dispatch_work worker_id) >>= λ task.
          update (register_task task))
        worker_count
    task ←
        submit_to_worker system r 0
          (accept_on listener worker_count addr c.max_concurrency_per_worker)
    update (register_task task)

  -- `serve_with_state`: the server that it returns is the state that it leaves. `serve` is the same
  -- with a trivial state for each worker.
  unfoldable pub serve_with_state : Action F TcpTask TcpServerState (Unit {0})
  unfolding capabilities add_reuse_port_listener_with_state add_simulated_listener_with_state new
      validate
  serve_with_state = do
    lift (validate c)
    update (λ _. ok new)
    if not (capabilities p).reuse_port_balancing
        then add_simulated_listener_with_state
        else add_reuse_port_listener_with_state

-- What a task has run: nothing, or one of the loops.
pub data TcpRun : Type 0 where
  returned : TcpRun
  listened : Flow (Listener SocketAddr) → TcpRun
  dispatched : Flow (Worker SocketAddr) → TcpRun
  accepted : Flow (Router SocketAddr) → TcpRun

-- What a task meets: the answer of `tcp_listener_from_std`, and the turns or rounds of its loop.
pub record TcpSurroundings : Type 0 where
  pub from_std : Result IoError ℕ
  pub turns : List (Turn SocketAddr)
  pub works : List (WorkRound SocketAddr)
  pub rounds : List (Round SocketAddr)

-- The bodies of the tasks. A listener that the runtime does not take ends its task.
unfoldable pub run_listening : Option ℕ → List (Turn SocketAddr) → Result IoError ℕ → TcpRun
unfolding tcp_listener_loop_with_state
run_listening max turns (err _) = returned
run_listening max turns (ok _) = listened (tcp_listener_loop_with_state turns (listener max))

unfoldable pub run_accepting :
    ℕ → SocketAddr → Option ℕ → List (Round SocketAddr) → Result IoError ℕ → TcpRun
unfolding simulated_tcp_accept_loop worker_limits
run_accepting worker_count addr max rounds (err _) = returned
run_accepting worker_count addr max rounds (ok _) = accepted (
    simulated_tcp_accept_loop addr worker_count rounds
      (record { limits = worker_limits worker_count max; sent = replicate worker_count [] }))

unfoldable pub run_task : TcpTask → TcpSurroundings → TcpRun
unfolding run_listening run_accepting tcp_state_dispatch_loop
run_task (listen_on _ max) e = run_listening max e.turns e.from_std
run_task (dispatch_work _) e = dispatched (tcp_state_dispatch_loop e.works idle)
run_task (accept_on _ worker_count addr max) e =
    run_accepting worker_count addr max e.rounds e.from_std
