-- ===== src/Server.antt =====
-- src/core/server_runtime.rs: the worker threads, and the choice of the worker that a task goes to.
-- A worker's executor is a number. What the system and the executor answer (`start_worker`, the spawn
-- of a task, whether the calling thread is an executor's own) are arguments.
pub mod Laws
pub mod Setup
pub mod Shutdown
mod Tests
use sfo_reuseport.Prelude.{
  ℕ, zero, suc, ◌+◌, ◌%◌, ◌^◌, ◌==◌, max, Bool, true, false, List, [], ◌∷◌, Option, none, some,
  length, get_elem?, if◌then◌else◌,
}
use sfo_reuseport.Error.{
  Error, runtime, invalid_config, IoError, from_io, text, Result, ok, err, map_err, ◌>>=◌, ◌>>◌,
}
use sfo_reuseport.Config.{ServerRuntimeConfig, WorkerCount, default, fixed, validate}

-- `ServerRuntimeInner`.
pub record ServerRuntime : Type 0 where
  pub workers : List ℕ
  pub active : Bool
  pub next_worker : ℕ

-- The workers from `worker_id` on, `count` of them; the first that fails ends the start.
unfoldable pub start_workers : (ℕ → Result IoError ℕ) → ℕ → ℕ → Result Error (List ℕ)
start_workers start_worker worker_id zero = ok []
start_workers start_worker worker_id (suc count) = do
  worker ← map_err from_io (start_worker worker_id)
  workers ← start_workers start_worker (worker_id + 1) count
  ok (worker ∷ workers)

abbrev pub worker_count_of : ℕ → WorkerCount → ℕ
worker_count_of cpus default = max cpus 1
worker_count_of cpus (fixed workers) = workers

unfoldable pub start : ServerRuntimeConfig → ℕ → (ℕ → Result IoError ℕ) → Result Error ServerRuntime
unfolding validate start_workers
start config cpus start_worker =
    validate config
    >> (start_workers start_worker 0 (worker_count_of cpus config.workers) >>= λ workers.
        ok (record { workers = workers; active = true; next_worker = 0 }))

unfoldable pub worker_count : ServerRuntime → ℕ
worker_count r = length r.workers

unfoldable pub worker : ℕ → ServerRuntime → Result Error ℕ
worker worker_id r = elim (get_elem? r.workers worker_id) [
  | none ↦ err (invalid_config (text "worker index is out of range"))
  | some executor ↦ ok executor
]

unfoldable pub ensure_running : ServerRuntime → Result Error (Unit {0})
ensure_running r = if r.active then ok tt else err (runtime (text "server runtime is stopped"))

-- The counter is a `usize` and wraps around.
unfoldable pub random_worker_id : ServerRuntime → ServerRuntime × Result Error ℕ
unfolding ensure_running worker_count
random_worker_id r = elim (ensure_running r) [
  | err e ↦ (r, err e)
  | ok _ ↦
      if worker_count r == 0
      then (r, err (runtime (text "server runtime has no worker threads")))
      else (
        record r { next_worker = (r.next_worker + 1) % 2 ^ 64 },
        ok (r.next_worker % worker_count r),
      )
]

-- The first worker whose own thread is the calling one.
unfoldable pub position : (ℕ → Bool) → List ℕ → Option ℕ
position is_owner_thread [] = none
position is_owner_thread (executor ∷ rest) =
    let later = position is_owner_thread rest in
    if is_owner_thread executor then some 0 else elim later [ none ↦ none | some i ↦ some (suc i) ]

unfoldable pub current_worker_id : (ℕ → Bool) → ServerRuntime → Option ℕ
unfolding position
current_worker_id is_owner_thread r = position is_owner_thread r.workers

unfoldable pub submit_to_worker : (ℕ → Result IoError ℕ) → ℕ → ServerRuntime → Result Error ℕ
unfolding worker
submit_to_worker spawn worker_id r =
    worker worker_id r >>= λ executor. map_err from_io (spawn executor)

-- `spawn_task`, on a thread for which `is_owner_thread` tells the executors apart.
unfoldable pub spawn_task :
    (ℕ → Bool) → (ℕ → Result IoError ℕ) → ServerRuntime → ServerRuntime × Result Error ℕ
unfolding ensure_running current_worker_id submit_to_worker random_worker_id
spawn_task is_owner_thread spawn r = elim (ensure_running r) [
  | err e ↦ (r, err e)
  | ok _ ↦ elim (current_worker_id is_owner_thread r) [
    | some worker_id ↦ (r, submit_to_worker spawn worker_id r)
    | none ↦
        let (s, chosen) = random_worker_id r in
        (s, chosen >>= λ worker_id. submit_to_worker spawn worker_id s)
  ]
]

-- `Drop for ServerRuntimeInner`.
unfoldable pub stopped : ServerRuntime → ServerRuntime
stopped r = record r { active = false }
