-- ===== src/Server/Setup.antt =====
-- How a server gives tasks to the workers while it is set up: `submit_to_worker`,
-- `submit_to_executor` and `worker_executors` of src/core/server_runtime.rs, as calls that are
-- logged, and the checks that the functions that add listeners share. An executor is answered by the handle of the task.
pub mod Laws
pub mod Own
use sfo_reuseport.Prelude.{
  ℕ, zero, suc, Bool, true, not, List, [], ◌∷◌, if◌then◌else◌, Option, none, some, get_elem?,
}
use sfo_reuseport.Error.{Error, invalid_config, unsupported_platform_option, text}
use sfo_reuseport.System.{Call, spawn, Oracle, Action, pure, raise, lift, ask, ◌>>=◌}
use sfo_reuseport.Server.{ServerRuntime, worker}

unfoldable pub worker_executors : ServerRuntime → List ℕ
worker_executors r = r.workers

-- `let Some(executor) = worker_executors.get(worker_id) else { return Err(..) }`
abbrev pub executor_of : {F J S : Type 0} → Option ℕ → Action F J S ℕ
executor_of none = raise (invalid_config (text "worker index is out of range"))
executor_of (some executor) = pure executor

abbrev no_workers : Error
no_workers = invalid_config (text "worker count must be greater than zero")

-- `if worker_count == 0 { return Err(..) }`
abbrev pub ensure_workers : {F J S : Type 0} → ℕ → Action F J S (Unit {0})
ensure_workers zero = raise no_workers
ensure_workers (suc _) = pure tt

-- `SUPPORTS_USERSPACE_REUSEPORT_SIMULATION` of either runtime.
abbrev pub supports_userspace_reuseport_simulation : Bool
supports_userspace_reuseport_simulation = true

-- `if !SUPPORTS_USERSPACE_REUSEPORT_SIMULATION { return Err(..) }`
abbrev pub ensure_simulation : {F J S : Type 0} → Action F J S (Unit {0})
ensure_simulation =
    if not supports_userspace_reuseport_simulation
    then raise (
        unsupported_platform_option
          (text "selected runtime requires native reuse-port worker sockets"))
    else pure tt

-- `if listeners.is_empty() { return Err(..) }`
abbrev pub ensure_some : {F J S : Type 0} → List ℕ → Action F J S (Unit {0})
ensure_some [] = raise no_workers
ensure_some (_ ∷ _) = pure tt

module _ {F J S : Type 0} (system : Oracle F J) where
  unfoldable pub submit_to_executor : ℕ → J → Action F J S ℕ
  submit_to_executor executor job = ask system (spawn executor job)

  unfoldable pub submit_to_worker : ServerRuntime → ℕ → J → Action F J S ℕ
  unfolding worker
  submit_to_worker r worker_id job =
      lift (worker worker_id r) >>= λ executor. ask system (spawn executor job)
