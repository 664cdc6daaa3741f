-- ===== src/Runtime/AsyncStd/Tests.antt =====
-- Runs of the executor of src/runtime/async_std.rs at concrete threads.
use sfo_reuseport.Prelude.{◌≡◌, refl, true, false, []}
use sfo_reuseport.Runtime.Tokio.{mem, remove}
use sfo_reuseport.Runtime.AsyncStd.{
  executor, new, local_spawn_task, spawn, spawn_task, poll_wrapper, cancel, here, after, spawns,
}
use sfo_reuseport.Runtime.AsyncStd.Laws.{cancel_result, cancel-spawn_task}

-- A task spawned on its owner thread is local, and its cancellation ends it.
cancel_local : (cancel_result (spawn_task 5 (new 5)).1 (spawn_task 5 (new 5)).0).live ≡ []
unfolding new spawn_task local_spawn_task cancel remove
cancel_local = refl

-- From thread 7 to thread 5, with another task spawned after the cancellation.
cancel-spawn_task_example :
    (mem 0 (spawn_task 5 (cancel (executor 0) (spawn_task 7 (new 5)).0)).0.live ≡ false)
    × (mem 0 (cancel (executor 0) (poll_wrapper 5 0 (spawn_task 7 (new 5)).0)).live ≡ true)
unfolding new spawn_task spawn mem cancel
cancel-spawn_task_example = cancel-spawn_task 7 (new 5) refl refl (after here (spawns 5))
