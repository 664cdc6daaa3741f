-- ===== src/Runtime/AsyncStd.antt =====
-- src/runtime/async_std.rs: the executor of a worker thread on async-std. A task from another thread is
-- wrapped in one that starts it on the owner thread. A task is known by its number; the runtimes are
-- the steps that they may take: to poll a wrapper, and to finish a task.
pub mod Laws
mod Tests
use sfo_reuseport.Prelude.{ℕ, ◌+◌, ◌≡◌, ◌==◌, Bool, true, false, List, [], ◌∷◌, ◌++◌, if◌then◌else◌}
use sfo_reuseport.Error.{IoError, ErrorKind, text, Result, ok, err}
use sfo_reuseport.Runtime.Tokio.{mem, remove}

pub data TaskHandleInner : Type 0 where
  executor local : ℕ → TaskHandleInner

-- The owner thread, the number of the next task, the wrappers that have not been polled, and the local
-- tasks that have neither finished nor been cancelled.
pub record CurrentThreadExecutor : Type 0 where
  pub owner_thread : ℕ
  pub next : ℕ
  pub wrappers : List ℕ
  pub live : List ℕ

unfoldable pub new : ℕ → CurrentThreadExecutor
new thread = record { owner_thread = thread; next = 0; wrappers = []; live = [] }

abbrev pub is_owner_thread : ℕ → CurrentThreadExecutor → Bool
is_owner_thread thread s = thread == s.owner_thread

abbrev pub Spawning : Type 0
Spawning = CurrentThreadExecutor × Result IoError TaskHandleInner

-- The task with the number, as `async_std::task::spawn_local` starts it on the thread.
unfoldable pub local_spawn_task : ℕ → ℕ → CurrentThreadExecutor → Spawning
local_spawn_task thread id s =
    if is_owner_thread thread s then (record s { live = id ∷ s.live }, ok (local id)) else (
      s,
      err (record {
        kind = ErrorKind.invalid_input;
        message = text "local task must be spawned on the executor owner thread";
      }),
    )

-- `self.executor.spawn` of the wrapper.
unfoldable pub spawn : ℕ → CurrentThreadExecutor → Spawning
spawn id s = (record s { wrappers = s.wrappers ++ id ∷ [] }, ok (executor id))

unfoldable pub spawn_task : ℕ → CurrentThreadExecutor → Spawning
unfolding local_spawn_task spawn
spawn_task thread s =
    let id = s.next in
    let t = record s { next = id + 1 } in
    if is_owner_thread thread s then local_spawn_task thread id t else spawn id t

-- The body of the wrapper, polled on the thread. It drops the handle of the local task, and the end of
-- that handle only detaches it.
unfoldable pub poll_wrapper : ℕ → ℕ → CurrentThreadExecutor → CurrentThreadExecutor
unfolding local_spawn_task remove
poll_wrapper thread id s =
    (local_spawn_task thread id (record s { wrappers = remove id s.wrappers })).0

-- A task of the executor is cancelled by its drop, which has no effect once it has ended.
unfoldable pub cancel : TaskHandleInner → CurrentThreadExecutor → CurrentThreadExecutor
unfolding remove
cancel (executor id) s = record s { wrappers = remove id s.wrappers }
cancel (local id) s = record s { live = remove id s.live }

unfoldable pub finish : ℕ → CurrentThreadExecutor → CurrentThreadExecutor
unfolding remove
finish id s = record s { live = remove id s.live }

pub data Step : CurrentThreadExecutor → CurrentThreadExecutor → Type 0 where
  spawns : {s : CurrentThreadExecutor} (thread : ℕ) → Step s (spawn_task thread s).0
  polls :
      {s : CurrentThreadExecutor} (thread id : ℕ)
      → mem id s.wrappers ≡ true
      → Step s (poll_wrapper thread id s)
  cancels : {s : CurrentThreadExecutor} (handle : TaskHandleInner) → Step s (cancel handle s)
  finishes : {s : CurrentThreadExecutor} (id : ℕ) → Step s (finish id s)

pub data Reaches : CurrentThreadExecutor → CurrentThreadExecutor → Type 0 where
  here : {s : CurrentThreadExecutor} → Reaches s s
  after : {s t u : CurrentThreadExecutor} → Reaches s t → Step t u → Reaches s u
