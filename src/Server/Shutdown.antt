-- ===== src/Server/Shutdown.antt =====
-- How a runtime ends, over tokio: the worker threads that `start_worker` of src/core/server_runtime.rs
-- makes, and the drop of `ServerRuntimeInner` on a thread that is none of them. The workers are
-- dropped in order; the drop of each sends its shutdown and joins its thread, while all threads go on.
pub mod Laws
pub mod Progress
mod Tests
use sfo_reuseport.Prelude.{◌≡◌, ◌⊎◌, Bool, true, false, List, [], ◌∷◌, ◌++◌, Option, none, some}
use sfo_reuseport.Runtime.Tokio
use sfo_reuseport.Runtime.Tokio.{Executor}

-- A thread: its executor, whether the shutdown was sent to it, and whether it has ended.
pub record WorkerThread : Type 0 where
  pub executor : Executor
  pub told : Bool
  pub ended : Bool

-- `start_worker`, when it has returned.
unfoldable pub start_worker : WorkerThread
unfolding Tokio.new
start_worker = record { executor = Tokio.new; told = false; ended = false }

-- What a thread does: its loop goes on, and ends only when the shutdown has come, since the runtime
-- itself keeps a sender of commands; then the thread ends.
pub data ThreadStep : WorkerThread → WorkerThread → Type 0 where
  runs :
      {w : WorkerThread} {e : Executor}
      → Tokio.Step w.executor e
      → (w.executor.running ≡ e.running) ⊎ (w.told ≡ true)
      → ThreadStep w (record w { executor = e })
  ends : {w : WorkerThread} → w.executor.running ≡ false → ThreadStep w (record w { ended = true })

-- The runtime while it is dropped: whether it is active, the workers that have been joined, the one
-- that is being joined, and those that are left.
pub record Dropping : Type 0 where
  pub active : Bool
  pub joined : List WorkerThread
  pub joining : Option WorkerThread
  pub left : List WorkerThread

-- `Drop for ServerRuntimeInner` clears the flag before the workers are dropped.
unfoldable pub drop : List WorkerThread → Dropping
drop workers = record { active = false; joined = []; joining = none; left = workers }

pub data DropStep : Dropping → Dropping → Type 0 where
  shuts_down :
      {d : Dropping} {w : WorkerThread} {rest : List WorkerThread}
      → d.joining ≡ none
      → d.left ≡ w ∷ rest
      → DropStep d (record d { joining = some (record w { told = true }); left = rest })
  joins :
      {d : Dropping} {w : WorkerThread}
      → d.joining ≡ some w
      → w.ended ≡ true
      → DropStep d (record d { joining = none; joined = d.joined ++ w ∷ [] })
  joining_steps :
      {d : Dropping} {w w' : WorkerThread}
      → d.joining ≡ some w
      → ThreadStep w w'
      → DropStep d (record d { joining = some w' })
  left_steps :
      {d : Dropping} {w w' : WorkerThread} (before after : List WorkerThread)
      → d.left ≡ before ++ w ∷ after
      → ThreadStep w w'
      → DropStep d (record d { left = before ++ w' ∷ after })

pub data Drops : Dropping → Dropping → Type 0 where
  here : {d : Dropping} → Drops d d
  after : {d e f : Dropping} → Drops d e → DropStep e f → Drops d f
