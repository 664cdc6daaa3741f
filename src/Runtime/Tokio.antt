-- ===== src/Runtime/Tokio.antt =====
-- src/runtime/tokio.rs: the executor of a worker thread. Other threads send it commands by a channel,
-- and its loop spawns and aborts local tasks. A task is known by its id, and is live from its spawn
-- until it finishes or is aborted. `tokio::select!` takes any arm that is ready.
pub mod Invariant
pub mod Kept
pub mod Lists
pub mod Safety
mod Tests
use sfo_reuseport.Prelude.{
  ℕ, ◌+◌, ◌%◌, ◌^◌, ◌<◌, ◌≡◌, ◌==◌, ◌||◌, Bool, true, false, List, [], ◌∷◌, ◌++◌, if◌then◌else◌,
}
use sfo_reuseport.Error.{IoError, ErrorKind, text, Result, ok, err}

pub data TaskCommand : Type 0 where
  spawn cancel : ℕ → TaskCommand

-- The executor and its loop: the next id, the commands and the completed ids in their channels, oldest
-- first, the ids of `task_handles`, the live tasks, and whether the loop runs, which holds the
-- receivers.
pub record Executor : Type 0 where
  pub next_task_id : ℕ
  pub commands : List TaskCommand
  pub completed : List ℕ
  pub task_handles : List ℕ
  pub live : List ℕ
  pub running : Bool

unfoldable pub new : Executor
new = record {
  next_task_id = 1;
  commands = [];
  completed = [];
  task_handles = [];
  live = [];
  running = true;
}

unfoldable pub mem : ℕ → List ℕ → Bool
mem id [] = false
mem id (x ∷ xs) = x == id || mem id xs

-- `HashMap::remove`, and the end of a task.
unfoldable pub remove : ℕ → List ℕ → List ℕ
remove id [] = []
remove id (x ∷ xs) = let rest = remove id xs in if x == id then rest else x ∷ rest

-- `UnboundedSender::send` fails where the receiver is dropped.
unfoldable pub send : TaskCommand → Executor → Executor × Bool
send c s = if s.running then (record s { commands = s.commands ++ c ∷ [] }, true) else (s, false)

-- The id is taken before the send, also where that fails.
unfoldable pub spawn_task : Executor → Executor × Result IoError ℕ
unfolding send
spawn_task s =
    let id = s.next_task_id in
    let (t, sent) = send (spawn id) (record s { next_task_id = (id + 1) % 2 ^ 64 }) in
    (
      t,
      if sent
          then ok id
          else err
              (record { kind = ErrorKind.broken_pipe; message = text "worker runtime stopped" }),
    )

-- `TaskHandle::cancel` of the handle that `spawn_task` returned.
unfoldable pub cancel_task : ℕ → Executor → Executor
unfolding send
cancel_task id s = (send (cancel id) s).0

-- The end of a task. Its completion guard sends the id, if the task had begun to run.
unfoldable pub end_task : Bool → ℕ → Executor → Executor
unfolding remove
end_task began id s = record s {
  live = remove id s.live;
  completed = if began then s.completed ++ id ∷ [] else s.completed;
}

-- `if let Some(handle) = task_handles.remove(&id) { handle.abort(); }`
unfoldable pub abort_handle : Bool → Bool → ℕ → Executor → Executor
unfolding end_task remove
abort_handle true began id s =
    end_task began id (record s { task_handles = remove id s.task_handles })
abort_handle false began id s = s

-- An arm of the loop that has received a command.
unfoldable pub on_command : Bool → TaskCommand → Executor → Executor
unfolding abort_handle mem remove
on_command began (spawn id) s = record s {
  task_handles = id ∷ remove id s.task_handles;
  live = id ∷ s.live;
}
on_command began (cancel id) s = abort_handle (mem id s.task_handles) began id s

-- The arm that has received a completed id.
unfoldable pub on_completed : ℕ → Executor → Executor
unfolding remove
on_completed id s = record s { task_handles = remove id s.task_handles }

unfoldable pub remove_all : List ℕ → List ℕ → List ℕ
unfolding remove
remove_all [] l = l
remove_all (id ∷ ids) l = remove id (remove_all ids l)

-- The loop ends, aborts what has a handle, and drops its channels.
unfoldable pub shut_down : Executor → Executor
unfolding remove_all
shut_down s = record s {
  commands = [];
  completed = [];
  task_handles = [];
  live = remove_all s.task_handles s.live;
  running = false;
}

-- What can happen next. Fewer than 2^64 tasks are ever spawned. A task is cancelled by who holds its
-- handle, which `spawn_task` returns.
pub data Step : Executor → Executor → Type 0 where
  spawns : {s : Executor} → s.next_task_id + 1 < 2 ^ 64 → Step s (spawn_task s).0
  cancels : {s : Executor} (id : ℕ) → id < s.next_task_id → Step s (cancel_task id s)
  takes_command :
      {s : Executor} {c : TaskCommand} {rest : List TaskCommand} (began : Bool)
      → s.running ≡ true
      → s.commands ≡ c ∷ rest
      → Step s (on_command began c (record s { commands = rest }))
  takes_completed :
      {s : Executor} {id : ℕ} {rest : List ℕ}
      → s.running ≡ true
      → s.completed ≡ id ∷ rest
      → Step s (on_completed id (record s { completed = rest }))
  finishes :
      {s : Executor} (id : ℕ)
      → s.running ≡ true
      → mem id s.live ≡ true
      → Step s (end_task true id s)
  shuts_down : {s : Executor} → s.running ≡ true → Step s (shut_down s)

pub data Reaches : Executor → Executor → Type 0 where
  here : {s : Executor} → Reaches s s
  after : {s t u : Executor} → Reaches s t → Step t u → Reaches s u
