-- ===== src/Runtime/Tokio/Tests.antt =====
-- Runs of an executor at concrete commands.
use sfo_reuseport.Prelude.{◌≡◌, refl, true, false, [], ◌∷◌, arith}
use sfo_reuseport.Runtime.Tokio.{
  spawn, cancel, Executor, new, mem, remove, send, spawn_task, cancel_task, on_command, spawns,
  cancels, takes_command, Reaches, here, after,
}
use sfo_reuseport.Runtime.Tokio.Safety.{cancelled-none}

-- Two tasks are spawned, and the first is cancelled before the loop takes a command.
abbrev asked : Executor
unfolding new spawn_task cancel_task send
asked = cancel_task 1 (spawn_task (spawn_task new).0).0

asked-Reaches : Reaches new asked
unfolding new spawn_task cancel_task send
asked-Reaches =
    after (after (after here (spawns (omega arith))) (spawns (omega arith)))
      (cancels 1 (omega arith))

-- The loop has spawned both.
abbrev started : Executor
started = record {
  next_task_id = 3;
  commands = cancel 1 ∷ [];
  completed = [];
  task_handles = 2 ∷ 1 ∷ [];
  live = 2 ∷ 1 ∷ [];
  running = true;
}

started-Reaches : Reaches new started
unfolding new spawn_task cancel_task send on_command remove
started-Reaches =
    after
      (after asked-Reaches
        (takes_command {c = spawn 1} {rest = spawn 2 ∷ cancel 1 ∷ []} false refl refl))
      (takes_command {c = spawn 2} {rest = cancel 1 ∷ []} false refl refl)

cancelled-none_example :
    mem 1 (on_command true (cancel 1) (record started { commands = [] })).live ≡ false
cancelled-none_example = cancelled-none 1 true started-Reaches refl refl here
