-- ===== src/Server/Shutdown/Tests.antt =====
-- A runtime of one worker, dropped step by step.
use sfo_reuseport.Prelude.{
  ℕ, ◌≤◌, ◌<◌, ◌≡◌, ◌⊎◌, refl, inr, Bool, true, false, [], ◌∷◌, none, some, All,
}
use sfo_reuseport.Runtime.Tokio
use sfo_reuseport.Server.Shutdown.{
  WorkerThread, start_worker, Dropping, drop, DropStep, shuts_down, joins, joining_steps, runs,
  ends, Drops, here, after,
}
use sfo_reuseport.Server.Shutdown.Laws.{IsWorker, IsOver, drop-IsOver}
use sfo_reuseport.Server.Shutdown.Progress.{to_do, drop-progress}

started-IsWorker : IsWorker start_worker
unfolding start_worker Tokio.new
started-IsWorker = record { reached = Tokio.here; asked = λ h. cc; ended_after = λ h. cc }

abbrev told_worker : WorkerThread
unfolding start_worker
told_worker = record start_worker { told = true }

told : Drops (drop (start_worker ∷ [])) (record {
  active = false;
  joined = [];
  joining = some (record start_worker { told = true });
  left = [];
})
unfolding drop
told = after here (shuts_down refl refl)

-- The loop has ended, then the thread, and it has been joined.
abbrev over : WorkerThread
over = record {
  executor = record {
    next_task_id = 1;
    commands = [];
    completed = [];
    task_handles = [];
    live = [];
    running = false;
  };
  told = true;
  ended = true;
}

dropped :
    Drops
      (drop (start_worker ∷ []))
      (record { active = false; joined = over ∷ []; joining = none; left = [] })
unfolding drop start_worker Tokio.new Tokio.shut_down
dropped =
    after
      (after (after told (joining_steps refl (runs (Tokio.shuts_down refl) (inr refl))))
        (joining_steps refl (ends refl)))
      (joins refl refl)

drop-IsOver_example : (◌≡◌ {A = Bool} false false) × (◌≡◌ {A = ℕ} 1 1) × All IsOver (over ∷ [])
drop-IsOver_example = drop-IsOver (start_worker ∷ []) (started-IsWorker, tt) dropped refl refl

abbrev at_start : Dropping
at_start = record { active = false; joined = []; joining = none; left = start_worker ∷ [] }

drop-progress_example :
    (to_do (record {
      active = false;
      joined = [];
      joining = some (record start_worker { told = true });
      left = [];
    })
      ≤ to_do at_start)
    × (((at_start.joining ≡ none) × (at_start.left ≡ []))
        ⊎ ((d' : Dropping) × DropStep at_start d' × (to_do d' < to_do at_start)))
unfolding drop
drop-progress_example =
    drop-progress (start_worker ∷ []) (started-IsWorker, tt) here (shuts_down refl refl)
