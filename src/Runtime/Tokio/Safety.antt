-- ===== src/Runtime/Tokio/Safety.antt =====
-- What cancelling a task and shutting an executor down guarantee.
use native.Mathlib.Nat.{mod-eq_of_lt}
use sfo_reuseport.Prelude.{
  ℕ, ◌+◌, ◌^◌, ◌<◌, ◌≤◌, ◌≡◌, refl, ap, sym, ◌∙◌, ◌==◌, ◌&&◌, ◌||◌, not, ltb, Bool, Bool-cases, inl,
  inr, true, false, List, [], ◌∷◌, ◌++◌, if◌then◌else◌, arith,
}
use sfo_reuseport.Runtime.Tokio.{
  TaskCommand, spawn, cancel, Executor, new, mem, remove, send, spawn_task, cancel_task, end_task,
  abort_handle, on_command, on_completed, shut_down, Step, spawns, cancels, takes_command,
  takes_completed, finishes, shuts_down, Reaches, here, after,
}
use sfo_reuseport.Runtime.Tokio.Lists.{
  is_spawn_of, queued, about, mem-remove, queued-append, or_false, mem-remove_all,
}
use sfo_reuseport.Runtime.Tokio.Invariant.{Inv, new-Inv, clash, and_none}
use sfo_reuseport.Runtime.Tokio.Kept.{head, Reaches-Inv}

-- In every state that an executor can reach in which its loop has ended, no task is live: the end of
-- the loop has aborted them all, and none is spawned afterwards.
pub stopped-none :
    {s : Executor} → Reaches new s → s.running ≡ false → (id : ℕ) → mem id s.live ≡ false
stopped-none r e id = (Reaches-Inv id r (new-Inv id)).ended e

-- The task is not live, no command is to spawn it, and its id was given out.
record Over (id : ℕ) (s : Executor) : Type 0 where
  not_live : mem id s.live ≡ false
  not_queued : queued id s.commands ≡ false
  given : id < s.next_task_id

module _ (id : ℕ) where
  removed-none : (x : ℕ) (l : List ℕ) → mem id l ≡ false → mem id (remove x l) ≡ false
  removed-none x l e = mem-remove id x l ∙ and_none (not (x == id)) (mem id l) e

  sent-Over :
      (s : Executor) (c : TaskCommand) (next : ℕ)
      → Over id s
      → s.next_task_id ≤ next
      → is_spawn_of id c ≡ false
      → Over id (send c (record s { next_task_id = next })).0
  unfolding send
  sent-Over s c next o le e =
      elim s.running
        as (λ b.
          Over id
            (if◌then◌else◌ {A = Executor × Bool} b
              (record s { next_task_id = next; commands = s.commands ++ c ∷ [] }, true)
              (record s { next_task_id = next }, false)).0) [
                | true ↦ record {
                  not_live = o.not_live;
                  not_queued = rw (queued-append id c s.commands, o.not_queued, e) refl;
                  given = omega (arith, o.given, le);
                }
                | false ↦ record {
                  not_live = o.not_live;
                  not_queued = o.not_queued;
                  given = omega (arith, o.given, le);
                }
              ]

  spawned-Over : (s : Executor) → s.next_task_id + 1 < 2 ^ 64 → Over id s → Over id (spawn_task s).0
  unfolding spawn_task
  spawned-Over s lt o = rw (mod-eq_of_lt {n = s.next_task_id + 1} {m = 2 ^ 64} lt) (
      sent-Over s (spawn s.next_task_id) (s.next_task_id + 1) o (omega arith)
        (let given = o.given in ground (arith, given)))

  aborted-Over :
      (s : Executor) (found began : Bool) (x : ℕ)
      → Over id s
      → Over id (abort_handle found began x s)
  unfolding abort_handle end_task
  aborted-Over s true began x o = record {
    not_live = removed-none x s.live o.not_live;
    not_queued = o.not_queued;
    given = o.given;
  }
  aborted-Over s false began x o = o

  commanded-Over :
      (s : Executor) (c : TaskCommand) (rest : List TaskCommand) (began : Bool)
      → s.commands ≡ c ∷ rest
      → Over id s
      → Over id (on_command began c (record s { commands = rest }))
  unfolding on_command mem queued
  commanded-Over s (spawn x) rest began e o =
      let (a, b) = or_false (x == id) (queued id rest) (sym (ap (queued id) e) ∙ o.not_queued) in
      record { not_live = rw a o.not_live; not_queued = b; given = o.given }
  commanded-Over s (cancel x) rest began e o =
      aborted-Over (record s { commands = rest }) (mem x s.task_handles) began x
        (record {
          not_live = o.not_live;
          not_queued = sym (ap (queued id) e) ∙ o.not_queued;
          given = o.given;
        })

  Step-Over : {s t : Executor} → Step s t → Over id s → Over id t
  unfolding cancel_task on_completed end_task shut_down queued
  Step-Over (spawns {s = s} lt) o = spawned-Over s lt o
  Step-Over (cancels {s = s} x lt) o = sent-Over s (cancel x) s.next_task_id o (omega arith) refl
  Step-Over (takes_command {s = s} {c = c} {rest = rest} began runs e) o =
      commanded-Over s c rest began e o
  Step-Over (takes_completed runs e) o = record {
    not_live = o.not_live;
    not_queued = o.not_queued;
    given = o.given;
  }
  Step-Over (finishes {s = s} x runs live) o = record {
    not_live = removed-none x s.live o.not_live;
    not_queued = o.not_queued;
    given = o.given;
  }
  Step-Over (shuts_down {s = s} runs) o = record {
    not_live =
        mem-remove_all id s.task_handles s.live
        ∙ and_none (not (mem id s.task_handles)) (mem id s.live) o.not_live;
    not_queued = refl;
    given = o.given;
  }

  Reaches-Over : {s t : Executor} → Reaches s t → Over id s → Over id t
  Reaches-Over here o = o
  Reaches-Over (after r step) o = Step-Over step (Reaches-Over r o)

  same : (id == id) ≡ true
  same = ground arith

  -- The arm that takes the command to cancel the task.
  aborted-none :
      (s : Executor) (found began : Bool)
      → mem id s.task_handles ≡ found
      → (mem id s.live ≡ true → mem id s.task_handles ≡ true)
      → queued id s.commands ≡ false
      → id < s.next_task_id
      → Over id (abort_handle found began id s)
  unfolding abort_handle end_task
  aborted-none s true began f tracked q lt = record {
    not_live = mem-remove id id s.live ∙ ap (λ b. not b && mem id s.live) same;
    not_queued = q;
    given = lt;
  }
  aborted-none s false began f tracked q lt = record {
    not_live = elim (Bool-cases (mem id s.live)) [
      | inl e ↦ clash (mem id s.task_handles) (tracked e) f
      | inr e ↦ e
    ];
    not_queued = q;
    given = lt;
  }

  was_given :
      (s : Executor) (rest : List TaskCommand)
      → s.commands ≡ cancel id ∷ rest
      → Inv id s
      → id < s.next_task_id
  unfolding about
  was_given s rest e i = elim (Bool-cases (ltb id s.next_task_id)) [
    | inl h ↦ ground (arith, h)
    | inr h ↦
        clash (about id s.commands) (ap (about id) e ∙ ap (λ b. b || about id rest) same)
          (i.fresh_about (ground (arith, h)))
  ]

  cancelled-Over :
      (s : Executor) (rest : List TaskCommand) (began : Bool)
      → s.running ≡ true
      → s.commands ≡ cancel id ∷ rest
      → Inv id s
      → Over id (on_command began (cancel id) (record s { commands = rest }))
  unfolding on_command
  cancelled-Over s rest began runs e i =
      aborted-none (record s { commands = rest }) (mem id s.task_handles) began refl i.tracked
        ((head id s (cancel id) rest runs e i).0 same) (was_given s rest e i)

-- A task that the loop has been told to cancel is not live any more when it has dealt with the command,
-- nor in any state that the executor can reach afterwards, whether it was running, had finished, or
-- was still to begin. Fewer than 2^64 tasks are spawned.
pub cancelled-none :
    (id : ℕ) {s t : Executor} {rest : List TaskCommand} (began : Bool)
    → Reaches new s
    → s.running ≡ true
    → s.commands ≡ cancel id ∷ rest
    → Reaches (on_command began (cancel id) (record s { commands = rest })) t
    → mem id t.live ≡ false
cancelled-none id {s = s} {rest = rest} began r runs e later =
    (Reaches-Over id later
      (cancelled-Over id s rest began runs e (Reaches-Inv id r (new-Inv id)))).not_live
