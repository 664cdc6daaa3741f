-- ===== src/Runtime/AsyncStd/Laws.antt =====
-- What the cancellation of a task guarantees on the executor of src/runtime/async_std.rs.
use sfo_reuseport.Prelude.{
  ℕ, ◌+◌, ◌<◌, ◌≡◌, refl, ap, ◌∙◌, ◌==◌, ==_iff, ◌&&◌, not, Bool-cases, inl, inr, true, false, List,
  [], ◌∷◌, ◌++◌, if◌then◌else◌, arith,
}
use mathlib.Core.Path.{subst}
use sfo_reuseport.Error.{IoError, ErrorKind, text, Result, ok, err}
use sfo_reuseport.Runtime.Tokio.{mem, remove}
use sfo_reuseport.Runtime.Tokio.Lists.{mem-append, mem-remove}
use sfo_reuseport.Runtime.Tokio.Invariant.{clash, and_none}
use sfo_reuseport.Runtime.AsyncStd.{
  TaskHandleInner, executor, local, CurrentThreadExecutor, Spawning, local_spawn_task, spawn,
  spawn_task, poll_wrapper, cancel, finish, Step, spawns, polls, cancels, finishes, Reaches, here,
  after,
}

-- The task is not live, has no wrapper, and its number was given out.
record Over (id : ℕ) (s : CurrentThreadExecutor) : Type 0 where
  not_live : mem id s.live ≡ false
  no_wrapper : mem id s.wrappers ≡ false
  given : id < s.next

module _ (id : ℕ) where
  removed-none : (x : ℕ) (l : List ℕ) → mem id l ≡ false → mem id (remove x l) ≡ false
  removed-none x l e = mem-remove id x l ∙ and_none (not (x == id)) (mem id l) e

  local_spawn_task-Over :
      (thread x : ℕ) (s : CurrentThreadExecutor)
      → (x == id) ≡ false
      → Over id s
      → Over id (local_spawn_task thread x s).0
  unfolding local_spawn_task mem
  local_spawn_task-Over thread x s other o =
      elim (thread == s.owner_thread)
        as (λ b.
          Over id
            (if◌then◌else◌ {A = Spawning} b (record s { live = x ∷ s.live }, ok (local x))
              (s, err refused)).0) [
                | true ↦ record {
                  not_live = rw other o.not_live;
                  no_wrapper = o.no_wrapper;
                  given = o.given;
                }
                | false ↦ o
              ]
    where
      refused : IoError
      refused = record {
        kind = ErrorKind.invalid_input;
        message = text "local task must be spawned on the executor owner thread";
      }

  spawned-Over :
      (thread : ℕ) (s : CurrentThreadExecutor) → Over id s → Over id (spawn_task thread s).0
  unfolding spawn_task spawn
  spawned-Over thread s o =
      elim (thread == s.owner_thread)
        as (λ b.
          Over id
            (if◌then◌else◌ {A = Spawning} b (local_spawn_task thread s.next t)
              (spawn s.next t)).0) [
                | true ↦ local_spawn_task-Over thread s.next t new_one (record {
                  not_live = o.not_live;
                  no_wrapper = o.no_wrapper;
                  given = omega (arith, given);
                })
                | false ↦ record {
                  not_live = o.not_live;
                  no_wrapper = rw (mem-append id s.next s.wrappers, o.no_wrapper, new_one) refl;
                  given = omega (arith, given);
                }
              ]
    where
      t : CurrentThreadExecutor
      t = record s { next = s.next + 1 }

      given : id < s.next
      given = o.given

      new_one : (s.next == id) ≡ false
      new_one = ground (arith, given)

  no_wrapper_for :
      (s : CurrentThreadExecutor) (x : ℕ) → Over id s → mem x s.wrappers ≡ true → (x == id) ≡ false
  no_wrapper_for s x o found = elim (Bool-cases (x == id)) [
    | inl e ↦
        clash (mem id s.wrappers) (subst (λ y. mem y s.wrappers ≡ true) ((==_iff x id).0 e) found)
          o.no_wrapper
    | inr e ↦ e
  ]

  cancelled-Over :
      (handle : TaskHandleInner) (s : CurrentThreadExecutor) → Over id s → Over id (cancel handle s)
  unfolding cancel
  cancelled-Over (executor x) s o = record {
    not_live = o.not_live;
    no_wrapper = removed-none x s.wrappers o.no_wrapper;
    given = o.given;
  }
  cancelled-Over (local x) s o = record {
    not_live = removed-none x s.live o.not_live;
    no_wrapper = o.no_wrapper;
    given = o.given;
  }

  Step-Over : {s t : CurrentThreadExecutor} → Step s t → Over id s → Over id t
  unfolding poll_wrapper finish cancel
  Step-Over (spawns {s = s} thread) o = spawned-Over thread s o
  Step-Over (polls {s = s} thread x found) o =
      local_spawn_task-Over thread x (record s { wrappers = remove x s.wrappers })
        (no_wrapper_for s x o found) (cancelled-Over (executor x) s o)
  Step-Over (cancels {s = s} handle) o = cancelled-Over handle s o
  Step-Over (finishes {s = s} x) o = cancelled-Over (local x) s o

  Reaches-Over : {s t : CurrentThreadExecutor} → Reaches s t → Over id s → Over id t
  Reaches-Over here o = o
  Reaches-Over (after r step) o = Step-Over step (Reaches-Over r o)

  same : (id == id) ≡ true
  same = ground arith

  cancelled-none : (l : List ℕ) → mem id (remove id l) ≡ false
  cancelled-none l = mem-remove id id l ∙ ap (λ b. not b && mem id l) same

-- `TaskHandle::cancel` of what a spawn returned.
abbrev pub cancel_result :
    Result IoError TaskHandleInner → CurrentThreadExecutor → CurrentThreadExecutor
cancel_result (ok handle) s = cancel handle s
cancel_result (err e) s = s

spawn_task-wrapped :
    (thread : ℕ) (s : CurrentThreadExecutor)
    → (thread == s.owner_thread) ≡ false
    → spawn_task thread s
      ≡ (record s { next = s.next + 1; wrappers = s.wrappers ++ s.next ∷ [] }, ok (executor s.next))
unfolding spawn_task spawn
spawn_task-wrapped thread s away = rw away refl

wrapped-Over :
    (thread : ℕ) (s : CurrentThreadExecutor)
    → (thread == s.owner_thread) ≡ false
    → mem s.next s.live ≡ false
    → Over s.next (cancel_result (spawn_task thread s).1 (spawn_task thread s).0)
unfolding cancel
wrapped-Over thread s away fresh = rw (spawn_task-wrapped thread s away) (record {
  not_live = fresh;
  no_wrapper = cancelled-none s.next (s.wrappers ++ s.next ∷ []);
  given = omega arith;
})

polled-live :
    (id : ℕ) (s : CurrentThreadExecutor) → mem id (poll_wrapper s.owner_thread id s).live ≡ true
unfolding poll_wrapper local_spawn_task mem
polled-live id s =
    let own : (s.owner_thread == s.owner_thread) ≡ true = ground arith in
    rw (poll_wrapper, local_spawn_task, own) (rw (same id) refl)

begun-live :
    (thread : ℕ) (s : CurrentThreadExecutor)
    → (thread == s.owner_thread) ≡ false
    → mem s.next
        (cancel_result
          (spawn_task thread s).1
          (poll_wrapper s.owner_thread s.next (spawn_task thread s).0)).live
      ≡ true
unfolding cancel
begun-live thread s away =
    rw (spawn_task-wrapped thread s away)
      (polled-live s.next (record s { next = s.next + 1; wrappers = s.wrappers ++ s.next ∷ [] }))

-- A task spawned from another thread than the owner, with a new number, that is cancelled before its
-- wrapper is polled is not live in any state that can be reached afterwards. One that is cancelled
-- after the owner thread has polled its wrapper is still live.
pub cancel-spawn_task :
    (thread : ℕ) (s : CurrentThreadExecutor) {t : CurrentThreadExecutor}
    → (thread == s.owner_thread) ≡ false
    → mem s.next s.live ≡ false
    → Reaches (cancel_result (spawn_task thread s).1 (spawn_task thread s).0) t
    → (mem s.next t.live ≡ false)
      × (mem s.next
            (cancel_result
              (spawn_task thread s).1
              (poll_wrapper s.owner_thread s.next (spawn_task thread s).0)).live
          ≡ true)
cancel-spawn_task thread s away fresh later = (
  (Reaches-Over s.next later (wrapped-Over thread s away fresh)).not_live,
  begun-live thread s away,
)
