-- ===== src/Concurrency/Safety.antt =====
-- What holds in every reachable state of the limit, whatever the interleaving.
use sfo_reuseport.Prelude.{ℕ, ◌≤◌, ◌<◌, ◌≡◌, ◌⊎◌, true, List, ◌∷◌, ◌++◌, All, arith}
use mathlib.Core.Path.{subst}
use sfo_reuseport.Concurrency.Steps.{AtomicWaker, pending, Task, dropping, System, Reach}
use sfo_reuseport.Concurrency.Invariant.{permits, wakers, Fresh, PollFresh, All-at, Reach-Inv}

module _ (max : ℕ) (w : AtomicWaker) {s : System w} (r : Reach max w s) where
  -- In every reachable state the counter is the number of permits that are not yet given back, which
  -- is at most the maximum.
  pub permits-le-max : (s.active ≡ permits s.tasks) × (permits s.tasks ≤ max)
  permits-le-max = let i = Reach-Inv max w r in (i.counted, omega (arith, i.counted, i.bounded))

  -- In every reachable state a task in the loop of `drop` has read a positive counter, so the test of
  -- the loop does not end it.
  pub drop-pos : (before after : List Task) (a : ℕ) → s.tasks ≡ before ++ dropping a ∷ after → 0 < a
  drop-pos before after a at =
      All-at (Fresh max) before (dropping a) after
        (subst (All (Fresh max)) at (Reach-Inv max w r).local)

  -- In every reachable state, if the task waits while the limit has room, it is scheduled to be polled
  -- again, or a task that gave its permit back is about to schedule it.
  pub no_lost_wakeup : s.poller ≡ pending → s.active < max → (s.woken ≡ true) ⊎ (0 < wakers s.tasks)
  no_lost_wakeup at room =
      let waits = subst (PollFresh max w s) at (Reach-Inv max w r).waiting in ground arith
