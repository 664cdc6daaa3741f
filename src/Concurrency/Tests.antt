-- ===== src/Concurrency/Tests.antt =====
-- The tests of src/core/concurrency.rs, an interleaving with one permit, and the theorems there.
use sfo_reuseport.Prelude.{
  ℕ, ◌≡◌, ◌≤◌, ◌<◌, ◌⊎◌, refl, Bool, true, false, [], ◌∷◌, some, none, arith,
}
use sfo_reuseport.Concurrency.{new, try_acquire, release, counted, uncounted}
use sfo_reuseport.Concurrency.Steps.{
  AtomicWaker, Poll, Task, holding, dropping, waking, pending, System, Move, Look, Step, Reach,
}
use sfo_reuseport.Concurrency.Invariant.{permits, wakers}
use sfo_reuseport.Concurrency.Safety.{permits-le-max, no_lost_wakeup}

unlimited :
    ((try_acquire (new none)).1 ≡ some uncounted)
    × ((try_acquire (new (some 0))).1 ≡ some uncounted)
unfolding try_acquire new
unlimited = (refl, refl)

full_then_free :
    ((try_acquire (try_acquire (new (some 1))).0).1 ≡ none)
    × ((try_acquire (release counted (try_acquire (new (some 1))).0)).1 ≡ some counted)
unfolding try_acquire new release
full_then_free = (refl, refl)

-- A slot that remembers whether it holds the waker.
abbrev flag_waker : AtomicWaker
flag_waker = record {
  Slot = Bool;
  empty = false;
  holds = λ s. s;
  register = λ _. true;
  take = λ _. false;
  register-holds = λ _. refl;
}

abbrev state : ℕ → Poll → Task → System flag_waker
state n q t = record { active = n; slot = true; woken = false; poller = q; tasks = t ∷ [] }

-- A task takes the only permit, the waiting task finds the limit full and registers, then the
-- permit is dropped: the wake-up is due.
waits : Reach 1 flag_waker (state 1 pending holding)
waits =
    Reach.later
      (Reach.later
        (Reach.later
          (Reach.later
            (Reach.later (Reach.later Reach.begin Step.spawn)
              (Step.task [] [] refl (Move.try_load (omega arith))))
            (Step.task [] [] refl (Move.try_win refl)))
          (Step.look (Look.poll_full (omega arith))))
        (Step.register refl))
      (Step.look (Look.recheck_full (omega arith)))

drops : Reach 1 flag_waker (state 1 pending (dropping 1))
drops = Reach.later waits (Step.task [] [] refl Move.drop_load)

released : Reach 1 flag_waker (state 0 pending waking)
released = Reach.later drops (Step.task [] [] refl (Move.drop_win (omega arith) refl))

permits-le-max_example : (◌≡◌ {A = ℕ} 1 (permits (holding ∷ []))) × (permits (holding ∷ []) ≤ 1)
permits-le-max_example = permits-le-max 1 flag_waker waits

no_lost_wakeup_example : (◌≡◌ {A = Bool} false true) ⊎ (0 < wakers (waking ∷ []))
no_lost_wakeup_example = no_lost_wakeup 1 flag_waker released refl (omega arith)
