-- ===== src/Concurrency/Invariant.antt =====
-- The limit is kept, every permit is given back, and no wake-up is lost, in every interleaving.
use sfo_reuseport.Prelude.{
  ℕ, ◌+◌, ◌≤◌, ◌<◌, ◌≡◌, refl, ◌||◌, ◌⊎◌, inl, inr, true, List, [], ◌∷◌, ◌++◌, arith, All, ap,
}
use mathlib.Core.Path.{subst}
use sfo_reuseport.Concurrency.Steps.{
  AtomicWaker, Poll, start, loaded, full, registered, pending, Task, trying, tried, holding,
  dropping, waking, gone, System, Move, try_full, try_load, try_win, try_lose, drop_load, drop_win,
  drop_lose, drop_zero, Look, poll_free, poll_full, poll_lose, recheck_free, recheck_full, Step,
  task, wake, spawn, look, poll_win, register, repoll, Reach, begin, later,
}

-- A task that holds a unit of the counter: its permit is not yet given back.
abbrev pub unit_of : Task → ℕ
unit_of holding = 1
unit_of (dropping _) = 1
unit_of _ = 0

abbrev about_to_wake : Task → ℕ
about_to_wake waking = 1
about_to_wake _ = 0

-- The number of tasks, weighted.
pub total : (Task → ℕ) → List Task → ℕ
total f [] = 0
total f (p ∷ ps) = f p + total f ps

total-replace :
    (f : Task → ℕ) (before : List Task) (p p' : Task) (after : List Task)
    → total f (before ++ p' ∷ after) + f p ≡ total f (before ++ p ∷ after) + f p'
unfolding total
total-replace f [] p p' after = omega arith
total-replace f (q ∷ qs) p p' after = omega (arith, total-replace f qs p p' after)

-- Permits that are held or being dropped.
abbrev pub permits : List Task → ℕ
permits ts = total unit_of ts

-- Tasks that have given their unit back and are about to wake the waiting task.
abbrev pub wakers : List Task → ℕ
wakers ts = total about_to_wake ts

total-le :
    (f : Task → ℕ) (before : List Task) (p : Task) (after : List Task)
    → f p ≤ total f (before ++ p ∷ after)
unfolding total
total-le f [] p after = omega arith
total-le f (q ∷ qs) p after = omega (arith, total-le f qs p after)

module _ (P : Task → Type 0) where
  pub All-at :
      (before : List Task) (p : Task) (after : List Task) → All P (before ++ p ∷ after) → P p
  All-at [] p after h = h.0
  All-at (q ∷ qs) p after h = All-at qs p after h.1

  All-replace :
      (before : List Task) (p p' : Task) (after : List Task)
      → P p'
      → All P (before ++ p ∷ after)
      → All P (before ++ p' ∷ after)
  All-replace [] p p' after h a = (h, a.1)
  All-replace (q ∷ qs) p p' after h a = (a.0, All-replace qs p p' after h a.1)

module _ (max : ℕ) where
  -- What the local variable of a task says.
  abbrev pub Fresh : Task → Type 0
  Fresh (tried a) = a < max
  Fresh (dropping a) = 0 < a
  Fresh _ = Unit

  record Kept (n : ℕ) (p : Task) (n' : ℕ) (p' : Task) : Type 0 where
    counts : n' + unit_of p ≡ n + unit_of p'
    bound : n ≤ max → n' ≤ max
    fresh : Fresh p'
    wakes : (n ≤ n') ⊎ (about_to_wake p' ≡ 1)
    still : about_to_wake p ≤ about_to_wake p'

  Move-Kept :
      {n n' : ℕ} {p p' : Task} → Move max n p n' p' → Fresh p → unit_of p ≤ n → Kept n p n' p'
  Move-Kept (try_full h) f u = ground arith
  Move-Kept (try_load h) f u = ground arith
  Move-Kept (try_win h) f u = ground arith
  Move-Kept try_lose f u = ground arith
  Move-Kept drop_load f u = ground arith
  Move-Kept (drop_win h e) f u = ground arith
  Move-Kept (drop_lose h) f u = ground arith
  Move-Kept (drop_zero e) f u = ground arith

  module _ (w : AtomicWaker) where
    -- What the place of the waiting task says: once it has registered, its waker is in the slot
    -- or it is scheduled; where it waits unscheduled, the limit is full or a wake-up is due.
    abbrev pub PollFresh : System w → Poll → Type 0
    PollFresh s (loaded a) = a < max
    PollFresh s registered = (s.woken ≡ true) ⊎ (w.holds s.slot ≡ true)
    PollFresh s pending =
        (s.woken ≡ true) ⊎ ((w.holds s.slot ≡ true) × ((max ≤ s.active) ⊎ (0 < wakers s.tasks)))
    PollFresh s _ = Unit

    pub record Inv (s : System w) : Type 0 where
      pub counted : s.active ≡ permits s.tasks
      pub bounded : s.active ≤ max
      pub local : All Fresh s.tasks
      pub waiting : PollFresh s s.poller

    PollFresh-mono :
        (s : System w) (n : ℕ) (ts : List Task) (q : Poll)
        → ((s.active ≤ n) ⊎ (0 < wakers ts))
        → wakers s.tasks ≤ wakers ts
        → PollFresh s q
        → PollFresh (record s { active = n; tasks = ts }) q
    PollFresh-mono s n ts start a b h = tt
    PollFresh-mono s n ts (loaded x) a b h = h
    PollFresh-mono s n ts full a b h = tt
    PollFresh-mono s n ts registered a b h = h
    PollFresh-mono s n ts pending a b h = ground arith

    Look-Fresh : (s : System w) {p q : Poll} → Look max s.active p q → PollFresh s p → PollFresh s q
    Look-Fresh s (poll_free h) f = h
    Look-Fresh s (poll_full h) f = tt
    Look-Fresh s poll_lose f = tt
    Look-Fresh s (recheck_free h) f = tt
    Look-Fresh s (recheck_full h) f = ground arith

    -- A wake-up schedules the waiting task if its waker was in the slot.
    PollFresh-wake :
        (s : System w) (ts : List Task) (q : Poll)
        → PollFresh s q
        → PollFresh
            (record s { slot = w.take s.slot; woken = w.holds s.slot || s.woken; tasks = ts })
            q
    PollFresh-wake s ts start h = tt
    PollFresh-wake s ts (loaded a) h = h
    PollFresh-wake s ts full h = tt
    PollFresh-wake s ts registered h = ground arith
    PollFresh-wake s ts pending h = ground arith

    module _ {s : System w} (i : Inv s) where
      task-Inv :
          (before after : List Task) {p p' : Task} {n : ℕ}
          → s.tasks ≡ before ++ p ∷ after
          → Move max s.active p n p'
          → Inv (record s { active = n; tasks = before ++ p' ∷ after })
      task-Inv before after {p} {p'} {n} at m = record {
        counted = omega (arith, kept.counts, units, i.counted, same unit_of);
        bounded = kept.bound i.bounded;
        local = All-replace Fresh before p p' after kept.fresh all;
        waiting = PollFresh-mono s n (before ++ p' ∷ after) s.poller due more i.waiting;
      }
        where
          all : All Fresh (before ++ p ∷ after)
          all = subst (All Fresh) at i.local

          same : (f : Task → ℕ) → total f s.tasks ≡ total f (before ++ p ∷ after)
          same f = ap (total f) at

          units :
              permits (before ++ p' ∷ after) + unit_of p
              ≡ permits (before ++ p ∷ after) + unit_of p'
          units = total-replace unit_of before p p' after

          kept : Kept s.active p n p'
          kept =
              Move-Kept m (All-at Fresh before p after all)
                (omega (arith, i.counted, same unit_of, total-le unit_of before p after))

          more : wakers s.tasks ≤ wakers (before ++ p' ∷ after)
          more =
              omega (
                arith,
                kept.still,
                same about_to_wake,
                total-replace about_to_wake before p p' after,
              )

          due : (s.active ≤ n) ⊎ (0 < wakers (before ++ p' ∷ after))
          due = elim kept.wakes [
            | inl up ↦ inl up
            | inr waker ↦ inr (omega (arith, total-le about_to_wake before p' after))
          ]

      wake-Inv :
          (before after : List Task)
          → s.tasks ≡ before ++ waking ∷ after
          → Inv (record s {
            slot = w.take s.slot;
            woken = w.holds s.slot || s.woken;
            tasks = before ++ gone ∷ after;
          })
      wake-Inv before after at = record {
        counted =
            omega (arith, i.counted, ap permits at, total-replace unit_of before waking gone after);
        bounded = i.bounded;
        local = All-replace Fresh before waking gone after tt (subst (All Fresh) at i.local);
        waiting = PollFresh-wake s (before ++ gone ∷ after) s.poller i.waiting;
      }

    pub Step-Inv : {s t : System w} → Step max w s t → Inv s → Inv t
    unfolding total
    Step-Inv (task before after at m) i = task-Inv i before after at m
    Step-Inv (wake before after at) i = wake-Inv i before after at
    Step-Inv {s} spawn i = record {
      counted = omega (arith, i.counted);
      bounded = i.bounded;
      local = (tt, i.local);
      waiting =
          PollFresh-mono s s.active (trying ∷ s.tasks) s.poller (inl (omega arith)) (omega arith)
            i.waiting;
    }
    Step-Inv {s} (look l) i = record {
      counted = i.counted;
      bounded = i.bounded;
      local = i.local;
      waiting = Look-Fresh s l i.waiting;
    }
    Step-Inv {s} (poll_win at e) i = record {
      counted = omega (arith, i.counted);
      bounded = let room = subst (PollFresh s) at i.waiting in omega (arith, e);
      local = (tt, i.local);
      waiting = tt;
    }
    Step-Inv {s} (register at) i = record {
      counted = i.counted;
      bounded = i.bounded;
      local = i.local;
      waiting = inr (w.register-holds s.slot);
    }
    Step-Inv {s} (repoll at) i = record {
      counted = i.counted;
      bounded = i.bounded;
      local = i.local;
      waiting = tt;
    }

    pub Reach-Inv : {s : System w} → Reach max w s → Inv s
    unfolding total
    Reach-Inv begin = record { counted = refl; bounded = omega arith; local = tt; waiting = tt }
    Reach-Inv (later r st) = Step-Inv st (Reach-Inv r)
