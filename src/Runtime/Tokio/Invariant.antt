-- ===== src/Runtime/Tokio/Invariant.antt =====
-- What holds of each task in every state that an executor can reach.
use sfo_reuseport.Prelude.{
  ℕ, ◌≤◌, ◌≡◌, refl, ap, sym, ◌∙◌, ◌==◌, ◌&&◌, ◌||◌, not, Bool, Bool-cases, ◌⊎◌, inl, inr, true,
  false, List, [], ◌∷◌, ◌++◌, arith,
}
use sfo_reuseport.Runtime.Tokio.{TaskCommand, Executor, new, mem, remove, end_task}
use sfo_reuseport.Runtime.Tokio.Lists.{
  is_about, is_spawn_of, queued, about, Ordered, mem-append, mem-remove, queued-append,
  about-append, append-Ordered, first-Ordered,
}

-- A live task has a handle and no command to spawn it; no spawn comes after another command about the
-- task; a task that has completed is not live and is not spawned again; nothing is about an id that
-- has not been given out; and nothing is live once the loop has ended.
pub record Inv (id : ℕ) (s : Executor) : Type 0 where
  pub tracked : mem id s.live ≡ true → mem id s.task_handles ≡ true
  pub once : mem id s.live ≡ true → queued id s.commands ≡ false
  pub ordered : Ordered id s.commands
  pub done : mem id s.completed ≡ true → mem id s.live ≡ false
  pub done_once : mem id s.completed ≡ true → queued id s.commands ≡ false
  pub fresh_live : s.next_task_id ≤ id → mem id s.live ≡ false
  pub fresh_done : s.next_task_id ≤ id → mem id s.completed ≡ false
  pub fresh_about : s.next_task_id ≤ id → about id s.commands ≡ false
  pub ended : s.running ≡ false → mem id s.live ≡ false

pub clash : {A : Type 0} (b : Bool) → b ≡ true → b ≡ false → A
clash b e f = absurd (ground (arith, e, f))

pub and_right : (a b : Bool) → a && b ≡ true → b ≡ true
and_right true b e = e
and_right false b e = absurd (ground arith)

pub and_none : (a b : Bool) → b ≡ false → a && b ≡ false
and_none true b e = e
and_none false b e = refl

module _ (id : ℕ) where
  pub new-Inv : Inv id new
  unfolding new mem queued about
  new-Inv = record {
    tracked = λ h. clash false h refl;
    once = λ _. refl;
    ordered = tt;
    done = λ _. refl;
    done_once = λ _. refl;
    fresh_live = λ _. refl;
    fresh_done = λ _. refl;
    fresh_about = λ _. refl;
    ended = λ _. refl;
  }

  -- A higher next id.
  pub advanced-Inv :
      (s : Executor) (next : ℕ)
      → s.next_task_id ≤ next
      → Inv id s
      → Inv id (record s { next_task_id = next })
  advanced-Inv s next le i = record {
    tracked = i.tracked;
    once = i.once;
    ordered = i.ordered;
    done = i.done;
    done_once = i.done_once;
    fresh_live = λ h. i.fresh_live (omega (arith, le, h));
    fresh_done = λ h. i.fresh_done (omega (arith, le, h));
    fresh_about = λ h. i.fresh_about (omega (arith, le, h));
    ended = i.ended;
  }

  -- A command that may spawn the task only if nothing was about it.
  module _ (s : Executor) (c : TaskCommand) (next : ℕ) (i : Inv id s) (le : s.next_task_id ≤ next)
      (old : next ≤ id → is_about id c ≡ false)
      (unused : is_spawn_of id c ≡ true → s.next_task_id ≤ id) where
    still_none :
        queued id s.commands ≡ false
        → (s.next_task_id ≤ id → queued id s.commands ≡ true)
        → queued id (s.commands ++ c ∷ []) ≡ false
    still_none q h = elim (Bool-cases (is_spawn_of id c)) [
      | inl e ↦ clash (queued id s.commands) (h (unused e)) q
      | inr e ↦ rw (queued-append id c s.commands, q, e) refl
    ]

    pub appended-Inv : Inv id (record s { next_task_id = next; commands = s.commands ++ c ∷ [] })
    appended-Inv = record {
      tracked = i.tracked;
      once = λ h. still_none (i.once h) (λ f. clash (mem id s.live) h (i.fresh_live f));
      ordered = elim (Bool-cases (is_spawn_of id c)) [
        | inl e ↦ first-Ordered id c s.commands (i.fresh_about (unused e))
        | inr e ↦ append-Ordered id c s.commands e i.ordered
      ];
      done = i.done;
      done_once =
          λ h. still_none (i.done_once h) (λ f. clash (mem id s.completed) h (i.fresh_done f));
      fresh_live = λ h. i.fresh_live (omega (arith, le, h));
      fresh_done = λ h. i.fresh_done (omega (arith, le, h));
      fresh_about =
          λ h. rw (about-append id c s.commands, i.fresh_about (omega (arith, le, h)), old h) refl;
      ended = i.ended;
    }

  -- A task `x` ends: it is not to be spawned any more, and its id was given out.
  module _ (s : Executor) (x : ℕ) (handles : List ℕ) (i : Inv id s)
      (unspawned : (x == id) ≡ true → queued id s.commands ≡ false)
      (given : s.next_task_id ≤ id → (x == id) ≡ false)
      (kept : mem id (remove x s.live) ≡ true → mem id handles ≡ true) where
    was_live : mem id (remove x s.live) ≡ true → mem id s.live ≡ true
    was_live h = and_right (not (x == id)) (mem id s.live) (sym (mem-remove id x s.live) ∙ h)

    not_live : mem id s.live ≡ false → mem id (remove x s.live) ≡ false
    not_live e = mem-remove id x s.live ∙ and_none (not (x == id)) (mem id s.live) e

    gone : (x == id) ≡ true → mem id (remove x s.live) ≡ false
    gone e = mem-remove id x s.live ∙ ap (λ b. not b && mem id s.live) e

    among : mem id (s.completed ++ x ∷ []) ≡ true → (mem id s.completed ≡ true) ⊎ ((x == id) ≡ true)
    among h = elim (Bool-cases (mem id s.completed)) [
      | inl e ↦ inl e
      | inr e ↦ inr (ap (λ b. b || x == id) (sym e) ∙ sym (mem-append id x s.completed) ∙ h)
    ]

    pub end-Inv : (began : Bool) → Inv id (end_task began x (record s { task_handles = handles }))
    unfolding end_task
    end-Inv true = record {
      tracked = kept;
      once = λ h. i.once (was_live h);
      ordered = i.ordered;
      done = λ h. elim (among h) [ inl e ↦ not_live (i.done e) | inr e ↦ gone e ];
      done_once = λ h. elim (among h) [ inl e ↦ i.done_once e | inr e ↦ unspawned e ];
      fresh_live = λ h. not_live (i.fresh_live h);
      fresh_done = λ h. rw (mem-append id x s.completed, i.fresh_done h, given h) refl;
      fresh_about = i.fresh_about;
      ended = λ h. not_live (i.ended h);
    }
    end-Inv false = record {
      tracked = kept;
      once = λ h. i.once (was_live h);
      ordered = i.ordered;
      done = λ h. not_live (i.done h);
      done_once = i.done_once;
      fresh_live = λ h. not_live (i.fresh_live h);
      fresh_done = i.fresh_done;
      fresh_about = i.fresh_about;
      ended = λ h. not_live (i.ended h);
    }
