-- ===== src/Runtime/Tokio/Kept.antt =====
-- Every step of a tokio executor keeps its invariant.
use mathlib.Core.Path.{subst}
use native.Mathlib.Nat.{mod-eq_of_lt}
use sfo_reuseport.Prelude.{
  ℕ, ◌+◌, ◌^◌, ◌<◌, ◌≤◌, ◌≡◌, refl, ap, sym, ◌∙◌, ◌==◌, ==_iff, ◌&&◌, ◌||◌, not, Bool, Bool-cases,
  inl, inr, true, false, List, [], ◌∷◌, ◌++◌, if◌then◌else◌, arith,
}
use sfo_reuseport.Runtime.Tokio.{
  TaskCommand, spawn, cancel, Executor, mem, remove, remove_all, send, spawn_task, cancel_task,
  end_task, abort_handle, on_command, on_completed, shut_down, Step, spawns, cancels, takes_command,
  takes_completed, finishes, shuts_down, Reaches, here, after,
}
use sfo_reuseport.Runtime.Tokio.Lists.{
  is_about, is_spawn_of, queued, about, Ordered, mem-remove, or_false, mem-remove_all,
}
use sfo_reuseport.Runtime.Tokio.Invariant.{
  Inv, advanced-Inv, appended-Inv, end-Inv, clash, and_right, and_none,
}

module _ (id : ℕ) where
  sent-Inv :
      (s : Executor) (c : TaskCommand) (next : ℕ)
      → Inv id s
      → s.next_task_id ≤ next
      → (next ≤ id → is_about id c ≡ false)
      → (is_spawn_of id c ≡ true → s.next_task_id ≤ id)
      → Inv id (send c (record s { next_task_id = next })).0
  unfolding send
  sent-Inv s c next i le old unused =
      elim s.running
        as (λ b.
          Inv id
            (if◌then◌else◌ {A = Executor × Bool} b
              (record s { next_task_id = next; commands = s.commands ++ c ∷ [] }, true)
              (record s { next_task_id = next }, false)).0) [
                | true ↦ appended-Inv id s c next i le old unused
                | false ↦ advanced-Inv id s next le i
              ]

  spawned-Inv : (s : Executor) → s.next_task_id + 1 < 2 ^ 64 → Inv id s → Inv id (spawn_task s).0
  unfolding spawn_task
  spawned-Inv s lt i = rw (mod-eq_of_lt {n = s.next_task_id + 1} {m = 2 ^ 64} lt) (
      sent-Inv s (spawn s.next_task_id) (s.next_task_id + 1) i (omega arith) (λ h. ground arith)
        (λ h. ground arith))

  cancelled-Inv : (s : Executor) (x : ℕ) → x < s.next_task_id → Inv id s → Inv id (cancel_task x s)
  unfolding cancel_task
  cancelled-Inv s x lt i =
      sent-Inv s (cancel x) s.next_task_id i (omega arith) (λ h. ground arith)
        (λ h. clash false h refl)

  module _ (s : Executor) (c : TaskCommand) (rest : List TaskCommand) (runs : s.running ≡ true)
      (e : s.commands ≡ c ∷ rest) (i : Inv id s) where
    pub head : (is_about id c ≡ true → queued id rest ≡ false) × Ordered id rest
    head = subst (Ordered id) e i.ordered

    rest_of : queued id s.commands ≡ false → (is_spawn_of id c ≡ false) × (queued id rest ≡ false)
    unfolding queued
    rest_of h = or_false (is_spawn_of id c) (queued id rest) (sym (ap (queued id) e) ∙ h)

    none_of : about id s.commands ≡ false → (is_about id c ≡ false) × (about id rest ≡ false)
    unfolding about
    none_of h = or_false (is_about id c) (about id rest) (sym (ap (about id) e) ∙ h)

    taken-Inv : Inv id (record s { commands = rest })
    taken-Inv = record {
      tracked = i.tracked;
      once = λ h. (rest_of (i.once h)).1;
      ordered = head.1;
      done = i.done;
      done_once = λ h. (rest_of (i.done_once h)).1;
      fresh_live = i.fresh_live;
      fresh_done = i.fresh_done;
      fresh_about = λ h. (none_of (i.fresh_about h)).1;
      ended = i.ended;
    }

  aborted-Inv :
      (s : Executor) (x : ℕ) (found began : Bool)
      → Inv id s
      → ((x == id) ≡ true → queued id s.commands ≡ false)
      → (s.next_task_id ≤ id → (x == id) ≡ false)
      → Inv id (abort_handle found began x s)
  unfolding abort_handle
  aborted-Inv s x true began i unspawned given =
      end-Inv id s x (remove x s.task_handles) i unspawned given
        (λ h.
          let both = sym (mem-remove id x s.live) ∙ h in
          mem-remove id x s.task_handles
          ∙ ap (λ b. not (x == id) && b)
              (i.tracked (and_right (not (x == id)) (mem id s.live) both)
                ∙ sym (and_right (not (x == id)) (mem id s.live) both))
          ∙ both)
        began
  aborted-Inv s x false began i unspawned given = i

  spawning-Inv :
      (s : Executor) (x : ℕ) (rest : List TaskCommand) (began : Bool)
      → s.running ≡ true
      → s.commands ≡ spawn x ∷ rest
      → Inv id s
      → Inv id (on_command began (spawn x) (record s { commands = rest }))
  unfolding on_command mem
  spawning-Inv s x rest began runs e i = record {
    tracked = λ h. elim (Bool-cases (x == id)) [
      | inl f ↦ rw f refl
      | inr f ↦
          rw (f, mem-remove id x s.task_handles)
            (rw f (i.tracked (ap (λ b. b || mem id s.live) (sym f) ∙ h)))
    ];
    once = λ h. elim (Bool-cases (x == id)) [
      | inl f ↦ (head s (spawn x) rest runs e i).0 f
      | inr f ↦
          (rest_of s (spawn x) rest runs e i (i.once (ap (λ b. b || mem id s.live) (sym f) ∙ h))).1
    ];
    ordered = (head s (spawn x) rest runs e i).1;
    done = λ h. rw ((rest_of s (spawn x) rest runs e i (i.done_once h)).0) (i.done h);
    done_once = λ h. (rest_of s (spawn x) rest runs e i (i.done_once h)).1;
    fresh_live = λ h. rw ((none_of s (spawn x) rest runs e i (i.fresh_about h)).0) (i.fresh_live h);
    fresh_done = i.fresh_done;
    fresh_about = λ h. (none_of s (spawn x) rest runs e i (i.fresh_about h)).1;
    ended = λ h. clash s.running runs h;
  }

  aborting-Inv :
      (s : Executor) (x : ℕ) (rest : List TaskCommand) (began : Bool)
      → s.running ≡ true
      → s.commands ≡ cancel x ∷ rest
      → Inv id s
      → Inv id (on_command began (cancel x) (record s { commands = rest }))
  unfolding on_command
  aborting-Inv s x rest began runs e i =
      aborted-Inv (record s { commands = rest }) x (mem x s.task_handles) began
        (taken-Inv s (cancel x) rest runs e i) (head s (cancel x) rest runs e i).0
        (λ h. (none_of s (cancel x) rest runs e i (i.fresh_about h)).0)

  commanded-Inv :
      (s : Executor) (c : TaskCommand) (rest : List TaskCommand) (began : Bool)
      → s.running ≡ true
      → s.commands ≡ c ∷ rest
      → Inv id s
      → Inv id (on_command began c (record s { commands = rest }))
  commanded-Inv s (spawn x) rest began runs e i = spawning-Inv s x rest began runs e i
  commanded-Inv s (cancel x) rest began runs e i = aborting-Inv s x rest began runs e i

  completed-Inv :
      (s : Executor) (x : ℕ) (rest : List ℕ)
      → s.completed ≡ x ∷ rest
      → Inv id s
      → Inv id (on_completed x (record s { completed = rest }))
  unfolding on_completed mem
  completed-Inv s x rest e i =
      let was : (b : Bool) → mem id rest ≡ b → mem id s.completed ≡ x == id || b =
        λ b h. ap (mem id) e ∙ ap (λ d. x == id || d) h in
      let later : mem id rest ≡ true → mem id s.completed ≡ true = λ h. was true h ∙ ground arith in
      record {
        tracked = λ h. elim (Bool-cases (x == id)) [
          | inl f ↦ clash (mem id s.live) h (i.done (was _ refl ∙ ap (λ b. b || mem id rest) f))
          | inr f ↦ rw (mem-remove id x s.task_handles, f) (i.tracked h)
        ];
        once = i.once;
        ordered = i.ordered;
        done = λ h. i.done (later h);
        done_once = λ h. i.done_once (later h);
        fresh_live = i.fresh_live;
        fresh_done = λ h. (or_false (x == id) (mem id rest) (sym (was _ refl) ∙ i.fresh_done h)).1;
        fresh_about = i.fresh_about;
        ended = i.ended;
      }

  finished-Inv :
      (s : Executor) (x : ℕ) → mem x s.live ≡ true → Inv id s → Inv id (end_task true x s)
  finished-Inv s x live i =
      end-Inv id s x s.task_handles i (λ e. i.once (at e))
        (λ h. elim (Bool-cases (x == id)) [
          | inl e ↦ clash (mem id s.live) (at e) (i.fresh_live h)
          | inr e ↦ e
        ])
        (λ h.
          i.tracked (and_right (not (x == id)) (mem id s.live) (sym (mem-remove id x s.live) ∙ h)))
        true
    where
      at : (x == id) ≡ true → mem id s.live ≡ true
      at e = subst (λ y. mem y s.live ≡ true) ((==_iff x id).0 e) live

  all_removed : (s : Executor) → Inv id s → mem id (remove_all s.task_handles s.live) ≡ false
  all_removed s i = elim (Bool-cases (mem id s.live)) [
    | inl h ↦
        mem-remove_all id s.task_handles s.live ∙ ap (λ b. not b && mem id s.live) (i.tracked h)
    | inr h ↦
        mem-remove_all id s.task_handles s.live
        ∙ and_none (not (mem id s.task_handles)) (mem id s.live) h
  ]

  shut_down-Inv : (s : Executor) → Inv id s → Inv id (shut_down s)
  unfolding shut_down mem queued about
  shut_down-Inv s i = record {
    tracked = λ h. clash (mem id (remove_all s.task_handles s.live)) h (all_removed s i);
    once = λ _. refl;
    ordered = tt;
    done = λ h. clash false h refl;
    done_once = λ _. refl;
    fresh_live = λ _. all_removed s i;
    fresh_done = λ _. refl;
    fresh_about = λ _. refl;
    ended = λ _. all_removed s i;
  }

  pub Step-Inv : {s t : Executor} → Step s t → Inv id s → Inv id t
  Step-Inv (spawns {s = s} lt) i = spawned-Inv s lt i
  Step-Inv (cancels {s = s} x lt) i = cancelled-Inv s x lt i
  Step-Inv (takes_command {s = s} {c = c} {rest = rest} began runs e) i =
      commanded-Inv s c rest began runs e i
  Step-Inv (takes_completed {s = s} {id = x} {rest = rest} runs e) i = completed-Inv s x rest e i
  Step-Inv (finishes {s = s} x runs live) i = finished-Inv s x live i
  Step-Inv (shuts_down {s = s} runs) i = shut_down-Inv s i

  pub Reaches-Inv : {s t : Executor} → Reaches s t → Inv id s → Inv id t
  Reaches-Inv here i = i
  Reaches-Inv (after r step) i = Step-Inv step (Reaches-Inv r i)
