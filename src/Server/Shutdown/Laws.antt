-- ===== src/Server/Shutdown/Laws.antt =====
-- The drop of a runtime leaves no worker that has a live task.
use sfo_reuseport.Prelude.{
  ℕ, suc, ◌+◌, ◌≡◌, refl, ap, ◌∙◌, inl, inr, Bool, true, false, List, [], ◌∷◌, ◌++◌, Option, none,
  some, length, length-append, All, All-append, if◌then◌else◌, arith,
}
use mathlib.Core.Path.{subst}
use sfo_reuseport.Runtime.Tokio
use sfo_reuseport.Runtime.Tokio.{TaskCommand, Executor, mem}
use sfo_reuseport.Runtime.Tokio.Invariant.{clash}
use sfo_reuseport.Runtime.Tokio.Safety.{stopped-none}
use sfo_reuseport.Server.Shutdown.{
  WorkerThread, ThreadStep, runs, ends, Dropping, drop, DropStep, shuts_down, joins, joining_steps,
  left_steps, Drops, here, after,
}

-- A worker's executor has run, and its thread ends only after its loop, which ends only when told to.
pub record IsWorker (w : WorkerThread) : Type 0 where
  pub reached : Tokio.Reaches Tokio.new w.executor
  pub asked : w.executor.running ≡ false → w.told ≡ true
  pub ended_after : w.ended ≡ true → w.executor.running ≡ false

send_running : (c : TaskCommand) (s : Executor) → (Tokio.send c s).0.running ≡ s.running
unfolding Tokio.send
send_running c s =
    elim s.running
      as (λ b.
        (if◌then◌else◌ {A = Executor × Bool} b (record s { commands = s.commands ++ c ∷ [] }, true)
          (s, false)).0.running
        ≡ s.running) [ true ↦ refl | false ↦ refl ]

-- A loop that has ended does not run again.
pub stays_stopped : {s t : Executor} → Tokio.Step s t → s.running ≡ false → t.running ≡ false
unfolding Tokio.spawn_task Tokio.cancel_task
stays_stopped (Tokio.spawns {s = s} lt) e = send_running _ (record s { next_task_id = _ }) ∙ e
stays_stopped (Tokio.cancels {s = s} id lt) e = send_running _ s ∙ e
stays_stopped (Tokio.takes_command {s = s} began running c) e = clash s.running running e
stays_stopped (Tokio.takes_completed {s = s} running c) e = clash s.running running e
stays_stopped (Tokio.finishes {s = s} id running live) e = clash s.running running e
stays_stopped (Tokio.shuts_down {s = s} running) e = clash s.running running e

ThreadStep-IsWorker : {w w' : WorkerThread} → ThreadStep w w' → IsWorker w → IsWorker w'
ThreadStep-IsWorker (runs step (inl same)) i = record {
  reached = Tokio.after i.reached step;
  asked = λ h. i.asked (same ∙ h);
  ended_after = λ h. stays_stopped step (i.ended_after h);
}
ThreadStep-IsWorker (runs step (inr told)) i = record {
  reached = Tokio.after i.reached step;
  asked = λ h. told;
  ended_after = λ h. stays_stopped step (i.ended_after h);
}
ThreadStep-IsWorker (ends stopped) i = record {
  reached = i.reached;
  asked = i.asked;
  ended_after = λ _. stopped;
}

-- A thread that is told to still is after a step.
ThreadStep-told : {w w' : WorkerThread} → ThreadStep w w' → w.told ≡ true → w'.told ≡ true
ThreadStep-told (runs step allowed) e = e
ThreadStep-told (ends stopped) e = e

-- A worker that has been joined.
abbrev pub IsJoined : WorkerThread → Type 0
IsJoined w = IsWorker w × (w.ended ≡ true)

-- The worker that is being joined has been told to shut down.
abbrev pub IsJoining : Option WorkerThread → Type 0
IsJoining none = Unit
IsJoining (some w) = IsWorker w × (w.told ≡ true)

abbrev pub in_joining : Option WorkerThread → ℕ
in_joining none = 0
in_joining (some w) = 1

pub record DropInv (count : ℕ) (d : Dropping) : Type 0 where
  inactive : d.active ≡ false
  joined : All IsJoined d.joined
  pub joining : IsJoining d.joining
  left : All IsWorker d.left
  counted : length d.joined + in_joining d.joining + length d.left ≡ count

All-replace :
    {A : Type 0} (P : A → Type 0) (before behind : List A) (a b : A)
    → (P a → P b)
    → All P (before ++ a ∷ behind)
    → All P (before ++ b ∷ behind)
All-replace P [] behind a b f (h, hs) = (f h, hs)
All-replace P (x ∷ xs) behind a b f (h, hs) = (h, All-replace P xs behind a b f hs)

pub length-replace :
    {A : Type 0} (before behind : List A) (a b : A)
    → length (before ++ a ∷ behind) ≡ length (before ++ b ∷ behind)
length-replace [] behind a b = refl
length-replace (x ∷ xs) behind a b = ap suc (length-replace xs behind a b)

module _ (count : ℕ) where
  DropStep-DropInv : {d d' : Dropping} → DropStep d d' → DropInv count d → DropInv count d'
  DropStep-DropInv (shuts_down {d = d} {w = w} {rest = rest} idle e) i =
      let (first, others) : IsWorker w × All IsWorker rest = subst (All IsWorker) e i.left in
      let counted = i.counted in
      let size = ap length e in
      let none_yet = ap in_joining idle in
      record {
        inactive = i.inactive;
        joined = i.joined;
        joining = (
          record { reached = first.reached; asked = λ _. refl; ended_after = first.ended_after },
          refl,
        );
        left = others;
        counted = omega (arith, counted, size, none_yet);
      }
  DropStep-DropInv (joins {d = d} {w = w} e ended) i =
      let (worker, told) : IsWorker w × (w.told ≡ true) = subst IsJoining e i.joining in
      let counted = i.counted in
      let one = ap in_joining e in
      record {
        inactive = i.inactive;
        joined = All-append IsJoined d.joined (w ∷ []) i.joined ((worker, ended), tt);
        joining = tt;
        left = i.left;
        counted = omega (arith, counted, one, length-append d.joined (w ∷ []));
      }
  DropStep-DropInv (joining_steps {d = d} {w = w} e step) i =
      let (worker, told) : IsWorker w × (w.told ≡ true) = subst IsJoining e i.joining in
      let counted = i.counted in
      let one = ap in_joining e in
      record {
        inactive = i.inactive;
        joined = i.joined;
        joining = (ThreadStep-IsWorker step worker, ThreadStep-told step told);
        left = i.left;
        counted = omega (arith, counted, one);
      }
  DropStep-DropInv (left_steps {d = d} {w = w} {w' = w'} before behind e step) i =
      let counted = i.counted in
      let size = ap length e in
      record {
        inactive = i.inactive;
        joined = i.joined;
        joining = i.joining;
        left =
            All-replace IsWorker before behind w w' (ThreadStep-IsWorker step)
              (subst (All IsWorker) e i.left);
        counted = omega (arith, counted, size, length-replace before behind w w');
      }

  pub Drops-DropInv : {d d' : Dropping} → Drops d d' → DropInv count d → DropInv count d'
  Drops-DropInv here i = i
  Drops-DropInv (after r step) i = DropStep-DropInv step (Drops-DropInv r i)

pub drop-DropInv :
    (workers : List WorkerThread) → All IsWorker workers → DropInv (length workers) (drop workers)
unfolding drop
drop-DropInv workers all = record {
  inactive = refl;
  joined = tt;
  joining = tt;
  left = all;
  counted = omega arith;
}

-- No task of a worker is live, and its thread has ended.
abbrev pub IsOver : WorkerThread → Type 0
IsOver w =
    (w.ended ≡ true) × (w.executor.running ≡ false) × ((id : ℕ) → mem id w.executor.live ≡ false)

joined-IsOver : (ws : List WorkerThread) → All IsJoined ws → All IsOver ws
joined-IsOver [] all = tt
joined-IsOver (w ∷ ws) ((i, ended), all) = (
  (ended, i.ended_after ended, stopped-none i.reached (i.ended_after ended)),
  joined-IsOver ws all,
)

-- When the drop of a runtime has come to its end, however its threads and tasks ran meanwhile, the
-- runtime is inactive, every worker has been joined, each has ended its loop and its thread, and none
-- has a live task.
pub drop-IsOver :
    (workers : List WorkerThread) {d : Dropping}
    → All IsWorker workers
    → Drops (drop workers) d
    → d.joining ≡ none
    → d.left ≡ []
    → (d.active ≡ false) × (length d.joined ≡ length workers) × All IsOver d.joined
drop-IsOver workers {d} all r idle empty =
    let i = Drops-DropInv (length workers) r (drop-DropInv workers all) in
    let counted = i.counted in
    let none_left = ap length empty in
    let none_joining = ap in_joining idle in
    (i.inactive, omega (arith, counted, none_left, none_joining), joined-IsOver d.joined i.joined)
