-- ===== src/Server/Shutdown/Progress.antt =====
-- The drop of a runtime never blocks for good.
use sfo_reuseport.Prelude.{
  ℕ, ◌+◌, ◌*◌, ◌≤◌, ◌<◌, ◌≡◌, refl, ap, ◌⊎◌, inl, inr, not, Bool, Bool-cases, true, false, List, [],
  ◌∷◌, ◌++◌, Option, none, some, length, All, if◌then◌else◌, arith,
}
use sfo_reuseport.Runtime.Tokio
use sfo_reuseport.Runtime.Tokio.{TaskCommand, Executor, mem}
use sfo_reuseport.Server.Shutdown.{
  WorkerThread, ThreadStep, runs, ends, Dropping, drop, DropStep, shuts_down, joins, joining_steps,
  left_steps, Drops,
}
use sfo_reuseport.Server.Shutdown.Laws.{
  IsWorker, stays_stopped, IsJoining, length-replace, Drops-DropInv, drop-DropInv,
}

-- What a drop still has to wait for: at most four things for each worker that is left, and for the one
-- that is being joined the end of its loop, the end of its thread, and the join.
abbrev one_if : Bool → ℕ
one_if b = if b then 1 else 0

abbrev waits_for : Option WorkerThread → ℕ
waits_for none = 0
waits_for (some w) = 1 + one_if (not w.ended) + one_if w.executor.running

abbrev pub to_do : Dropping → ℕ
to_do d = waits_for d.joining + 4 * length d.left

one_if_le : (b : Bool) → one_if b ≤ 1
one_if_le true = omega arith
one_if_le false = omega arith

shut_less :
    (d : Dropping) (w : WorkerThread) (rest : List WorkerThread)
    → d.joining ≡ none
    → d.left ≡ w ∷ rest
    → to_do (record d { joining = some (record w { told = true }); left = rest }) < to_do d
shut_less d w rest idle e =
    let none_yet = ap waits_for idle in
    let size = ap length e in
    omega (arith, none_yet, size, one_if_le (not w.ended), one_if_le w.executor.running)

join_less :
    (d : Dropping) (w : WorkerThread)
    → d.joining ≡ some w
    → to_do (record d { joining = none; joined = d.joined ++ w ∷ [] }) < to_do d
join_less d w e = let one = ap waits_for e in omega (arith, one)

loop_mono : {s t : Executor} → Tokio.Step s t → one_if t.running ≤ one_if s.running
loop_mono {s} {t} step = elim (Bool-cases s.running) [
  | inl e ↦
      rw e (elim (Bool-cases t.running) [ inl f ↦ rw f (omega arith) | inr f ↦ rw f (omega arith) ])
  | inr e ↦ rw (stays_stopped step e) (omega arith)
]

ThreadStep-le : {w w' : WorkerThread} → ThreadStep w w' → waits_for (some w') ≤ waits_for (some w)
ThreadStep-le (runs step allowed) = omega (arith, loop_mono step)
ThreadStep-le (ends stopped) = omega arith

DropStep-le : {d d' : Dropping} → DropStep d d' → to_do d' ≤ to_do d
DropStep-le (shuts_down {d = d} {w = w} {rest = rest} idle e) =
    let h = shut_less d w rest idle e in omega (arith, h)
DropStep-le (joins {d = d} {w = w} e ended) = let h = join_less d w e in omega (arith, h)
DropStep-le (joining_steps {d = d} {w = w} {w' = w'} e step) =
    let one = ap waits_for e in omega (arith, one, ThreadStep-le step)
DropStep-le (left_steps {d = d} {w = w} {w' = w'} before behind e step) =
    let size = ap length e in omega (arith, size, length-replace before behind w w')

join_next :
    (d : Dropping) (w : WorkerThread)
    → d.joining ≡ some w
    → IsWorker w
    → w.told ≡ true
    → (d' : Dropping) × DropStep d d' × (to_do d' < to_do d)
unfolding Tokio.shut_down
join_next d w e i told = elim (Bool-cases w.ended) [
  | inl ended ↦ (_, joins e ended, join_less d w e)
  | inr alive ↦ elim (Bool-cases w.executor.running) [
    | inl running ↦ (
      _,
      joining_steps e (runs (Tokio.shuts_down running) (inr told)),
      let one = ap waits_for e in omega (arith, one, ap one_if running),
    )
    | inr stopped ↦ (
      _,
      joining_steps e (ends stopped),
      let one = ap waits_for e in omega (arith, one, ap (λ b. one_if (not b)) alive),
    )
  ]
]

-- In every state that the drop of a runtime can reach, whatever happens next leaves no more to wait
-- for; and the drop has come to its end, or it can go on, or the thread that it waits for can, so that
-- there is less to wait for. So a drop does not block for good.
pub drop-progress :
    (workers : List WorkerThread) {d e : Dropping}
    → All IsWorker workers
    → Drops (drop workers) d
    → DropStep d e
    → (to_do e ≤ to_do d)
      × (((d.joining ≡ none) × (d.left ≡ []))
          ⊎ ((d' : Dropping) × DropStep d d' × (to_do d' < to_do d)))
drop-progress workers {d} all r step = (
  DropStep-le step,
  progress d.joining d.left refl refl
      (Drops-DropInv (length workers) r (drop-DropInv workers all)).joining,
)
  where
    progress :
        (joining : Option WorkerThread) (left : List WorkerThread)
        → d.joining ≡ joining
        → d.left ≡ left
        → IsJoining joining
        → ((d.joining ≡ none) × (d.left ≡ []))
          ⊎ ((d' : Dropping) × DropStep d d' × (to_do d' < to_do d))
    progress none [] e f i = inl (e, f)
    progress none (w ∷ ws) e f i = inr (_, shuts_down e f, shut_less d w ws e f)
    progress (some w) left e f (i, told) = inr (join_next d w e i told)
