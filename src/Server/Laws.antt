-- ===== src/Server/Laws.antt =====
-- A started runtime has workers, and gives every task to one of them, in turn.
use mathlib.Core.Path.{subst}
use mathlib.Core.Option.{some-injective}
use sfo_reuseport.Prelude.{
  Bool-cases, inl, inr, ℕ, zero, suc, ◌+◌, ◌%◌, ◌^◌, ◌<◌, ◌≡◌, refl, sym, ap, ◌∙◌, ne→==, max, Bool,
  true, List, [], ◌∷◌, Option, none, some, length, get_elem?, get_elem?-lt, if◌then◌else◌, arith,
}
use sfo_reuseport.Error.{Error, IoError, from_io, Result, ok, err, map_err, ◌>>=◌}
use sfo_reuseport.Config.{ServerRuntimeConfig, WorkerCount, default, fixed, validate}
use sfo_reuseport.Server.{
  ServerRuntime, start_workers, worker_count_of, start, worker_count, worker, ensure_running,
  random_worker_id, position, current_worker_id, submit_to_worker, spawn_task,
}

-- A successful result has the property.
abbrev pub Ensures : {A : Type 0} → (A → Type 0) → Result Error A → Type 0
Ensures P (ok a) = P a
Ensures P (err e) = Unit

abbrev HasLength : ℕ → List ℕ → Type 0
HasLength n ws = length ws ≡ n

add-HasLength :
    (count : ℕ) (w : Result Error ℕ) (rest : Result Error (List ℕ))
    → Ensures (HasLength count) rest
    → Ensures (HasLength (suc count)) (w >>= λ v. rest >>= λ vs. ok (v ∷ vs))
add-HasLength count (err e) rest h = tt
add-HasLength count (ok v) (err e) h = tt
add-HasLength count (ok v) (ok vs) h = ap suc h

start_workers-HasLength :
    (start_worker : ℕ → Result IoError ℕ) (id count : ℕ)
    → Ensures (HasLength count) (start_workers start_worker id count)
unfolding start_workers
start_workers-HasLength start_worker id zero = refl
start_workers-HasLength start_worker id (suc count) =
    add-HasLength count (map_err from_io (start_worker id)) _
      (start_workers-HasLength start_worker (id + 1) count)

-- The runtime runs `n` workers, at least one.
abbrev pub Runs : ℕ → ServerRuntime → Type 0
Runs n r = (r.active ≡ true) × (length r.workers ≡ n) × (0 < n)

started-Runs :
    (n : ℕ) (ws : Result Error (List ℕ))
    → 0 < n
    → Ensures (HasLength n) ws
    → Ensures (Runs n) (ws >>= λ v. ok (record { workers = v; active = true; next_worker = 0 }))
started-Runs n (err e) pos h = tt
started-Runs n (ok ws) pos h = (refl, h, pos)

start-Ensures :
    (workers : WorkerCount) (cpus : ℕ) (start_worker : ℕ → Result IoError ℕ)
    → Ensures
        (Runs (worker_count_of cpus workers))
        (start (record { workers = workers }) cpus start_worker)
unfolding start validate
start-Ensures default cpus start_worker =
    started-Runs (max cpus 1) _ (omega arith) (start_workers-HasLength start_worker 0 (max cpus 1))
start-Ensures (fixed zero) cpus start_worker = tt
start-Ensures (fixed (suc n)) cpus start_worker =
    rw (ne→== (suc n) 0 (omega arith))
      (started-Runs (suc n) _ (omega arith) (start_workers-HasLength start_worker 0 (suc n)))

-- A runtime that has started is running, has exactly the configured number of workers, or as many as
-- processors where none is configured, and has at least one.
pub start-Runs :
    (c : ServerRuntimeConfig) (cpus : ℕ) (start_worker : ℕ → Result IoError ℕ) (r : ServerRuntime)
    → start c cpus start_worker ≡ ok r
    → Runs (worker_count_of cpus c.workers) r
start-Runs c cpus start_worker r e =
    subst (Ensures (Runs (worker_count_of cpus c.workers))) e
      (start-Ensures c.workers cpus start_worker)

-- The position among one element more, where the first does not fit.
abbrev later : Option ℕ → Option ℕ
later o = elim o [ none ↦ none | some i ↦ some (suc i) ]

later-some : (o : Option ℕ) (i : ℕ) → later o ≡ some i → (j : ℕ) × (o ≡ some j) × (suc j ≡ i)
later-some none i e = absurd (ground arith)
later-some (some j) i e = (j, refl, some-injective _ _ e)

position-some :
    (is_owner_thread : ℕ → Bool) (ws : List ℕ) (i : ℕ)
    → position is_owner_thread ws ≡ some i
    → (executor : ℕ) × (get_elem? ws i ≡ some executor) × (is_owner_thread executor ≡ true)
unfolding position
position-some is_owner_thread [] i e = absurd (ground arith)
position-some is_owner_thread (x ∷ ws) i e = elim (Bool-cases (is_owner_thread x)) [
  | inl own ↦
      let zero_first : some 0 ≡ some i =
        ap (λ b. if b then some 0 else later (position is_owner_thread ws)) (sym own) ∙ e in
      (x, subst (λ k. get_elem? (x ∷ ws) k ≡ some x) (some-injective _ _ zero_first) refl, own)
  | inr other ↦
      let after : later (position is_owner_thread ws) ≡ some i =
        ap (λ b. if b then some 0 else later (position is_owner_thread ws)) (sym other) ∙ e in
      let (j, f, s) = later-some (position is_owner_thread ws) i after in
      let (y, g, own) = position-some is_owner_thread ws j f in
      (y, subst (λ k. get_elem? (x ∷ ws) k ≡ some y) s g, own)
]

-- A running runtime with these workers and this counter.
abbrev pub running : List ℕ → ℕ → ServerRuntime
running ws n = record { workers = ws; active = true; next_worker = n }

module _ (spawn : ℕ → Result IoError ℕ) (is_owner_thread : ℕ → Bool) (ws : List ℕ) (n : ℕ) where
  -- From a thread that is none of the workers', a task goes to the worker whose index is the
  -- counter modulo the number of workers, if there is a worker; the counter is advanced by one, with
  -- the wrap-around of a 64-bit integer.
  pub spawn_task-turn :
      0 < length ws
      → current_worker_id is_owner_thread (running ws n) ≡ none
      → (executor : ℕ) × (get_elem? ws (n % length ws) ≡ some executor)
        × (spawn_task is_owner_thread spawn (running ws n) ≡ (
          record (running ws n) { next_worker = (n + 1) % 2 ^ 64 },
          map_err from_io (spawn executor),
        ))
  unfolding spawn_task ensure_running random_worker_id worker_count submit_to_worker worker
  spawn_task-turn pos foreign =
      let (executor, e) = get_elem?-lt ws (n % length ws) (omega (arith, pos)) in
      (executor, e, rw (foreign, ne→== (length ws) 0 (omega (arith, pos)), e) refl)

  -- From the thread of a worker, a task goes to that worker, and the counter is left alone.
  pub spawn_task-own :
      (worker_id : ℕ)
      → current_worker_id is_owner_thread (running ws n) ≡ some worker_id
      → (executor : ℕ) × (is_owner_thread executor ≡ true)
        × (get_elem? ws worker_id ≡ some executor)
        × (spawn_task is_owner_thread spawn (running ws n)
            ≡ (running ws n, map_err from_io (spawn executor)))
  unfolding spawn_task ensure_running submit_to_worker worker current_worker_id
  spawn_task-own worker_id own =
      let (executor, e, o) = position-some is_owner_thread ws worker_id own in
      (executor, o, e, rw (own, e) refl)
