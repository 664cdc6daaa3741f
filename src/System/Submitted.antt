-- ===== src/System/Submitted.antt =====
-- The submission of a task to a worker, followed by its registration, as the functions that set
-- servers up do it; once, and for each of a list.
use mathlib.Core.List.{append-nil}
use mathlib.Core.Path.{subst}
use sfo_reuseport.Prelude.{
  ℕ, zero, suc, ◌+◌, ◌≡◌, refl, ap, sym, ◌∙◌, List, [], ◌∷◌, ◌++◌, Option, none, some, length,
  get_elem?, replicate, arith,
}
use sfo_reuseport.Error.{Error, invalid_config, text, IoError, from_io, Result, ok, err, map_err}
use sfo_reuseport.System.{
  spawn, event, Oracle, World, Action, ask, continue, ◌>>=◌, logged, updated, update, for_each,
}
use sfo_reuseport.System.Spawned.{Spawned, spawned}
use sfo_reuseport.System.Registered.{
  Given, Each, no_more, one_more, Kept, Keeps, idle-Kept, bind-Keeps,
}
use sfo_reuseport.Server.{ServerRuntime, worker}
use sfo_reuseport.Server.Setup.{executor_of, submit_to_executor, submit_to_worker}

pub ok-injective : {A : Type 0} (a b : A) → ◌≡◌ {A = Result Error A} (ok a) (ok b) → a ≡ b
ok-injective a b e = ap (λ r. elim r [ ok x ↦ x | err _ ↦ a ]) e

module _ {F J S : Type 0} (system : Oracle F J) (Holds : S → List (Spawned J) → Type 0) (job : J)
    (register : ℕ → S → Result Error S)
    (registers : (s : S) (js : List (Spawned J)) (executor task : ℕ)
      → Holds s js
      → (t : S) × (register task s ≡ ok t)
        × Holds t (js ++ record { executor = executor; job = job; task = task } ∷ []))
    (r : ServerRuntime) (id : ℕ) where
  registered-Kept :
      (executor task : ℕ)
      → get_elem? r.workers id ≡ some executor
      → (w : World F J S) (q : Result Error S) → register task w.state ≡ q
      → Kept Holds
          (λ _. Given r.workers id job)
          w
          (updated q (logged (spawn executor job) (ok task) w))
  unfolding spawned
  registered-Kept executor task found w (ok s) e = record {
    calls = event (spawn executor job) (ok task) ∷ [];
    are_logged = refl;
    registered = λ js h.
        let (t, r, k) = registers w.state js executor task h in
        subst (λ x. Holds x (js ++ record { executor = executor; job = job; task = task } ∷ []))
          (ok-injective t s (sym r ∙ e)) k;
    value = record { executor = executor; task = task; is_worker = found; is_one = refl };
  }
  registered-Kept executor task found w (err x) e = record {
    calls = event (spawn executor job) (ok task) ∷ [];
    are_logged = refl;
    registered = λ js h.
        let (t, r, k) = registers w.state js executor task h in
        let clash = sym e ∙ r in absurd (ground (arith, clash));
    value = tt;
  }

  spawned-Kept :
      (executor : ℕ)
      → get_elem? r.workers id ≡ some executor
      → (w : World F J S) (a : Result IoError ℕ)
      → Kept Holds
          (λ _. Given r.workers id job)
          w
          (continue
            (λ task. update (register task))
            (map_err from_io a, logged (spawn executor job) a w))
  unfolding spawned
  spawned-Kept executor found w (ok task) =
      registered-Kept executor task found w (register task w.state) refl
  spawned-Kept executor found w (err x) = record {
    calls = event (spawn executor job) (err x) ∷ [];
    are_logged = refl;
    registered = λ js h. subst (Holds w.state) (sym (append-nil js)) h;
    value = tt;
  }

  found-Kept :
      (w : World F J S) (o : Option ℕ)
      → get_elem? r.workers id ≡ o
      → Kept Holds
          (λ _. Given r.workers id job)
          w
          (continue
            (λ executor. submit_to_executor system executor job >>= λ task. update (register task))
            (executor_of o w))
  unfolding submit_to_executor
  found-Kept w none e = idle-Kept Holds (λ _. Given r.workers id job) w (err _) tt
  found-Kept w (some executor) e = spawned-Kept executor e w (system w.log (spawn executor job))

  -- `submit_to_executor` on the executor that was looked up.
  pub executor-Keeps :
      Keeps Holds
        (executor_of (get_elem? r.workers id) >>= λ executor.
          submit_to_executor system executor job >>= λ task. update (register task))
        (λ _. Given r.workers id job)
  executor-Keeps w = found-Kept w (get_elem? r.workers id) refl

  worker_of : Option ℕ → Result Error ℕ
  worker_of o = elim o [
    | none ↦ err (invalid_config (text "worker index is out of range"))
    | some executor ↦ ok executor
  ]

  submitted-Kept :
      (w : World F J S) (o : Option ℕ)
      → get_elem? r.workers id ≡ o
      → Kept Holds
          (λ _. Given r.workers id job)
          w
          (continue
            (λ task. update (register task))
            (continue (λ executor. ask system (spawn executor job)) (worker_of o, w)))
  unfolding worker_of
  submitted-Kept w none e = idle-Kept Holds (λ _. Given r.workers id job) w (err _) tt
  submitted-Kept w (some executor) e = spawned-Kept executor e w (system w.log (spawn executor job))

  pub worker-Keeps :
      Keeps Holds
        (submit_to_worker system r id job >>= λ task. update (register task))
        (λ _. Given r.workers id job)
  unfolding submit_to_worker worker worker_of
  worker-Keeps w = submitted-Kept w (get_elem? r.workers id) refl

module _ {F J S A : Type 0} (Holds : S → List (Spawned J) → Type 0) (workers : List ℕ)
    (job : ℕ → A → J) (body : ℕ → A → Action F J S (Unit {0}))
    (body-Keeps : (id : ℕ) (x : A)
      → Keeps Holds (body id x) (λ _. Given workers id (job id x))) where
  add_one :
      (id : ℕ) (x : A) (xs : List A) (js ks : List (Spawned J))
      → Given workers id (job id x) js
      → Each workers job (id + 1) xs ks
      → Each workers job id (x ∷ xs) (js ++ ks)
  add_one id x xs js ks g rest =
      subst (λ l. Each workers job id (x ∷ xs) (l ++ ks)) (sym g.is_one)
        (one_more g.executor g.task g.is_worker rest)

  pub for_each-Keeps :
      (id : ℕ) (xs : List A) → Keeps Holds (for_each body id xs) (λ _. Each workers job id xs)
  unfolding for_each
  for_each-Keeps id [] = λ w. idle-Kept Holds (λ _. Each workers job id []) w (ok tt) no_more
  for_each-Keeps id (x ∷ xs) =
      bind-Keeps Holds (λ _. Each workers job id (x ∷ xs)) (body-Keeps id x)
        (λ _. for_each-Keeps (id + 1) xs) (λ _ _ js ks. add_one id x xs js ks)

module _ {F J S A : Type 0} (Holds : S → List (Spawned J) → Type 0) (workers : List ℕ)
    (job : ℕ → A → J) (body : ℕ → Action F J S (Unit {0}))
    (body-Keeps : (id : ℕ)
      → Keeps Holds (body id) (λ _ js. (x : A) × Given workers id (job id x) js)) where
  add_found :
      (id n : ℕ) (js ks : List (Spawned J))
      → (x : A) × Given workers id (job id x) js
      → (xs : List A) × (length xs ≡ n) × Each workers job (id + 1) xs ks
      → (xs : List A) × (length xs ≡ suc n) × Each workers job id xs (js ++ ks)
  add_found id n js ks (x, g) (xs, l, rest) = (
    x ∷ xs,
    ap suc l,
    subst (λ m. Each workers job id (x ∷ xs) (m ++ ks)) (sym g.is_one)
        (one_more g.executor g.task g.is_worker rest),
  )

  -- The same where the task captures something that its round has come by.
  pub for_found-Keeps :
      (id n : ℕ)
      → Keeps Holds
          (for_each (λ k _. body k) id (replicate n tt))
          (λ _ js. (xs : List A) × (length xs ≡ n) × Each workers job id xs js)
  unfolding for_each spawned
  for_found-Keeps id zero = λ w.
      idle-Kept Holds (λ _ js. (xs : List A) × (length xs ≡ 0) × Each workers job id xs js) w
        (ok tt) ([], refl, no_more)
  for_found-Keeps id (suc n) =
      bind-Keeps Holds (λ _ js. (xs : List A) × (length xs ≡ suc n) × Each workers job id xs js)
        (body-Keeps id) (λ _. for_found-Keeps (id + 1) n) (λ _ _ js ks. add_found id n js ks)
