-- ===== src/Server/Setup/Laws.antt =====
-- The two shapes of the functions that add listeners to a server: a task for every worker on a socket
-- from a list, or a task for every worker and one more that feeds them.
use mathlib.Core.List.{append-nil}
use mathlib.Core.Path.{subst}
use sfo_reuseport.Prelude.{
  ℕ, zero, suc, ◌≡◌, refl, ap, sym, ◌∙◌, false, List, [], ◌∷◌, ◌++◌, length, replicate,
}
use sfo_reuseport.Error.{Error, Result, ok, err, map_err}
use sfo_reuseport.System.{
  Call, Reply, Failure, failed, Event, event, Oracle, World, Action, ask, update, updated, for_each,
  for_range, ◌>>=◌, ◌>>◌,
}
use sfo_reuseport.System.Spawned.{Spawned, spawned, is_spawn, spawned_by-none}
use sfo_reuseport.System.Registered.{
  Gives, weaken-Keeps, Given, Each, Kept, Keeps, idle-Kept, bind-Keeps,
}
use sfo_reuseport.System.Submitted.{for_each-Keeps}
use sfo_reuseport.Server.Setup.{ensure_some, ensure_workers, ensure_simulation}
use sfo_reuseport.Platform.Binding.Quiet.{Sockets}

-- A list of `n` sockets, and a task on each.
pub record OwnSockets {J : Type 0} (workers : List ℕ) (n : ℕ) (job : ℕ → ℕ → J)
    (js : List (Spawned J)) : Type 0 where
  pub sockets : List ℕ
  pub one_each : length sockets ≡ n
  pub tasks : Each workers job 0 sockets js

-- A task for each of `n` workers, and then the last on worker 0.
pub record OneFeeder {J : Type 0} (workers : List ℕ) (n : ℕ) (job : ℕ → J) (last : J)
    (js : List (Spawned J)) : Type 0 where
  pub tasks : List (Spawned J)
  pub feeder : List (Spawned J)
  pub are_all : js ≡ tasks ++ feeder
  pub each : Each workers (λ id _. job id) 0 (replicate n tt) tasks
  pub one : Given workers 0 last feeder

pub silent :
    {F J : Type 0} (c : Call F J) (r : Result (Failure c) (Reply c))
    → is_spawn c ≡ false
    → spawned (event c r ∷ []) ≡ []
unfolding spawned
silent c r q = ap (λ l. l ++ []) (spawned_by-none c r q)

module _ {J : Type 0} (workers : List ℕ) (n : ℕ) where
  all_given :
      (job : ℕ → ℕ → J) (sockets : List ℕ) (js ks : List (Spawned J))
      → Sockets n sockets js
      → Each workers job 0 sockets ks
      → OwnSockets workers n job (js ++ ks)
  all_given job sockets js ks s each = record {
    sockets = sockets;
    one_each = s.0;
    tasks = subst (λ l. Each workers job 0 sockets (l ++ ks)) (sym s.1) each;
  }

  fed :
      (job : ℕ → J) (last : J) (js ks : List (Spawned J))
      → Each workers (λ id _. job id) 0 (replicate n tt) js
      → Given workers 0 last ks
      → OneFeeder workers n job last (js ++ ks)
  fed job last js ks each one = record {
    tasks = js;
    feeder = ks;
    are_all = refl;
    each = each;
    one = one;
  }

answered :
    {F J : Type 0} (system : Oracle F J) (c : Call F J) (before : List (Event F J))
    (r : Result (Failure c) (Reply c)) (js : List (Spawned J))
    → system before c ≡ r
    → js ≡ []
    → Gives
        (λ v ks. (b : List (Event F J)) × (system b c ≡ ok v) × (ks ≡ []))
        js
        (map_err (failed c) r)
answered system c before (ok v) js e n = (before, e, n)
answered system c before (err x) js e n = tt

module _ {F J S : Type 0} (Holds : S → List (Spawned J) → Type 0) where
  abbrev pub KeepsQuiet : {A : Type 0} → Action F J S A → Type 0
  KeepsQuiet m = Keeps Holds m (λ _ js. js ≡ [])

  pub ensure_some-Keeps : (fds : List ℕ) → KeepsQuiet (ensure_some fds)
  unfolding spawned
  ensure_some-Keeps [] w = idle-Kept Holds (λ _ js. js ≡ []) w (err _) tt
  ensure_some-Keeps (fd ∷ fds) w = idle-Kept Holds (λ _ js. js ≡ []) w (ok tt) refl

  pub ensure_workers-Keeps : (n : ℕ) → KeepsQuiet (ensure_workers n)
  unfolding spawned
  ensure_workers-Keeps zero w = idle-Kept Holds (λ _ js. js ≡ []) w (err _) tt
  ensure_workers-Keeps (suc n) w = idle-Kept Holds (λ _ js. js ≡ []) w (ok tt) refl

  pub ensure_simulation-Keeps : KeepsQuiet ensure_simulation
  unfolding spawned
  ensure_simulation-Keeps w = idle-Kept Holds (λ _ js. js ≡ []) w (ok tt) refl

  -- After a function that spawns nothing.
  pub then-Keeps :
      {A B : Type 0} {P : B → List (Spawned J) → Type 0} {m : Action F J S A}
      {f : A → Action F J S B}
      → KeepsQuiet m
      → ((a : A) → Keeps Holds (f a) P)
      → Keeps Holds (m >>= f) P
  then-Keeps {P = P} {m = m} {f = f} first second =
      bind-Keeps Holds P {m = m} {f = f} first second
        (λ a b js ks e q. subst (λ l. P b (l ++ ks)) (sym e) q)

  updated-Kept :
      (w : World F J S) (q : Result Error S)
      → ((s : S) (js : List (Spawned J)) → q ≡ ok s → Holds w.state js → Holds s js)
      → Kept Holds (λ _ js. js ≡ []) w (updated q w)
  unfolding spawned
  updated-Kept w (ok s) h = record {
    calls = [];
    are_logged = sym (append-nil w.log);
    registered = λ js k. h s _ refl (subst (Holds w.state) (sym (append-nil js)) k);
    value = refl;
  }
  updated-Kept w (err e) h = idle-Kept Holds (λ _ js. js ≡ []) w (err e) tt

  -- An operation on the state that registers nothing.
  pub update-Keeps :
      (f : S → Result Error S)
      → ((s t : S) (js : List (Spawned J)) → f s ≡ ok t → Holds s js → Holds t js)
      → KeepsQuiet (update f)
  update-Keeps f h w = updated-Kept w (f w.state) (λ s js e. h w.state s js e)

  module _ (workers : List ℕ) (n : ℕ) where
    -- The sockets, and a task on each.
    pub all_own-Keeps :
        (job : ℕ → ℕ → J) (body : ℕ → ℕ → Action F J S (Unit {0})) {m : Action F J S (List ℕ)}
        → Keeps Holds m (Sockets n)
        → ((id x : ℕ) → Keeps Holds (body id x) (λ _. Given workers id (job id x)))
        → Keeps Holds
            (m >>= λ sockets. ensure_some sockets >> for_each body 0 sockets)
            (λ _. OwnSockets workers n job)
    all_own-Keeps job body bound h =
        bind-Keeps Holds (λ _. OwnSockets workers n job) bound
          (λ sockets.
            then-Keeps {P = λ _. Each workers job 0 sockets} (ensure_some-Keeps sockets)
              (λ _. for_each-Keeps Holds workers job body h 0 sockets))
          (λ sockets _ js ks. all_given workers n job sockets js ks)

    -- The tasks on sockets that are there already.
    pub these_sockets-Keeps :
        (job : ℕ → ℕ → J) (body : ℕ → ℕ → Action F J S (Unit {0})) (sockets : List ℕ)
        → length sockets ≡ n
        → ((id x : ℕ) → Keeps Holds (body id x) (λ _. Given workers id (job id x)))
        → Keeps Holds
            (ensure_some sockets >> for_each body 0 sockets)
            (λ _. OwnSockets workers n job)
    these_sockets-Keeps job body sockets l h =
        weaken-Keeps Holds (λ _ _ each. record { sockets = sockets; one_each = l; tasks = each })
          (then-Keeps {P = λ _. Each workers job 0 sockets} (ensure_some-Keeps sockets)
            (λ _. for_each-Keeps Holds workers job body h 0 sockets))

    -- The tasks of the workers, and the last.
    pub with_feeder-Keeps :
        (job : ℕ → J) (last : J) (body : ℕ → Action F J S (Unit {0})) {m : Action F J S (Unit {0})}
        → ((id : ℕ) → Keeps Holds (body id) (λ _. Given workers id (job id)))
        → Keeps Holds m (λ _. Given workers 0 last)
        → Keeps Holds (for_range body n >> m) (λ _. OneFeeder workers n job last)
    unfolding for_range
    with_feeder-Keeps job last body h feeder =
        bind-Keeps Holds (λ _. OneFeeder workers n job last)
          (for_each-Keeps Holds workers (λ id _. job id) (λ id _. body id) (λ id _. h id) 0
            (replicate n tt))
          (λ _. feeder) (λ _ _ js ks. fed workers n job last js ks)

  module _ (system : Oracle F J) where
    -- A call that spawns no task, with the system's answer.
    pub asked-Keeps :
        (c : Call F J)
        → is_spawn c ≡ false
        → Keeps Holds
            (ask system c)
            (λ v js. (before : List (Event F J)) × (system before c ≡ ok v) × (js ≡ []))
    asked-Keeps c q w = record {
      calls = event c (system w.log c) ∷ [];
      are_logged = refl;
      registered = λ js h.
          subst (Holds w.state)
            (sym (append-nil js) ∙ ap (λ l. js ++ l) (sym (silent c (system w.log c) q))) h;
      value = answered system c w.log (system w.log c) _ refl (silent c (system w.log c) q);
    }

    pub ask-Keeps : (c : Call F J) → is_spawn c ≡ false → KeepsQuiet (ask system c)
    ask-Keeps c q = weaken-Keeps Holds (λ _ _ p. p.2) (asked-Keeps c q)
