-- ===== src/Server/Setup/Own.antt =====
-- A task on a socket of its own for every worker: the calls that open the sockets come first, one
-- opening after another, and then the tasks are spawned on the sockets that were opened.
use mathlib.Core.List.{append_assoc, append-nil}
use sfo_reuseport.Prelude.{
  ℕ, zero, suc, ◌≡◌, refl, ap, sym, ◌∙◌, true, List, [], ◌∷◌, ◌++◌, length, arith,
}
use sfo_reuseport.Error.{Error, Result, ok, err}
use sfo_reuseport.System.{
  SocketType, Domain, Event, World, Action, pure, continue, for_each, ◌>>=◌, ◌>>◌,
}
use sfo_reuseport.System.Script.{Step}
use sfo_reuseport.System.Spawned.{Spawned, spawned}
use sfo_reuseport.System.Registered.{Given, Each, Keeps, gives_tasks}
use sfo_reuseport.System.Submitted.{for_each-Keeps}
use sfo_reuseport.Server.Setup.{ensure_some}
use sfo_reuseport.Server.Setup.Laws.{then-Keeps, ensure_some-Keeps}
use sfo_reuseport.Platform.Options.{Platform, capabilities}
use sfo_reuseport.Platform.Binding.{collect, bind_workers}
use sfo_reuseport.Platform.Binding.Script.{Opening, Opens}

-- The tasks on sockets that are there.
abbrev pub with_tasks :
    {F J S : Type 0} → (ℕ → ℕ → Action F J S (Unit {0})) → List ℕ → Action F J S (Unit {0})
with_tasks body sockets = ensure_some sockets >> for_each body 0 sockets

module _ {F J S : Type 0} (Holds : S → List (Spawned J) → Type 0) (workers : List ℕ)
    (job : ℕ → ℕ → J) (body : ℕ → ℕ → Action F J S (Unit {0}))
    (submits : (id x : ℕ) → Keeps Holds (body id x) (λ _. Given workers id (job id x))) where
  pub with_tasks-Keeps :
      (sockets : List ℕ) → Keeps Holds (with_tasks body sockets) (λ _. Each workers job 0 sockets)
  with_tasks-Keeps sockets =
      then-Keeps Holds {P = λ _. Each workers job 0 sockets} (ensure_some-Keeps Holds sockets)
        (λ _. for_each-Keeps Holds workers job body submits 0 sockets)

module _ {F J : Type 0} (d : Domain) (k : SocketType) (script : ℕ → List (Step F J)) where
  -- The calls open these sockets, one after another: the calls of each begin with a `socket` that
  -- answers it, and follow its script to the end.
  pub data Openings : List ℕ → List (Event F J) → Type 0 where
    all_opened : Openings [] []
    next_opened :
        {fd : ℕ} {fds : List ℕ} {es later : List (Event F J)}
        → Opening d k script es (ok fd)
        → Openings fds later
        → Openings (fd ∷ fds) (es ++ later)

  -- The calls open `n` sockets, and then spawn a task on each, on the executors of the workers in
  -- order.
  pub record EachOwn (workers : List ℕ) (n : ℕ) (job : ℕ → ℕ → J) (calls : List (Event F J))
      : Type 0 where
    pub sockets : List ℕ
    pub openings : List (Event F J)
    pub later : List (Event F J)
    pub are_all : calls ≡ openings ++ later
    pub one_each : length sockets ≡ n
    pub are_opened : Openings sockets openings
    pub tasks : Each workers job 0 sockets (spawned later)

  module _ {S : Type 0} where
    -- The calls up to a result have opened the sockets that it returns.
    abbrev Trail : ℕ → World F J S → Result Error (List ℕ) × World F J S → Type 0
    Trail n w (ok fds, v) =
        (es : List (Event F J)) × (v.log ≡ w.log ++ es) × (length fds ≡ n) × Openings fds es
    Trail n w (err e, v) = Unit

    module _ (one : Action F J S ℕ) (opens : (w : World F J S) → Opens d k script w (one w)) where
      rest-Trail :
          (n fd : ℕ) (w v : World F J S)
          → Opens d k script w (ok fd, v)
          → (q : Result Error (List ℕ) × World F J S) → Trail n v q
          → Trail (suc n) w (continue (λ rest. pure (fd ∷ rest)) q)
      rest-Trail n fd w v o (ok fds, u) (es, l, e, os) = (
        o.calls ++ es,
        l ∙ ap (λ x. x ++ es) o.are_logged ∙ append_assoc w.log o.calls es,
        ap suc e,
        next_opened o.opening os,
      )
      rest-Trail n fd w v o (err e, u) t = tt

      first-Trail :
          (n : ℕ) (w : World F J S) (r : Result Error ℕ × World F J S)
          → Opens d k script w r
          → ((v : World F J S) → Trail n v (collect one n v))
          → Trail (suc n) w (continue (λ fd. collect one n >>= λ rest. pure (fd ∷ rest)) r)
      first-Trail n w (ok fd, v) o h = rest-Trail n fd w v o (collect one n v) (h v)
      first-Trail n w (err e, v) o h = tt

      collect-Trail : (n : ℕ) (w : World F J S) → Trail n w (collect one n w)
      unfolding collect
      collect-Trail zero w = ([], sym (append-nil w.log), refl, all_opened)
      collect-Trail (suc n) w = first-Trail n w (one w) (opens w) (collect-Trail n)

      bind_workers-Trail :
          (p : Platform)
          → (capabilities p).reuse_port_balancing ≡ true
          → (n : ℕ) (w : World F J S) → Trail n w (bind_workers p one n w)
      unfolding bind_workers
      bind_workers-Trail p balanced n w = rw balanced (collect-Trail n w)

    -- On success, the calls made since.
    abbrev pub Owns :
        List ℕ → ℕ → (ℕ → ℕ → J) → World F J S → Result Error (Unit {0}) × World F J S → Type 0
    Owns workers n job w r =
        r.0 ≡ ok tt
        → (calls : List (Event F J)) × (r.1.log ≡ w.log ++ calls) × EachOwn workers n job calls

    module _ (Holds : S → List (Spawned J) → Type 0) (workers : List ℕ) (n : ℕ) (job : ℕ → ℕ → J)
        (body : ℕ → ℕ → Action F J S (Unit {0}))
        (submits : (id x : ℕ) → Keeps Holds (body id x) (λ _. Given workers id (job id x))) where
      after_sockets :
          (w : World F J S) (r : Result Error (List ℕ) × World F J S)
          → Trail n w r
          → Owns workers n job w (continue (with_tasks body) r)
      after_sockets w (ok fds, v) (es, l, e, os) done =
          let kept = with_tasks-Keeps Holds workers job body submits fds v in
          (
            es ++ kept.calls,
            kept.are_logged ∙ ap (λ x. x ++ kept.calls) l ∙ append_assoc w.log es kept.calls,
            record {
              sockets = fds;
              openings = es;
              later = kept.calls;
              are_all = refl;
              one_each = e;
              are_opened = os;
              tasks =
                  gives_tasks (Each workers job 0 fds) (spawned kept.calls)
                    (with_tasks body fds v).0 kept.value done;
            },
          )
      after_sockets w (err x, v) t done = absurd (ground (arith, done))

      pub all_own :
          (one : Action F J S ℕ)
          → ((w : World F J S) → Opens d k script w (one w))
          → (p : Platform) → (capabilities p).reuse_port_balancing ≡ true
          → (w : World F J S) → Owns workers n job w ((bind_workers p one n >>= with_tasks body) w)
      all_own one opens p balanced w =
          after_sockets w (bind_workers p one n w) (bind_workers-Trail one opens p balanced n w)
