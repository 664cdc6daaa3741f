-- ===== src/System/Spawned.antt =====
-- The tasks that a run of calls has spawned, and functions that register each task that they spawn
-- with the state of the server.
use mathlib.Core.List.{append_assoc}
use sfo_reuseport.Prelude.{
  ℕ, ◌≡◌, refl, ap, sym, ◌∙◌, Bool, true, false, List, [], ◌∷◌, ◌++◌, All, arith,
}
use sfo_reuseport.Error.{Error, Result, ok, err}
use sfo_reuseport.System.{Call, Reply, Failure, spawn, Event, event}
use sfo_reuseport.System.Script.{
  Step, must, may, refuse, Matches, finished, met, tried, Fails, unmet, refused, after_met,
  after_tried,
}

-- A task, the executor that it was given to, and what it does.
pub record Spawned (J : Type 0) : Type 0 where
  pub executor : ℕ
  pub job : J
  pub task : ℕ

abbrev pub spawned_by :
    {F J : Type 0} → (c : Call F J) → Result (Failure c) (Reply c) → List (Spawned J)
spawned_by (spawn executor job) (ok task) =
    record { executor = executor; job = job; task = task } ∷ []
spawned_by _ _ = []

unfoldable pub spawned : {F J : Type 0} → List (Event F J) → List (Spawned J)
spawned [] = []
spawned (event c r ∷ es) = spawned_by c r ++ spawned es

abbrev pub is_spawn : {F J : Type 0} → Call F J → Bool
is_spawn (spawn _ _) = true
is_spawn _ = false

-- A step that spawns no task.
abbrev pub Quiet : {F J : Type 0} → Step F J → Type 0
Quiet (must c) = is_spawn c ≡ false
Quiet (may c) = is_spawn c ≡ false
Quiet (refuse _) = Unit

module _ {F J : Type 0} where
  pub spawned_by-none :
      (c : Call F J) (r : Result (Failure c) (Reply c)) → is_spawn c ≡ false → spawned_by c r ≡ []
  spawned_by-none (spawn executor job) r q = absurd (ground (arith, q))
  spawned_by-none c r q = refl

  pub spawned-append : (es fs : List (Event F J)) → spawned (es ++ fs) ≡ spawned es ++ spawned fs
  unfolding spawned
  spawned-append [] fs = refl
  spawned-append (event c r ∷ es) fs =
      ap (λ l. spawned_by c r ++ l) (spawned-append es fs)
      ∙ sym (append_assoc (spawned_by c r) (spawned es) (spawned fs))

  pub Matches-none :
      {l : List (Step F J)} {es : List (Event F J)} → Matches l es → All Quiet l → spawned es ≡ []
  unfolding spawned
  Matches-none finished q = refl
  Matches-none (met {c = c} v m) (q, qs) = rw (spawned_by-none c (ok v) q) (Matches-none m qs)
  Matches-none (tried {c = c} r m) (q, qs) = rw (spawned_by-none c r q) (Matches-none m qs)

  pub Fails-none :
      {l : List (Step F J)} {es : List (Event F J)} {e : Error}
      → Fails l es e
      → All Quiet l
      → spawned es ≡ []
  unfolding spawned
  Fails-none (unmet {c = c} e) (q, qs) = rw (spawned_by-none c (err e) q) refl
  Fails-none refused q = refl
  Fails-none (after_met {c = c} v m) (q, qs) = rw (spawned_by-none c (ok v) q) (Fails-none m qs)
  Fails-none (after_tried {c = c} r m) (q, qs) = rw (spawned_by-none c r q) (Fails-none m qs)
