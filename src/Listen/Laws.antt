-- ===== src/Listen/Laws.antt =====
-- A listener never runs more handlers than its limit allows, and gives every permit back.
use mathlib.Core.Path.{subst}
use sfo_reuseport.Prelude.{
  ℕ, zero, suc, ◌+◌, ◌≤◌, ◌<◌, ◌≡◌, refl, sym, ap, ◌∙◌, Bool, true, false, List, none, some,
  if◌then◌else◌, arith, le→leb, gt→leb,
}
use native.Mathlib.Decide.{dec_lt}
use sfo_reuseport.Concurrency.{
  WorkerConcurrencyLimit, ConcurrencyPermit, counted, new, try_acquire, release,
}
use sfo_reuseport.Dispatch.{Flags, Flow, state_of, while_active, run}
use sfo_reuseport.Dispatch.Laws.{while_active_cases}
use sfo_reuseport.Dispatch.Runs.{run-keeps}
use sfo_reuseport.Listen.{
  Listener, listener, Turn, finish_one, finish, give_back, spawn, with_permit, acquire, turn,
}

-- A limit of `max` whose counter is `active`.
abbrev pub limit_of : ℕ → ℕ → WorkerConcurrencyLimit
limit_of max active = some (record { max = max; active = active })

-- The counter counts the running handlers and `held` permits of the loop, and is within the limit.
abbrev pub Counts : {A : Type 0} → ℕ → ℕ → Listener A → Type 0
Counts max held l = (l.limit ≡ limit_of max (l.running + held)) × (l.running + held ≤ max)

release-limit_of : (max a : ℕ) → release counted (limit_of max (a + 1)) ≡ limit_of max a
unfolding release
release-limit_of max a = ground arith

module _ (A : Type 0) (max : ℕ) where
  finish_one-Counts :
      (running : ℕ) (l : Listener A)
      → l.running ≡ running
      → Counts max 0 l
      → Counts max 0 (finish_one running l)
  unfolding finish_one
  finish_one-Counts zero l e h = h
  finish_one-Counts (suc k) l e h = (
    ap (release counted) (h.0 ∙ ap (limit_of max) (omega (arith, e)))
        ∙ release-limit_of max k
        ∙ ap (limit_of max) (omega arith),
    omega (arith, h.1, e),
  )

  finish-Counts : (n : ℕ) (l : Listener A) → Counts max 0 l → Counts max 0 (finish n l)
  unfolding finish
  finish-Counts zero l h = h
  finish-Counts (suc n) l h = finish-Counts n _ (finish_one-Counts l.running l refl h)

  pub give_back-Counts : (l : Listener A) → Counts max 1 l → Counts max 0 (give_back counted l)
  unfolding give_back
  give_back-Counts l h = (
    ap (release counted) h.0 ∙ release-limit_of max l.running ∙ ap (limit_of max) (omega arith),
    omega (arith, h.1),
  )

  pub spawn-Counts :
      (item : A) (spawned : Bool) (l : Listener A)
      → Counts max 1 l
      → Counts max 0 (state_of (spawn item spawned counted l))
  unfolding spawn
  spawn-Counts item true l h = (h.0 ∙ ap (limit_of max) (omega arith), omega (arith, h.1))
  spawn-Counts item false l h = give_back-Counts l h

  -- Where the flags are looked at once more, with the permit held.
  pub after-Counts :
      (f : Flags) (l : Listener A) (rest : Flow (Listener A))
      → Counts max 1 l
      → Counts max 0 (state_of rest)
      → Counts max 0 (state_of (while_active f (give_back counted l) rest))
  after-Counts f l rest h r =
      while_active_cases (λ x. Counts max 0 (state_of x)) f (give_back counted l) rest
        (give_back-Counts l h) r

  try_acquire-room :
      (a : ℕ) → a < max → try_acquire (limit_of max a) ≡ (limit_of max (a + 1), some counted)
  unfolding try_acquire
  try_acquire-room a h = rw (gt→leb max a h) refl

  try_acquire-full : (a : ℕ) → max ≤ a → try_acquire (limit_of max a) ≡ (limit_of max a, none)
  unfolding try_acquire
  try_acquire-full a h = rw (le→leb max a h) refl

  module _ {T : Type 0} (rest : Turn T → ConcurrencyPermit → Listener A → Flow (Listener A))
      (rest-Counts : (t : Turn T) (l : Listener A)
        → Counts max 1 l
        → Counts max 0 (state_of (rest t counted l))) where
    acquire-Counts :
        (t : Turn T) (l : Listener A) → Counts max 0 l → Counts max 0 (state_of (acquire rest t l))
    unfolding acquire with_permit
    acquire-Counts t l h = elim (dec_lt (l.running + 0) max) [
      | yes room ↦
          let e : try_acquire l.limit ≡ (limit_of max (l.running + 0 + 1), some counted) =
            ap try_acquire h.0 ∙ try_acquire-room (l.running + 0) room in
          let held : Listener A = record l {
            waiting = false;
            limit = limit_of max (l.running + 0 + 1);
          } in
          let c : Counts max 1 held = (ap (limit_of max) (omega arith), omega (arith, room)) in
          subst (λ a. Counts max 0 (state_of (with_permit rest t a l))) (sym e)
            (after-Counts t.acquired held (rest t counted held) c (rest-Counts t held c))
      | no full ↦
          let e : try_acquire l.limit ≡ (limit_of max (l.running + 0), none) =
            ap try_acquire h.0 ∙ try_acquire-full (l.running + 0) (omega (arith, full)) in
          subst (λ a. Counts max 0 (state_of (with_permit rest t a l))) (sym e) h
    ]

    turn-Counts :
        (t : Turn T) (l : Listener A) → Counts max 0 l → Counts max 0 (state_of (turn rest t l))
    unfolding turn
    turn-Counts t l h =
        let there = acquire-Counts t (finish t.finished l) (finish-Counts t.finished l h) in
        elim l.waiting
          as (λ b. Counts max 0 (
            state_of (
              if b
              then acquire rest t (finish t.finished l)
              else while_active t.at_head l (acquire rest t (finish t.finished l))))) [
                | true ↦ there
                | false ↦ while_active_cases (λ f. Counts max 0 (state_of f)) t.at_head l _ h there
              ]

    pub run-Counts :
        0 < max
        → (turns : List (Turn T))
        → Counts max 0 (state_of (run (turn rest) turns (listener (some max))))
    unfolding new
    run-Counts pos turns =
        run-keeps (turn rest) (Counts max 0) turn-Counts turns _ (ground (arith, pos), omega arith)
