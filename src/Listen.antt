-- ===== src/Listen.antt =====
-- What the loops share that take a permit before they receive: the listeners of src/core/udp.rs,
-- src/core/tcp.rs and src/core/quic.rs that run on every worker and start the handlers themselves.
pub mod Laws
use sfo_reuseport.Prelude.{
  ℕ, zero, suc, ◌+◌, Bool, true, false, List, [], ◌∷◌, ◌++◌, Option, none, some, if◌then◌else◌,
}
use sfo_reuseport.Error.{IoError, Result}
use sfo_reuseport.Concurrency.{
  WorkerConcurrencyLimit, ConcurrencyPermit, counted, new, try_acquire, release,
}
use sfo_reuseport.Dispatch.{Flags, Flow, next, stop, while_active}

-- The worker's limit, whether the loop waits for a permit, the number of handlers that run, and what
-- handlers were started for, oldest first. A running handler holds a permit.
pub record Listener (A : Type 0) : Type 0 where
  pub limit : WorkerConcurrencyLimit
  pub waiting : Bool
  pub running : ℕ
  pub handled : List A

abbrev pub listener : {A : Type 0} → Option ℕ → Listener A
unfolding new
listener max = record { limit = new max; waiting = false; running = 0; handled = [] }

-- What one turn of a loop meets: the flags at its head, the number of handlers that finish before
-- the limit is looked at, the flags once a permit is there, what the socket answers, the flags after
-- that, and whether the handler's task can be spawned.
pub record Turn (T : Type 0) : Type 0 where
  pub at_head : Flags
  pub finished : ℕ
  pub acquired : Flags
  pub received : Result IoError T
  pub after : Flags
  pub spawned : Bool

module _ {A : Type 0} where
  -- One of `running` handlers finishes, and drops its permit.
  unfoldable pub finish_one : ℕ → Listener A → Listener A
  unfolding release
  finish_one zero l = l
  finish_one (suc running) l = record l { running = running; limit = release counted l.limit }

  unfoldable pub finish : ℕ → Listener A → Listener A
  unfolding finish_one
  finish zero l = l
  finish (suc n) l = finish n (finish_one l.running l)

  -- The end of a scope drops its permit.
  unfoldable pub give_back : ConcurrencyPermit → Listener A → Listener A
  unfolding release
  give_back permit l = record l { limit = release permit l.limit }

  -- `spawn_local` of the handler, which takes the permit, or drops it where it fails.
  unfoldable pub spawn : A → Bool → ConcurrencyPermit → Listener A → Flow (Listener A)
  unfolding give_back
  spawn item true permit l =
      next (record l { running = l.running + 1; handled = l.handled ++ item ∷ [] })
  spawn item false permit l = stop (give_back permit l)

  module _ {T : Type 0} where
    -- A turn with the outcome of the acquisition. `rest` is what follows with a permit.
    unfoldable pub with_permit :
        (Turn T → ConcurrencyPermit → Listener A → Flow (Listener A))
        → Turn T
        → WorkerConcurrencyLimit × Option ConcurrencyPermit
        → Listener A
        → Flow (Listener A)
    unfolding give_back while_active
    with_permit rest t (limit, none) l = next (record l { waiting = true })
    with_permit rest t (limit, some permit) l =
        let held = record l { waiting = false; limit = limit } in
        while_active t.acquired (give_back permit held) (rest t permit held)

    unfoldable pub acquire :
        (Turn T → ConcurrencyPermit → Listener A → Flow (Listener A))
        → Turn T
        → Listener A
        → Flow (Listener A)
    unfolding with_permit try_acquire
    acquire rest t l = with_permit rest t (try_acquire l.limit) l

    -- A turn of the loop. A loop that waits for its permit does not look at the flags of its head.
    unfoldable pub turn :
        (Turn T → ConcurrencyPermit → Listener A → Flow (Listener A))
        → Turn T
        → Listener A
        → Flow (Listener A)
    unfolding acquire finish while_active
    turn rest t l =
        if l.waiting
        then acquire rest t (finish t.finished l)
        else while_active t.at_head l (acquire rest t (finish t.finished l))
