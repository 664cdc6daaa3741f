-- ===== src/Concurrency.antt =====
-- src/core/concurrency.rs: the limit on the handlers that a worker runs at once.
pub mod Steps
pub mod Invariant
pub mod Safety
mod Tests
use sfo_reuseport.Prelude.{
  ℕ, zero, suc, ◌+◌, ◌-◌, ltb, leb, Bool, true, false, List, [], ◌∷◌, ◌++◌, Option, none, some,
  if◌then◌else◌,
}

-- `ConcurrencyState`, less its waiter: the maximum and the atomic counter.
pub record ConcurrencyState : Type 0 where
  pub max : ℕ
  pub active : ℕ

-- `WorkerConcurrencyLimit`.
abbrev pub WorkerConcurrencyLimit : Type 0
WorkerConcurrencyLimit = Option ConcurrencyState

-- `WorkerConcurrencyLimit::new`: a maximum of zero is no limit.
unfoldable pub new : Option ℕ → WorkerConcurrencyLimit
new none = none
new (some max) = if ltb 0 max then some (record { max = max; active = 0 }) else none

-- Whether a permit holds a unit of the limit's counter.
pub data ConcurrencyPermit : Type 0 where
  counted uncounted : ConcurrencyPermit

-- `try_acquire` with no other thread between its load and its exchange.
unfoldable pub try_acquire :
    WorkerConcurrencyLimit → WorkerConcurrencyLimit × Option ConcurrencyPermit
try_acquire none = (none, some uncounted)
try_acquire (some s) =
    if leb s.max s.active
    then (some s, none)
    else (some (record s { active = s.active + 1 }), some counted)

-- `Drop for ConcurrencyPermit`, in the same way. An uncounted permit has no state.
unfoldable pub release : ConcurrencyPermit → WorkerConcurrencyLimit → WorkerConcurrencyLimit
release uncounted limit = limit
release counted none = none
release counted (some s) = some (if ltb 0 s.active then record s { active = s.active - 1 } else s)
