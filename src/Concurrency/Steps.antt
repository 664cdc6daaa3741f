-- ===== src/Concurrency/Steps.antt =====
-- src/core/concurrency.rs under interleaving: one step for each atomic access of `try_acquire`, of
-- `AcquirePermit::poll` and of the permit's `drop`. One task waits by `poll`, as each listener loop
-- does; any number of others hold permits, drop them, or try to acquire one.
-- An exchange is weak: it may fail whatever the counter holds.
use sfo_reuseport.Prelude.{ℕ, ◌+◌, ◌-◌, ◌≤◌, ◌<◌, ◌≡◌, ◌||◌, Bool, true, false, List, [], ◌∷◌, ◌++◌}

-- What is used of `atomic_waker::AtomicWaker`: whether a slot holds a waker, registering the
-- waiting task's, and taking it out. After a registration the slot holds the waker.
pub record AtomicWaker : Type 1 where
  pub Slot : Type 0
  pub empty : Slot
  pub holds : Slot → Bool
  pub register : Slot → Slot
  pub take : Slot → Slot
  pub register-holds : (s : Slot) → holds (register s) ≡ true

-- Where the waiting task stands in `poll`.
pub data Poll : Type 0 where
  start : Poll  -- head of the loop
  loaded : (active : ℕ) → Poll  -- before the exchange
  full : Poll  -- before `waiter.register`
  registered : Poll  -- before the second load
  pending : Poll  -- returned `Poll::Pending`

-- Where another task stands.
pub data Task : Type 0 where
  trying : Task  -- head of the loop of `try_acquire`
  tried : (active : ℕ) → Task  -- before its exchange
  holding : Task  -- with a counted permit
  dropping : (active : ℕ) → Task  -- in the loop of `drop`, with the counter as last read
  waking : Task  -- before `waiter.wake`
  gone : Task

-- `woken` is set where the waiting task has been scheduled to be polled again.
pub record System (w : AtomicWaker) : Type 0 where
  pub active : ℕ
  pub slot : w.Slot
  pub woken : Bool
  pub poller : Poll
  pub tasks : List Task

module _ (max : ℕ) where
  -- A step of a task that reads or changes the counter alone.
  pub data Move : ℕ → Task → ℕ → Task → Type 0 where
    try_full : {n : ℕ} → max ≤ n → Move n trying n gone
    try_load : {n : ℕ} → n < max → Move n trying n (tried n)
    try_win : {n a : ℕ} → n ≡ a → Move n (tried a) (a + 1) holding
    try_lose : {n a : ℕ} → Move n (tried a) n trying
    drop_load : {n : ℕ} → Move n holding n (dropping n)
    drop_win : {n a : ℕ} → 0 < a → n ≡ a → Move n (dropping a) (a - 1) waking
    drop_lose : {n a : ℕ} → 0 < a → Move n (dropping a) n (dropping n)
    drop_zero : {n a : ℕ} → a ≡ 0 → Move n (dropping a) n gone

  -- A step of `poll` that reads or changes the counter alone and yields no permit.
  pub data Look : ℕ → Poll → Poll → Type 0 where
    poll_free : {n : ℕ} → n < max → Look n start (loaded n)
    poll_full : {n : ℕ} → max ≤ n → Look n start full
    poll_lose : {n a : ℕ} → Look n (loaded a) start
    recheck_free : {n : ℕ} → n < max → Look n registered start
    recheck_full : {n : ℕ} → max ≤ n → Look n registered pending

  module _ (w : AtomicWaker) where
    pub data Step (s : System w) : System w → Type 0 where
      task :
          (before after : List Task) {p p' : Task} {n : ℕ}
          → s.tasks ≡ before ++ p ∷ after
          → Move s.active p n p'
          → Step s (record s { active = n; tasks = before ++ p' ∷ after })
      wake :
          (before after : List Task)
          → s.tasks ≡ before ++ waking ∷ after
          → Step s (record s {
            slot = w.take s.slot;
            woken = w.holds s.slot || s.woken;
            tasks = before ++ gone ∷ after;
          })
      spawn : Step s (record s { tasks = trying ∷ s.tasks })
      look : {q : Poll} → Look s.active s.poller q → Step s (record s { poller = q })
      poll_win :
          {a : ℕ}
          → s.poller ≡ loaded a
          → s.active ≡ a
          → Step s (record s { active = a + 1; poller = start; tasks = holding ∷ s.tasks })
      register :
          s.poller ≡ full → Step s (record s { slot = w.register s.slot; poller = registered })
      repoll : s.poller ≡ pending → Step s (record s { woken = false; poller = start })

    abbrev pub initial : System w
    initial = record { active = 0; slot = w.empty; woken = false; poller = start; tasks = [] }

    pub data Reach : System w → Type 0 where
      begin : Reach initial
      later : {s t : System w} → Reach s → Step s t → Reach t
