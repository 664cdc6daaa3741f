-- ===== src/Dispatch.antt =====
-- What the loops of src/core/udp.rs, src/core/tcp.rs and src/core/quic.rs share: the flags, the
-- limits of the workers, and the offer of an item to a worker. What an await returns and what a
-- load of a flag reads are events of a round; a list of rounds is one behaviour of the environment.
pub mod Laws
pub mod Runs
pub mod Progress
pub mod Rounds
pub mod Delivery
use sfo_reuseport.Prelude.{
  ℕ, Bool, true, false, ◌&&◌, List, [], ◌∷◌, ◌++◌, Option, none, some, get_elem?, set, replicate,
  take, if◌then◌else◌,
}
use sfo_reuseport.Error.{IoError, Result, ok, err}
use sfo_reuseport.Net.{SocketAddr}
use sfo_reuseport.Concurrency.{
  WorkerConcurrencyLimit, ConcurrencyPermit, counted, new, try_acquire, release,
}

-- The flags of the runtime and of the server, as one evaluation of `is_active` loads them.
pub record Flags : Type 0 where
  pub runtime_active : Bool
  pub server_active : Bool

unfoldable pub is_active : Flags → Bool
is_active f = f.runtime_active && f.server_active

unfoldable pub worker_limits : ℕ → Option ℕ → List WorkerConcurrencyLimit
unfolding new
worker_limits worker_count max = replicate worker_count (new max)

-- What a receive on a UDP socket returns: the buffer holds the datagram in its first `len` bytes.
pub record Datagram : Type 0 where
  pub len : ℕ
  pub peer_addr : SocketAddr
  pub local_addr : SocketAddr
  pub buffer : List ℕ

abbrev pub payload : Datagram → List ℕ
payload d = take d.len d.buffer

-- What one round of a loop meets: the flags at its head, what it receives, the flags after that,
-- the workers whose handlers have finished by then, and whether the channel that the round sends to
-- still has its receiver.
pub record Round (T : Type 0) : Type 0 where
  pub at_head : Flags
  pub received : Result IoError T
  pub after : Flags
  pub finished : List ℕ
  pub open_ : Bool

-- A loop goes on, or has ended (`break`).
pub data Flow (S : Type 0) : Type 0 where
  next stop : S → Flow S

abbrev pub state_of : {S : Type 0} → Flow S → S
state_of (next s) = s
state_of (stop s) = s

-- `if !is_active(..) { break; }` before the rest of a round, or `while is_active(..)` at its head.
unfoldable pub while_active : {S : Type 0} → Flags → S → Flow S → Flow S
unfolding is_active
while_active f s rest = if is_active f then rest else stop s

-- The loop, from where a round has left it, over the rounds that have come about so far.
unfoldable pub go_on : {S R : Type 0} → (R → S → Flow S) → List R → Flow S → Flow S
go_on step rs (stop s) = stop s
go_on step [] (next s) = next s
go_on step (r ∷ rs) (next s) = go_on step rs (step r s)

unfoldable pub run : {S R : Type 0} → (R → S → Flow S) → List R → S → Flow S
unfolding go_on
run step rs s = go_on step rs (next s)

-- The limits of the workers, and what has been sent to each worker, oldest first. An item is sent
-- with the permit that it holds.
pub record Router (A : Type 0) : Type 0 where
  pub limits : List WorkerConcurrencyLimit
  pub sent : List (List (A × ConcurrencyPermit))

module _ {A : Type 0} where
  -- A handler of worker `w` that held a counted permit has finished; its limit is `limits.get(w)`.
  unfoldable pub finish_at : ℕ → Option WorkerConcurrencyLimit → Router A → Router A
  unfolding release
  finish_at w none r = r
  finish_at w (some limit) r = record r { limits = set r.limits w (release counted limit) }

  unfoldable pub finish_all : List ℕ → Router A → Router A
  unfolding finish_at
  finish_all [] r = r
  finish_all (w ∷ ws) r = finish_all ws (finish_at w (get_elem? r.limits w) r)

  -- The item of worker `w` with its permit, to the channel `senders.get(w)`. `limit` is the worker's
  -- limit, already acquired. Where the item cannot be sent it is dropped with its permit, and the
  -- loop ends.
  unfoldable pub send_with :
      ℕ
      → A
      → Bool
      → WorkerConcurrencyLimit
      → ConcurrencyPermit
      → Option (List (A × ConcurrencyPermit))
      → Router A
      → Flow (Router A)
  unfolding release
  send_with w item true limit permit (some queue) r =
      next (record {
        limits = set r.limits w limit;
        sent = set r.sent w (queue ++ (item, permit) ∷ []);
      })
  send_with w item open_ limit permit queue r =
      stop (record r { limits = set r.limits w (release permit limit) })

  -- The item with the outcome of `try_acquire`: it is dropped if the limit is full.
  unfoldable pub admit :
      ℕ → A → Bool → WorkerConcurrencyLimit × Option ConcurrencyPermit → Router A → Flow (Router A)
  unfolding send_with
  admit w item open_ (limit, none) r = next r
  admit w item open_ (limit, some permit) r =
      send_with w item open_ limit permit (get_elem? r.sent w) r

  -- The item with what `limits.get(w)` returns.
  unfoldable pub offer_at :
      ℕ → A → Bool → Option WorkerConcurrencyLimit → Router A → Flow (Router A)
  unfolding admit try_acquire
  offer_at w item open_ none r = stop r
  offer_at w item open_ (some limit) r = admit w item open_ (try_acquire limit) r

  -- The item is offered to worker `w`.
  unfoldable pub offer : ℕ → A → Bool → Router A → Flow (Router A)
  unfolding offer_at
  offer w item open_ r = offer_at w item open_ (get_elem? r.limits w) r
