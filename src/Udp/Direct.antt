-- ===== src/Udp/Direct.antt =====
-- `udp_listener_loop_with_state` of src/core/udp.rs: a worker receives on its own socket and starts
-- a handler for each datagram.
mod Tests
use sfo_reuseport.Prelude.{ℕ, ◌+◌, ◌≤◌, ◌<◌, ◌≡◌, List, Option, some}
use sfo_reuseport.Error.{IoError, Result, ok, err}
use sfo_reuseport.Concurrency.{ConcurrencyPermit, counted}
use sfo_reuseport.Dispatch.{Datagram, payload, Flow, next, stop, state_of, while_active, run}
use sfo_reuseport.Listen.{Listener, listener, Turn, give_back, spawn, turn}
use sfo_reuseport.Listen.Laws.{
  Counts, limit_of, after-Counts, give_back-Counts, spawn-Counts, run-Counts,
}
use sfo_reuseport.Udp.{UdpWorkItem}
use sfo_reuseport.Udp.Simulated.{meta_of}

abbrev Worker : Type 0
Worker = Listener UdpWorkItem

-- The turn with a permit, once the socket has answered.
received : Turn Datagram → Result IoError Datagram → ConcurrencyPermit → Worker → Flow Worker
unfolding while_active give_back spawn
received t (err _) permit l = while_active t.after (give_back permit l) (next (give_back permit l))
received t (ok d) permit l =
    while_active t.after (give_back permit l)
      (spawn (record { meta = meta_of d; payload = payload d }) t.spawned permit l)

udp_listener_turn : Turn Datagram → ConcurrencyPermit → Worker → Flow Worker
unfolding received
udp_listener_turn t permit l = received t t.received permit l

unfoldable pub udp_listener_loop_with_state : List (Turn Datagram) → Worker → Flow Worker
unfolding run turn udp_listener_turn
udp_listener_loop_with_state = run (turn udp_listener_turn)

received-Counts :
    (max : ℕ) (t : Turn Datagram) (a : Result IoError Datagram) (l : Worker)
    → Counts max 1 l
    → Counts max 0 (state_of (received t a counted l))
unfolding received
received-Counts max t (err e) l h =
    after-Counts UdpWorkItem max t.after l _ h (give_back-Counts UdpWorkItem max l h)
received-Counts max t (ok d) l h =
    after-Counts UdpWorkItem max t.after l _ h (
      spawn-Counts UdpWorkItem max (record { meta = meta_of d; payload = payload d }) t.spawned l h)

-- Whatever the environment does, a direct UDP listener with a limit never runs more handlers than
-- the limit, and its counter is the number of running handlers: an error, a cleared flag or a failed
-- spawn gives the permit back.
pub udp_loop-Counts :
    (max : ℕ)
    → 0 < max
    → (turns : List (Turn Datagram))
    → Counts max 0 (state_of (udp_listener_loop_with_state turns (listener (some max))))
unfolding udp_listener_loop_with_state udp_listener_turn
udp_loop-Counts max pos turns =
    run-Counts UdpWorkItem max udp_listener_turn (λ t l h. received-Counts max t t.received l h) pos
      turns
