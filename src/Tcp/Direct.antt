-- ===== src/Tcp/Direct.antt =====
-- `tcp_listener_loop_with_state` of src/core/tcp.rs: a worker accepts on its own listener and starts
-- a handler for each connection, which is known by its peer's address.
use sfo_reuseport.Prelude.{ℕ, ◌<◌, List, some}
use sfo_reuseport.Error.{IoError, Result, ok, err}
use sfo_reuseport.Concurrency.{ConcurrencyPermit, counted}
use sfo_reuseport.Dispatch.{Flow, stop, state_of, while_active, run}
use sfo_reuseport.Listen.{Listener, listener, Turn, give_back, spawn, turn}
use sfo_reuseport.Listen.Laws.{Counts, after-Counts, give_back-Counts, spawn-Counts, run-Counts}
use sfo_reuseport.Net.{SocketAddr}

abbrev Worker : Type 0
Worker = Listener SocketAddr

-- The turn with a permit, once the listener has answered.
received : Turn SocketAddr → Result IoError SocketAddr → ConcurrencyPermit → Worker → Flow Worker
unfolding while_active give_back spawn
received t (err _) permit l = stop (give_back permit l)
received t (ok d) permit l = while_active t.after (give_back permit l) (spawn d t.spawned permit l)

tcp_listener_turn : Turn SocketAddr → ConcurrencyPermit → Worker → Flow Worker
unfolding received
tcp_listener_turn t permit l = received t t.received permit l

unfoldable pub tcp_listener_loop_with_state : List (Turn SocketAddr) → Worker → Flow Worker
unfolding run turn tcp_listener_turn
tcp_listener_loop_with_state = run (turn tcp_listener_turn)

received-Counts :
    (max : ℕ) (t : Turn SocketAddr) (a : Result IoError SocketAddr) (l : Worker)
    → Counts max 1 l
    → Counts max 0 (state_of (received t a counted l))
unfolding received
received-Counts max t (err e) l h = give_back-Counts SocketAddr max l h
received-Counts max t (ok d) l h =
    after-Counts SocketAddr max t.after l _ h (spawn-Counts SocketAddr max d t.spawned l h)

-- Whatever the environment does, a direct TCP listener with a limit never runs more handlers than
-- the limit, and its counter is the number of running handlers: an error, a cleared flag or a failed
-- spawn gives the permit back.
pub tcp_loop-Counts :
    (max : ℕ)
    → 0 < max
    → (turns : List (Turn SocketAddr))
    → Counts max 0 (state_of (tcp_listener_loop_with_state turns (listener (some max))))
unfolding tcp_listener_loop_with_state tcp_listener_turn
tcp_loop-Counts max pos turns =
    run-Counts SocketAddr max tcp_listener_turn (λ t l h. received-Counts max t t.received l h) pos
      turns
