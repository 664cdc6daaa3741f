-- ===== src/Work.antt =====
-- The loops that start the handlers of the work that a worker is sent: `udp_state_dispatch_loop` of
-- src/core/udp.rs and `tcp_state_dispatch_loop` of src/core/tcp.rs.
use sfo_reuseport.Prelude.{
  ◌≡◌, ap, sym, ◌∙◌, Bool, true, false, List, [], ◌∷◌, ◌++◌, Option, none, some, if◌then◌else◌,
}
use mathlib.Core.List.{append-nil, append_assoc}
use sfo_reuseport.Concurrency.{ConcurrencyPermit}
use sfo_reuseport.Dispatch.{Flow, next, stop, go_on, run}
use sfo_reuseport.Net.{SocketAddr}
use sfo_reuseport.Udp.{UdpWorkItem}

-- What handlers were started for, with the permits that they took, and what was dropped.
pub record Worker (A : Type 0) : Type 0 where
  pub handled : List (A × ConcurrencyPermit)
  pub dropped : List (A × ConcurrencyPermit)

-- One round: the server's flag at its head, the work received, or `none` where the channel is closed,
-- the flag after that, and whether the handler's task can be spawned.
pub record WorkRound (A : Type 0) : Type 0 where
  pub at_head : Bool
  pub received : Option (A × ConcurrencyPermit)
  pub after : Bool
  pub spawned : Bool

module _ {A : Type 0} where
  abbrev drop_work : A × ConcurrencyPermit → Worker A → Worker A
  drop_work work w = record w { dropped = w.dropped ++ work ∷ [] }

  -- The round, once work has been received.
  with_work : Bool → Bool → Option (A × ConcurrencyPermit) → Worker A → Flow (Worker A)
  with_work after spawned none w = stop w
  with_work false spawned (some work) w = stop (drop_work work w)
  with_work true false (some work) w = stop (drop_work work w)
  with_work true true (some work) w = next (record w { handled = w.handled ++ work ∷ [] })

  dispatch_round : WorkRound A → Worker A → Flow (Worker A)
  unfolding with_work
  dispatch_round r w = if r.at_head then with_work r.after r.spawned r.received w else stop w

unfoldable pub udp_state_dispatch_loop :
    List (WorkRound UdpWorkItem) → Worker UdpWorkItem → Flow (Worker UdpWorkItem)
unfolding run dispatch_round
udp_state_dispatch_loop = run dispatch_round

unfoldable pub tcp_state_dispatch_loop :
    List (WorkRound SocketAddr) → Worker SocketAddr → Flow (Worker SocketAddr)
unfolding run dispatch_round
tcp_state_dispatch_loop = run dispatch_round

-- The rounds of an active server whose tasks can be spawned, for the work `works`.
abbrev pub active_rounds : {A : Type 0} → List (A × ConcurrencyPermit) → List (WorkRound A)
active_rounds [] = []
active_rounds (work ∷ works) =
    record { at_head = true; received = some work; after = true; spawned = true }
    ∷ active_rounds works

abbrev pub idle : {A : Type 0} → Worker A
idle = record { handled = []; dropped = [] }

module _ {A : Type 0} where
  go_on-active :
      (works : List (A × ConcurrencyPermit)) (w : Worker A)
      → go_on dispatch_round (active_rounds works) (next w)
        ≡ next (record w { handled = w.handled ++ works })
  unfolding go_on dispatch_round with_work
  go_on-active [] w = ap (λ l. next (record w { handled = l })) (sym (append-nil w.handled))
  go_on-active (work ∷ works) w =
      go_on-active works (record w { handled = w.handled ++ work ∷ [] })
      ∙ ap (λ l. next (record w { handled = l })) (append_assoc w.handled (work ∷ []) works)

-- A worker of an active server starts a handler for each work item that it is sent, once, in order and
-- with its permit, drops none, and goes on: for UDP and for TCP.
pub dispatch_loops-handle :
    (datagrams : List (UdpWorkItem × ConcurrencyPermit))
    (connections : List (SocketAddr × ConcurrencyPermit))
    → (udp_state_dispatch_loop (active_rounds datagrams) idle
        ≡ next (record { handled = datagrams; dropped = [] }))
      × (tcp_state_dispatch_loop (active_rounds connections) idle
          ≡ next (record { handled = connections; dropped = [] }))
unfolding udp_state_dispatch_loop tcp_state_dispatch_loop
dispatch_loops-handle datagrams connections =
    (go_on-active datagrams idle, go_on-active connections idle)
