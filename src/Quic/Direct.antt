-- ===== src/Quic/Direct.antt =====
-- `quic_reuseport_bpf_listener_loop_with_state` of src/core/quic.rs: a worker receives on the socket
-- that the kernel program selects for it, and starts a handler for each packet that is a QUIC packet.
use sfo_reuseport.Prelude.{ℕ, ◌<◌, Bool, true, false, List, Option, some}
use sfo_reuseport.Error.{IoError, Result, ok, err}
use sfo_reuseport.Concurrency.{ConcurrencyPermit, counted}
use sfo_reuseport.Dispatch.{Datagram, payload, Flow, next, state_of, while_active, run}
use sfo_reuseport.Listen.{Listener, listener, Turn, give_back, spawn, turn}
use sfo_reuseport.Listen.Laws.{Counts, after-Counts, give_back-Counts, spawn-Counts, run-Counts}
use sfo_reuseport.Udp.{UdpWorkItem}
use sfo_reuseport.Net.{SocketAddr}
use sfo_reuseport.Quic.Route.{quic_reuseport_bpf_accepts_packet}
use sfo_reuseport.Quic.Routed.{work_item}

abbrev Worker : Type 0
Worker = Listener UdpWorkItem

module _ (local_addr : Option SocketAddr) (worker_count : ℕ) where
  -- The turn with a permit, once a packet has been received and looked at. `accepted` is the value of
  -- `quic_reuseport_bpf_accepts_packet`.
  checked : Turn Datagram → Datagram → Bool → ConcurrencyPermit → Worker → Flow Worker
  unfolding give_back spawn
  checked t d false permit l = next (give_back permit l)
  checked t d true permit l = spawn (work_item local_addr d) t.spawned permit l

  -- The turn with a permit, once the socket has answered.
  received : Turn Datagram → Result IoError Datagram → ConcurrencyPermit → Worker → Flow Worker
  unfolding while_active give_back checked quic_reuseport_bpf_accepts_packet
  received t (err _) permit l =
      while_active t.after (give_back permit l) (next (give_back permit l))
  received t (ok d) permit l =
      while_active t.after (give_back permit l)
        (checked t d (quic_reuseport_bpf_accepts_packet (payload d) worker_count) permit l)

  quic_listener_turn : Turn Datagram → ConcurrencyPermit → Worker → Flow Worker
  unfolding received
  quic_listener_turn t permit l = received t t.received permit l

  unfoldable pub quic_reuseport_bpf_listener_loop_with_state :
      List (Turn Datagram) → Worker → Flow Worker
  unfolding run turn quic_listener_turn
  quic_reuseport_bpf_listener_loop_with_state = run (turn quic_listener_turn)

  module _ (max : ℕ) where
    checked-Counts :
        (t : Turn Datagram) (d : Datagram) (accepted : Bool) (l : Worker)
        → Counts max 1 l
        → Counts max 0 (state_of (checked t d accepted counted l))
    unfolding checked
    checked-Counts t d false l h = give_back-Counts UdpWorkItem max l h
    checked-Counts t d true l h =
        spawn-Counts UdpWorkItem max (work_item local_addr d) t.spawned l h

    received-Counts :
        (t : Turn Datagram) (a : Result IoError Datagram) (l : Worker)
        → Counts max 1 l
        → Counts max 0 (state_of (received t a counted l))
    unfolding received
    received-Counts t (err e) l h =
        after-Counts UdpWorkItem max t.after l _ h (give_back-Counts UdpWorkItem max l h)
    received-Counts t (ok d) l h =
        after-Counts UdpWorkItem max t.after l _ h
          (checked-Counts t d (quic_reuseport_bpf_accepts_packet (payload d) worker_count) l h)

    -- Whatever the environment does, a QUIC listener behind a kernel program with a limit never runs
    -- more handlers than the limit, and its counter is the number of running handlers: a packet that
    -- is not accepted, an error, a cleared flag or a failed spawn gives the permit back.
    pub quic_loop-Counts :
        0 < max
        → (turns : List (Turn Datagram))
        → Counts max 0
            (state_of (quic_reuseport_bpf_listener_loop_with_state turns (listener (some max))))
    unfolding quic_reuseport_bpf_listener_loop_with_state quic_listener_turn
    quic_loop-Counts pos turns =
        run-Counts UdpWorkItem max quic_listener_turn (λ t l h. received-Counts t t.received l h)
          pos turns
