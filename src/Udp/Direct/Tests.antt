-- ===== src/Udp/Direct/Tests.antt =====
-- A run of the direct UDP listener with a limit of one, and its theorem there.
use sfo_reuseport.Prelude.{true, [], ◌∷◌, some, arith}
use sfo_reuseport.Error.{ok, err, timed_out}
use sfo_reuseport.Net.{SocketAddr, v4_localhost}
use sfo_reuseport.Dispatch.{Datagram, Flags, state_of}
use sfo_reuseport.Listen.{Turn, listener}
use sfo_reuseport.Listen.Laws.{Counts}
use sfo_reuseport.Udp.Direct.{udp_listener_loop_with_state, udp_loop-Counts}

abbrev peer : SocketAddr
peer = record { ip = v4_localhost; port = 5000 }

abbrev all_set : Flags
all_set = record { runtime_active = true; server_active = true }

abbrev works : Turn Datagram
works = record {
  at_head = all_set;
  finished = 0;
  acquired = all_set;
  received =
      ok (record { len = 4; peer_addr = peer; local_addr = peer; buffer = 64 ∷ 0 ∷ 3 ∷ 9 ∷ [] });
  after = all_set;
  spawned = true;
}

-- The second turn waits, the third fails to receive, after a handler has finished.
abbrev fails : Turn Datagram
fails = record works { finished = 1; received = err (record { kind = timed_out; message = [] }) }

udp_loop-Counts_example :
    Counts 1 0
      (state_of (udp_listener_loop_with_state (works ∷ works ∷ fails ∷ []) (listener (some 1))))
udp_loop-Counts_example = udp_loop-Counts 1 (omega arith) (works ∷ works ∷ fails ∷ [])
