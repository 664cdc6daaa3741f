-- ===== src/Quic/Routed.antt =====
-- `quic_routed_udp_listener_loop` of src/core/quic.rs: one task receives, and gives each QUIC packet
-- to the worker that its connection id names. Other packets are dropped.
pub mod Laws
mod Tests
use sfo_reuseport.Prelude.{ℕ, List, Option, none, some}
use sfo_reuseport.Error.{IoError, Result, ok, err}
use sfo_reuseport.Net.{SocketAddr}
use sfo_reuseport.Quic.Route.{quic_worker_index}
use sfo_reuseport.Dispatch.{
  while_active, Datagram, payload, Round, Flow, next, stop, run, Router, finish_all, offer,
}
use sfo_reuseport.Udp.{UdpWorkItem}

-- The work item of a datagram. `local_addr` is what the socket answers, where it answers.
abbrev pub work_item : Option SocketAddr → Datagram → UdpWorkItem
work_item local_addr d = record {
  meta = record { peer_addr = some d.peer_addr; local_addr = local_addr };
  payload = payload d;
}

-- The round, once a packet has been received and looked at.
unfoldable pub routed :
    Option SocketAddr
    → Round Datagram
    → Datagram
    → Option ℕ
    → Router UdpWorkItem
    → Flow (Router UdpWorkItem)
unfolding offer finish_all
routed local_addr r d none s = next s
routed local_addr r d (some w) s =
    offer w (work_item local_addr d) r.open_ (finish_all r.finished s)

-- The round, once the socket has answered.
unfoldable pub received :
    Option SocketAddr
    → ℕ
    → Round Datagram
    → Result IoError Datagram
    → Router UdpWorkItem
    → Flow (Router UdpWorkItem)
unfolding while_active routed quic_worker_index
received local_addr worker_count r (err _) s = while_active r.after s (next s)
received local_addr worker_count r (ok d) s =
    while_active r.after s (routed local_addr r d (quic_worker_index (payload d) worker_count) s)

unfoldable pub quic_routed_udp_listener_round :
    Option SocketAddr → ℕ → Round Datagram → Router UdpWorkItem → Flow (Router UdpWorkItem)
unfolding while_active received
quic_routed_udp_listener_round local_addr worker_count r s =
    while_active r.at_head s (received local_addr worker_count r r.received s)

unfoldable pub quic_routed_udp_listener_loop :
    Option SocketAddr → ℕ → List (Round Datagram) → Router UdpWorkItem → Flow (Router UdpWorkItem)
unfolding run quic_routed_udp_listener_round
quic_routed_udp_listener_loop local_addr worker_count =
    run (quic_routed_udp_listener_round local_addr worker_count)
