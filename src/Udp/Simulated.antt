-- ===== src/Udp/Simulated.antt =====
-- `simulated_udp_listener_loop` of src/core/udp.rs: one task receives, and gives each datagram to
-- the worker that the hash of its addresses selects.
pub mod Laws
mod Tests
use sfo_reuseport.Prelude.{ℕ, List, some}
use sfo_reuseport.Error.{Error, IoError, Result, ok, err}
use sfo_reuseport.Net.{PacketMeta}
use sfo_reuseport.Schedule.{linux_reuseport_select}
use sfo_reuseport.Dispatch.{
  while_active, Datagram, payload, Round, Flow, next, stop, run, Router, finish_all, offer,
}
use sfo_reuseport.Udp.{UdpWorkItem}

abbrev pub meta_of : Datagram → PacketMeta
meta_of d = record { peer_addr = some d.peer_addr; local_addr = some d.local_addr }

-- The round, once a datagram has been received and its worker selected.
unfoldable pub selected :
    Round Datagram → Datagram → Result Error ℕ → Router UdpWorkItem → Flow (Router UdpWorkItem)
unfolding offer finish_all
selected r d (err _) s = stop s
selected r d (ok w) s =
    offer w (record { meta = meta_of d; payload = payload d }) r.open_ (finish_all r.finished s)

-- The round, once the socket has answered.
unfoldable pub received :
    ℕ → Round Datagram → Result IoError Datagram → Router UdpWorkItem → Flow (Router UdpWorkItem)
unfolding while_active selected linux_reuseport_select
received worker_count r (err _) s = while_active r.after s (next s)
received worker_count r (ok d) s =
    while_active r.after s (selected r d (linux_reuseport_select (meta_of d) worker_count) s)

unfoldable pub simulated_udp_listener_round :
    ℕ → Round Datagram → Router UdpWorkItem → Flow (Router UdpWorkItem)
unfolding while_active received
simulated_udp_listener_round worker_count r s =
    while_active r.at_head s (received worker_count r r.received s)

unfoldable pub simulated_udp_listener_loop :
    ℕ → List (Round Datagram) → Router UdpWorkItem → Flow (Router UdpWorkItem)
unfolding run simulated_udp_listener_round
simulated_udp_listener_loop worker_count = run (simulated_udp_listener_round worker_count)
