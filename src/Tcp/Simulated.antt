-- ===== src/Tcp/Simulated.antt =====
-- `simulated_tcp_accept_loop` of src/core/tcp.rs: worker 0 accepts, and gives each connection to the
-- worker that the hash of its addresses selects. A connection is known by its peer's address.
pub mod Laws
mod Tests
use sfo_reuseport.Prelude.{ℕ, ◌+◌, ◌-◌, leb, List, some, if◌then◌else◌}
use sfo_reuseport.Error.{Error, IoError, Result, ok, err, ◌>>=◌}
use sfo_reuseport.Net.{SocketAddr, PacketMeta}
use sfo_reuseport.Schedule.{linux_reuseport_select}
use sfo_reuseport.Dispatch.{while_active, Round, Flow, stop, run, Router, finish_all, offer}

unfoldable pub select_simulated_tcp_worker : PacketMeta → ℕ → Result Error ℕ
unfolding linux_reuseport_select
select_simulated_tcp_worker meta worker_count =
    if leb worker_count 1
    then linux_reuseport_select meta worker_count
    else linux_reuseport_select meta (worker_count - 1) >>= λ worker_id. ok (worker_id + 1)

abbrev pub meta_of : SocketAddr → SocketAddr → PacketMeta
meta_of local_addr peer_addr = record { peer_addr = some peer_addr; local_addr = some local_addr }

-- The round, once a connection has been accepted and its worker selected.
unfoldable pub selected :
    Round SocketAddr → SocketAddr → Result Error ℕ → Router SocketAddr → Flow (Router SocketAddr)
unfolding offer finish_all
selected r peer_addr (err _) s = stop s
selected r peer_addr (ok w) s = offer w peer_addr r.open_ (finish_all r.finished s)

-- The round, once the listener has answered.
unfoldable pub accepted :
    SocketAddr
    → ℕ
    → Round SocketAddr
    → Result IoError SocketAddr
    → Router SocketAddr
    → Flow (Router SocketAddr)
unfolding while_active selected select_simulated_tcp_worker
accepted local_addr worker_count r (err _) s = stop s
accepted local_addr worker_count r (ok peer_addr) s = while_active r.after s (
    selected r peer_addr (select_simulated_tcp_worker (meta_of local_addr peer_addr) worker_count)
      s)

unfoldable pub simulated_tcp_accept_round :
    SocketAddr → ℕ → Round SocketAddr → Router SocketAddr → Flow (Router SocketAddr)
unfolding while_active accepted
simulated_tcp_accept_round local_addr worker_count r s =
    while_active r.at_head s (accepted local_addr worker_count r r.received s)

unfoldable pub simulated_tcp_accept_loop :
    SocketAddr → ℕ → List (Round SocketAddr) → Router SocketAddr → Flow (Router SocketAddr)
unfolding run simulated_tcp_accept_round
simulated_tcp_accept_loop local_addr worker_count =
    run (simulated_tcp_accept_round local_addr worker_count)
