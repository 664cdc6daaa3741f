-- ===== src/Tcp/Simulated/Tests.antt =====
-- A run of the simulated TCP listener with two workers, and its theorems there.
use sfo_reuseport.Prelude.{◌≡◌, refl, true, List, [], ◌∷◌, none, some, get_elem?, All, arith}
use sfo_reuseport.Error.{ok}
use sfo_reuseport.Net.{SocketAddr, v4_localhost}
use sfo_reuseport.Dispatch.{Round, is_active, state_of}
use sfo_reuseport.Dispatch.Progress.{start}
use sfo_reuseport.Dispatch.Delivery.{free, delivered}
use sfo_reuseport.Tcp.Simulated.{simulated_tcp_accept_loop}
use sfo_reuseport.Tcp.Simulated.Laws.{RoundAccepts, dest, tcp_loop-delivered}

abbrev peer : SocketAddr
peer = record { ip = v4_localhost; port = 5000 }

abbrev local : SocketAddr
local = record { ip = v4_localhost; port = 80 }

abbrev works : Round SocketAddr
works = record {
  at_head = record { runtime_active = true; server_active = true };
  received = ok peer;
  after = record { runtime_active = true; server_active = true };
  finished = [];
  open_ = true;
}

abbrev rounds : List (Round SocketAddr)
rounds = works ∷ works ∷ []

all_active : All RoundAccepts rounds
unfolding is_active
all_active = (((refl, refl, refl), refl), (((refl, refl, refl), refl), tt))

tcp_loop-delivered_example :
    get_elem? (state_of (simulated_tcp_accept_loop local 2 rounds (start 2 none))).sent 1
    ≡ some (free (delivered (dest local 2) 1 rounds))
tcp_loop-delivered_example =
    tcp_loop-delivered local 2 (omega arith) rounds 1 all_active (omega arith)
