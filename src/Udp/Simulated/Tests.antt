-- ===== src/Udp/Simulated/Tests.antt =====
-- A run of the simulated UDP listener with two workers, and its theorems there.
use sfo_reuseport.Prelude.{◌≡◌, refl, true, List, [], ◌∷◌, none, some, get_elem?, All, arith}
use sfo_reuseport.Error.{timed_out, ok, err}
use sfo_reuseport.Net.{SocketAddr, v4_localhost}
use sfo_reuseport.Dispatch.{Datagram, Round, is_active, state_of}
use sfo_reuseport.Dispatch.Progress.{start}
use sfo_reuseport.Dispatch.Rounds.{Safe, RoundIsActive}
use sfo_reuseport.Dispatch.Delivery.{free, delivered}
use sfo_reuseport.Udp.Simulated.{simulated_udp_listener_loop}
use sfo_reuseport.Udp.Simulated.Laws.{IsFor, dest, udp_loop-Safe, udp_loop-delivered}

abbrev peer : SocketAddr
peer = record { ip = v4_localhost; port = 5000 }

-- Four bytes, in a buffer with one byte more.
abbrev packet : Datagram
packet = record { len = 4; peer_addr = peer; local_addr = peer; buffer = 64 ∷ 0 ∷ 3 ∷ 9 ∷ 7 ∷ [] }

abbrev failed : Round Datagram
failed = record {
  at_head = record { runtime_active = true; server_active = true };
  received = err (record { kind = timed_out; message = [] });
  after = record { runtime_active = true; server_active = true };
  finished = [];
  open_ = true;
}

abbrev works : Round Datagram
works = record failed { received = ok packet }

abbrev rounds : List (Round Datagram)
rounds = works ∷ failed ∷ works ∷ []

udp_loop-Safe_example :
    Safe (IsFor 2) 2 (state_of (simulated_udp_listener_loop 2 rounds (start 2 (some 1))))
udp_loop-Safe_example = udp_loop-Safe 2 (some 1) rounds

all_active : All RoundIsActive rounds
unfolding is_active
all_active = ((refl, refl, refl), ((refl, refl, refl), ((refl, refl, refl), tt)))

udp_loop-delivered_example :
    get_elem? (state_of (simulated_udp_listener_loop 2 rounds (start 2 none))).sent 1
    ≡ some (free (delivered (dest 2) 1 rounds))
udp_loop-delivered_example = udp_loop-delivered 2 (omega arith) rounds 1 all_active (omega arith)
