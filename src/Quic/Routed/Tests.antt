-- ===== src/Quic/Routed/Tests.antt =====
-- A run of the routed QUIC listener with two workers, and its theorems there.
use sfo_reuseport.Prelude.{◌≡◌, refl, true, List, [], ◌∷◌, none, some, get_elem?, All, arith}
use sfo_reuseport.Error.{timed_out, ok, err}
use sfo_reuseport.Net.{SocketAddr, v4_localhost}
use sfo_reuseport.Udp.{UdpWorkItem}
use sfo_reuseport.Dispatch.{Datagram, Round, is_active, Router, next, state_of}
use sfo_reuseport.Dispatch.Laws.{Fits}
use sfo_reuseport.Dispatch.Progress.{start}
use sfo_reuseport.Dispatch.Rounds.{Safe, RoundIsActive}
use sfo_reuseport.Dispatch.Delivery.{free, delivered}
use sfo_reuseport.Quic.Routed.{quic_routed_udp_listener_loop}
use sfo_reuseport.Quic.Routed.Laws.{
  IsFor, dest, routed_loop-Safe, routed_loop-next, routed_loop-delivered,
}

abbrev peer : SocketAddr
peer = record { ip = v4_localhost; port = 5000 }

-- A short header, with worker 3 in the connection id, in a buffer with one byte more.
abbrev packet : Datagram
packet = record { len = 4; peer_addr = peer; local_addr = peer; buffer = 64 ∷ 0 ∷ 3 ∷ 9 ∷ 7 ∷ [] }

abbrev failed : Round Datagram
failed = record {
  at_head = record { runtime_active = true; server_active = true };
  received = err (record { kind = timed_out; message = [] });
  after = record { runtime_active = true; server_active = true };
  finished = [];
  open_ = true;
}

abbrev works : Round Datagram
works = record failed { received = ok packet }

abbrev rounds : List (Round Datagram)
rounds = works ∷ failed ∷ works ∷ []

routed_loop-Safe_example :
    Safe (IsFor 2) 2 (state_of (quic_routed_udp_listener_loop none 2 rounds (start 2 (some 1))))
routed_loop-Safe_example = routed_loop-Safe none 2 (some 1) rounds

all_active : All RoundIsActive rounds
unfolding is_active
all_active = ((refl, refl, refl), ((refl, refl, refl), ((refl, refl, refl), tt)))

routed_loop-next_example :
    (t : Router UdpWorkItem) × (quic_routed_udp_listener_loop none 2 rounds (start 2 (some 1))
      ≡ next t)
    × Fits 2 t
routed_loop-next_example = routed_loop-next none 2 (some 1) rounds all_active

routed_loop-delivered_example :
    get_elem? (state_of (quic_routed_udp_listener_loop none 2 rounds (start 2 none))).sent 1
    ≡ some (free (delivered (dest none 2) 1 rounds))
routed_loop-delivered_example = routed_loop-delivered none 2 rounds 1 all_active (omega arith)
