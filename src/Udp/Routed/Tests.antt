-- ===== src/Udp/Routed/Tests.antt =====
-- A packet of three bytes received into buffers of one and three.
use sfo_reuseport.Prelude.{◌≡◌, refl, [], ◌∷◌, some, true}
use sfo_reuseport.Error.{ok, err}
use sfo_reuseport.Net.{v4_localhost}
use sfo_reuseport.Udp.Routed.{
  RoutedPacket, poll_recv_packet, scatter_datagram, routed_socket_closed,
}

abbrev packet : RoutedPacket
packet = record { payload = 1 ∷ 2 ∷ 3 ∷ []; peer_addr = record { ip = v4_localhost; port = 5 } }

scattered :
    scatter_datagram packet.payload ((0 ∷ []) ∷ (0 ∷ 0 ∷ 9 ∷ []) ∷ [])
    ≡ (1 ∷ []) ∷ (2 ∷ 3 ∷ 9 ∷ []) ∷ []
unfolding scatter_datagram
scattered = refl

-- A closed channel still hands out what waits in it.
last_packet :
    (poll_recv_packet (record { queue = packet ∷ []; closed = true })).1 ≡ some (ok packet)
unfolding poll_recv_packet
last_packet = refl

then_closed :
    (poll_recv_packet (record { queue = []; closed = true })).1 ≡ some (err routed_socket_closed)
unfolding poll_recv_packet
then_closed = refl
