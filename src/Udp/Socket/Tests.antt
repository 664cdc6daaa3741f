-- ===== src/Udp/Socket/Tests.antt =====
-- A socket of the runtime that has one datagram, beside a routed socket that has the same one.
use sfo_reuseport.Prelude.{ℕ, ◌≡◌, refl, true, false, List, [], ◌∷◌, some, length, replicate, arith}
use sfo_reuseport.Error.{IoError, ErrorKind, text, Result, ok, err}
use sfo_reuseport.Net.{v4, SocketAddr}
use sfo_reuseport.Platform.Linux.OriginalDst.{little, Attempt, copy_len}
use sfo_reuseport.Runtime.Net.{ready, NetSocket}
use sfo_reuseport.Udp.Routed.{RoutedPacket}
use sfo_reuseport.Udp.Socket.{
  RoutedUdpSocket, runtime, routed, recv_from, recv_from_vec, poll_recv_from,
  poll_recv_from_vectored, try_send_to, recv_packet_with_local_addr,
}
use sfo_reuseport.Udp.Socket.Laws.{received, Delivers, sockets_agree}
use sfo_reuseport.Udp.Socket.Destination.{recv_packet-destination}

abbrev peer : SocketAddr
peer = record { ip = v4 (10 ∷ 0 ∷ 0 ∷ 1 ∷ []); port = 5000 }

abbrev bound : SocketAddr
bound = record { ip = v4 (0 ∷ 0 ∷ 0 ∷ 0 ∷ []); port = 443 }

abbrev original_dst : SocketAddr
original_dst = record { ip = v4 (192 ∷ 0 ∷ 2 ∷ 7 ∷ []); port = 443 }

abbrev packet : RoutedPacket
packet = record { payload = 1 ∷ 2 ∷ 3 ∷ []; peer_addr = peer }

abbrev net : NetSocket ℕ
net = record {
  recv_from = λ buffer w. (ready (received packet buffer), w);
  send_to = λ buffer target w. (ready (length buffer), w);
  try_send_to = λ buffer target w. (ok (length buffer), w);
  poll_send_ready = λ w. (ready tt, w);
  poll_recv_from = λ buffer w. (ready (received packet buffer), w);
  local_addr = λ w. ok bound;
}

abbrev std_send_to : List ℕ → SocketAddr → Result IoError ℕ
std_send_to buffer target = ok (length buffer)

abbrev fed_socket : RoutedUdpSocket
fed_socket = record {
  receiver = record { queue = packet ∷ []; closed = false };
  local_addr = bound;
}

-- A socket of async-std never sends without waiting.
never_sends :
    (try_send_to net std_send_to false (1 ∷ []) peer (runtime 0)).0
    ≡ err (record {
      kind = ErrorKind.unsupported;
      message = text "async-std UDP socket does not expose nonblocking send readiness";
    })
unfolding try_send_to
never_sends = refl

net-Delivers : Delivers net packet 0 0
net-Delivers = record { awaited = λ buffer. refl; polled = λ buffer. refl }

sockets_agree_example :
    ((recv_from net std_send_to true (0 ∷ 0 ∷ []) (runtime 0)).0
      ≡ (recv_from net std_send_to true (0 ∷ 0 ∷ []) (routed fed_socket)).0)
    × ((recv_from_vec net std_send_to true (0 ∷ 0 ∷ []) (runtime 0)).0
        ≡ (recv_from_vec net std_send_to true (0 ∷ 0 ∷ []) (routed fed_socket)).0)
    × ((poll_recv_from net std_send_to true (0 ∷ 0 ∷ []) (runtime 0)).0
        ≡ (poll_recv_from net std_send_to true (0 ∷ 0 ∷ []) (routed fed_socket)).0)
    × ((poll_recv_from_vectored net std_send_to true ((0 ∷ []) ∷ (0 ∷ 0 ∷ []) ∷ []) (runtime 0)).0
        ≡ (poll_recv_from_vectored net std_send_to true
            ((0 ∷ []) ∷ (0 ∷ 0 ∷ []) ∷ [])
            (routed fed_socket)).0)
sockets_agree_example =
    sockets_agree packet [] fed_socket refl net std_send_to 0 0 net-Delivers (0 ∷ 0 ∷ [])
      ((0 ∷ []) ∷ (0 ∷ 0 ∷ []) ∷ []) (omega arith)

abbrev zeros : List ℕ
zeros = 0 ∷ 0 ∷ 0 ∷ 0 ∷ []

-- The kernel tells the original destination, in the second control message.
abbrev recvmsg : List ℕ → ℕ → Attempt × ℕ
recvmsg buffer w = (
  some (
    ok (record {
      len = 1;
      source = 2 ∷ 0 ∷ 19 ∷ 136 ∷ 10 ∷ 0 ∷ 0 ∷ 1 ∷ replicate 120 0;
      control =
          (record { cmsg_level = 0; cmsg_type = 2; from_data = 64 ∷ [] })
          ∷ (record {
            cmsg_level = 0;
            cmsg_type = 20;
            from_data = 2 ∷ 0 ∷ 1 ∷ 187 ∷ 192 ∷ 0 ∷ 2 ∷ 7 ∷ replicate 8 0;
          })
          ∷ [];
    }),
    9 ∷ 0 ∷ [],
  ),
  w,
)

recv_packet-destination_example :
    ((recv_packet_with_local_addr net std_send_to true true little recvmsg
        (0 ∷ 0 ∷ [])
        true
        (runtime 0)).0
      ≡ some (ok (1, peer, original_dst, 9 ∷ 0 ∷ [])))
    × ((recv_packet_with_local_addr net std_send_to true true little recvmsg
          (0 ∷ 0 ∷ [])
          true
          (routed fed_socket)).0
        ≡ some (ok (2, peer, bound, 1 ∷ 2 ∷ [])))
unfolding copy_len
recv_packet-destination_example =
    recv_packet-destination net std_send_to little recvmsg (0 ∷ 0 ∷ []) (9 ∷ 0 ∷ []) 0 0 bound refl
      zeros zeros refl refl 1 (replicate 112 0) []
      ((record { cmsg_level = 0; cmsg_type = 2; from_data = 64 ∷ [] }) ∷ []) [] peer
      (some original_dst) fed_socket packet [] true (omega arith) (omega arith) (refl, tt) refl refl
