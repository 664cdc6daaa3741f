-- ===== src/Udp/Socket/Destination.antt =====
-- The local address that a handler is told of a datagram.
use sfo_reuseport.Prelude.{
  ℕ, ◌≡◌, refl, ap, Bool, true, false, List, ◌∷◌, ◌++◌, Option, none, some, length, All,
}
use sfo_reuseport.Error.{IoError, Result, ok}
use sfo_reuseport.Net.{SocketAddr, SocketAddrIsValid, OptionIsValid}
use sfo_reuseport.Platform.Linux.OriginalDst.{
  Endian, Message, ControlMessage, Attempt, recv_udp_original_dst, recv_udp_original_dst_raw,
}
use sfo_reuseport.Platform.Linux.OriginalDst.Laws.{sockaddr, original, IsOther, recv-original}
use sfo_reuseport.Runtime.Net.{NetSocket}
use sfo_reuseport.Udp.Routed.{RoutedPacket}
use sfo_reuseport.Udp.Socket.{
  RoutedUdpSocket, runtime, routed, await, recv_from_vec, local_addr, plainly,
  recv_packet_with_local_addr,
}
use sfo_reuseport.Udp.Socket.Laws.{received, routed-taken}

module _ {W : Type 0} (net : NetSocket W) (std_send_to : List ℕ → SocketAddr → Result IoError ℕ)
    (e : Endian) (recvmsg : List ℕ → W → Attempt × W) (buffer filled : List ℕ) (w w' : W)
    (bound : SocketAddr) (bound_to : net.local_addr w ≡ ok bound) where
  transparently :
      (message : Message) (len : ℕ) (peer local : SocketAddr)
      → recvmsg buffer w ≡ (some (ok message, filled), w')
      → recv_udp_original_dst_raw e (ok message) bound ≡ ok (len, peer, local)
      → (recv_packet_with_local_addr net std_send_to true true e recvmsg buffer true (runtime w)).0
        ≡ some (ok (len, peer, local, filled))
  unfolding recv_packet_with_local_addr recv_udp_original_dst local_addr
  transparently message len peer local arrives decodes = rw (bound_to, arrives, decodes) refl

  module _ (s : RoutedUdpSocket) (packet : RoutedPacket) (rest : List RoutedPacket)
      (first : s.receiver.queue ≡ packet ∷ rest) where
    -- What the handler gets of the packet, by whether the receive is transparent.
    abbrev Handed : Bool → Type 0
    Handed transparent_receive =
        (recv_packet_with_local_addr net std_send_to true true e recvmsg buffer transparent_receive
          (routed s)).0
        ≡ some (
            ok (
              (received packet buffer).0,
              packet.peer_addr,
              s.local_addr,
              (received packet buffer).2,
            ))

    taken : recv_from_vec net std_send_to true buffer (routed s) ≡ (
      some (ok (received packet buffer)),
      routed (record s { receiver = record s.receiver { queue = rest } }),
    )
    unfolding recv_from_vec
    taken = ap (λ r. (await r.0, routed r.1)) (routed-taken packet rest s first buffer)

    by_default : Handed true
    unfolding recv_packet_with_local_addr local_addr
    by_default = ap (λ p. (plainly net std_send_to true p).0) taken

    by_case : (transparent_receive : Bool) → Handed transparent_receive
    unfolding recv_packet_with_local_addr
    by_case true = by_default
    by_case false = by_default

  module _ (flow scope : List ℕ) (flow_size : length flow ≡ 4) (scope_size : length scope ≡ 4)
      (len : ℕ) (padding more : List ℕ) (before after : List ControlMessage)
      (peer : SocketAddr) where
    -- A datagram from the peer, with the control messages.
    abbrev pub from_peer : List ControlMessage → Message
    from_peer control = record {
      len = len;
      source = sockaddr e flow scope peer ++ padding;
      control = control;
    }

    -- The messages among which the kernel tells the original destination, or does not.
    abbrev pub control_of : Option SocketAddr → List ControlMessage
    control_of none = before
    control_of (some local) =
        before ++ original flow scope flow_size scope_size e local more ∷ after

    abbrev pub destination_or : Option SocketAddr → SocketAddr
    destination_or none = bound
    destination_or (some local) = local

    decodes :
        (told : Option SocketAddr)
        → SocketAddrIsValid peer
        → OptionIsValid told
        → All IsOther before
        → recv_udp_original_dst_raw e (ok (from_peer (control_of told))) bound
          ≡ ok (len, peer, destination_or told)
    decodes none valid_peer valid others =
        (recv-original e flow scope flow_size scope_size len padding more before after peer peer
          bound valid_peer valid_peer others).1
    decodes (some local) valid_peer valid others =
        (recv-original e flow scope flow_size scope_size len padding more before after peer local
          bound valid_peer valid others).0

    -- On Linux with tokio, of a datagram that is received transparently a handler is told the original
    -- destination where the kernel tells it, among whatever other control messages, and where it does
    -- not, the address that the socket is bound to. Of a packet that the dispatcher feeds it is told
    -- the address of the routed socket.
    pub recv_packet-destination :
        (told : Option SocketAddr) (s : RoutedUdpSocket) (packet : RoutedPacket)
        (rest : List RoutedPacket) (transparent_receive : Bool)
        → SocketAddrIsValid peer
        → OptionIsValid told
        → All IsOther before
        → recvmsg buffer w ≡ (some (ok (from_peer (control_of told)), filled), w')
        → s.receiver.queue ≡ packet ∷ rest
        → ((recv_packet_with_local_addr net std_send_to true true e recvmsg buffer true
              (runtime w)).0
            ≡ some (ok (len, peer, destination_or told, filled)))
          × ((recv_packet_with_local_addr net std_send_to true true e recvmsg buffer
                transparent_receive
                (routed s)).0
              ≡ some (
                  ok (
                    (received packet buffer).0,
                    packet.peer_addr,
                    s.local_addr,
                    (received packet buffer).2,
                  )))
    recv_packet-destination told s packet rest transparent_receive valid_peer valid others arrives
          first =
        (
          transparently (from_peer (control_of told)) len peer (destination_or told) arrives
              (decodes told valid_peer valid others),
          by_case s packet rest first transparent_receive,
        )
