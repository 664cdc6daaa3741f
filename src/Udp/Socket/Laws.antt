-- ===== src/Udp/Socket/Laws.antt =====
-- A handler or a callback cannot tell a socket of the runtime from one that the dispatcher feeds, and is
-- told the address that a datagram was sent to.
use sfo_reuseport.Prelude.{
  ℕ, ◌+◌, ◌-◌, ◌≤◌, ◌≡◌, refl, sym, ap, ◌∙◌, min, Bool, true, false, List, [], ◌∷◌, length, take,
  length-replicate, arith,
}
use sfo_reuseport.Error.{IoError, Result}
use sfo_reuseport.Net.{SocketAddr}
use sfo_reuseport.Runtime.Adapter.{
  udp_recv_from, udp_recv_from_slice, udp_poll_recv_from_slice, udp_poll_recv_from_vectored,
}
use sfo_reuseport.Runtime.Net.Tokio
use sfo_reuseport.Runtime.Net.Tokio.{largest_datagram}
use sfo_reuseport.Runtime.Net.{ready, Received, NetSocket}
use sfo_reuseport.Udp.Routed
use sfo_reuseport.Udp.Routed.{
  RoutedPacket, Channel, poll_recv_packet, copy_from_slice, receive_into, receive_vectored,
}
use sfo_reuseport.Udp.Routed.Laws.{overwrite, copy-overwrite}
use sfo_reuseport.Udp.Socket.{
  RoutedUdpSocket, runtime, routed, receive, routed_recv_from, routed_recv_from_vectored, recv_from,
  recv_from_vec, poll_recv_from, poll_recv_from_vectored,
}

-- What a receive makes of a datagram, by the documentation: as much of it as fits, its sender, and the
-- buffer overwritten by that much.
abbrev pub received : RoutedPacket → List ℕ → Received (List ℕ)
received packet buffer =
    (min (length packet.payload) (length buffer), packet.peer_addr, overwrite packet.payload buffer)

-- The socket of the runtime has the datagram next.
pub record Delivers {W : Type 0} (net : NetSocket W) (packet : RoutedPacket) (w w' : W)
    : Type 0 where
  pub awaited : (buffer : List ℕ) → net.recv_from buffer w ≡ (ready (received packet buffer), w')
  pub polled :
      (buffer : List ℕ) → net.poll_recv_from buffer w ≡ (ready (received packet buffer), w')

scatter_from-agree :
    (offset : ℕ) (payload : List ℕ) (buffers : List (List ℕ))
    → Tokio.scatter_from offset payload buffers ≡ Routed.scatter_from offset payload buffers
unfolding Tokio.scatter_from Routed.scatter_from
scatter_from-agree offset payload [] = refl
scatter_from-agree offset payload (b ∷ bs) =
    rw (scatter_from-agree (offset + min (length payload - offset) (length b)) payload bs) refl

take-overwrite : (xs b : List ℕ) → length xs ≤ length b → take (length xs) (overwrite xs b) ≡ xs
take-overwrite [] b h = refl
take-overwrite (x ∷ xs) [] h = absurd (omega (arith, h))
take-overwrite (x ∷ xs) (y ∷ b) h = ap (λ l. x ∷ l) (take-overwrite xs b (omega (arith, h)))

length-largest : length largest_datagram ≡ 65536
unfolding largest_datagram
length-largest = length-replicate {A = ℕ} 65536 0

-- A datagram that fits is in the large buffer as a whole.
whole :
    (payload : List ℕ)
    → length payload ≤ 65536
    → (min (length payload) (length largest_datagram) ≡ length payload)
      × (take (length payload) (overwrite payload largest_datagram) ≡ payload)
whole payload h = (
  rw length-largest (omega (arith, h)),
  take-overwrite payload largest_datagram (rw length-largest h),
)

module _ (packet : RoutedPacket) (rest : List RoutedPacket) (s : RoutedUdpSocket)
    (first : s.receiver.queue ≡ packet ∷ rest) where
  receive-first :
      {B : Type 0} (into : RoutedPacket → Received B) → (receive into s).0 ≡ ready (into packet)
  unfolding receive poll_recv_packet
  receive-first into = rw (poll_recv_packet, first) refl

  pub routed-taken :
      (buffer : List ℕ)
      → routed_recv_from buffer s ≡ (
        ready (received packet buffer),
        record s { receiver = record s.receiver { queue = rest } },
      )
  unfolding routed_recv_from receive poll_recv_packet receive_into
  routed-taken buffer =
      rw (poll_recv_packet, first)
        (ap
          (λ b. (
            ready (min (length packet.payload) (length buffer), packet.peer_addr, b),
            record s { receiver = record s.receiver { queue = rest } },
          ))
          (copy-overwrite _ packet.payload buffer refl))

  routed-received :
      (buffer : List ℕ) → (routed_recv_from buffer s).0 ≡ ready (received packet buffer)
  routed-received buffer = ap (λ p. p.0) (routed-taken buffer)

  module _ {W : Type 0} (net : NetSocket W) (std_send_to : List ℕ → SocketAddr → Result IoError ℕ)
      (w w' : W) (next : Delivers net packet w w') where
    recv_from-agrees :
        (tokio : Bool) (buffer : List ℕ)
        → (recv_from net std_send_to tokio buffer (runtime w)).0
          ≡ (recv_from net std_send_to tokio buffer (routed s)).0
    unfolding recv_from udp_recv_from_slice
    recv_from-agrees true buffer = rw (next.awaited buffer, routed-received buffer) refl
    recv_from-agrees false buffer = rw (next.awaited buffer, routed-received buffer) refl

    recv_from_vec-agrees :
        (tokio : Bool) (buffer : List ℕ)
        → (recv_from_vec net std_send_to tokio buffer (runtime w)).0
          ≡ (recv_from_vec net std_send_to tokio buffer (routed s)).0
    unfolding recv_from_vec udp_recv_from
    recv_from_vec-agrees true buffer = rw (next.awaited buffer, routed-received buffer) refl
    recv_from_vec-agrees false buffer = rw (next.awaited buffer, routed-received buffer) refl

    poll_recv_from-agrees :
        (buffer : List ℕ)
        → (poll_recv_from net std_send_to true buffer (runtime w)).0
          ≡ (poll_recv_from net std_send_to true buffer (routed s)).0
    unfolding poll_recv_from udp_poll_recv_from_slice
    poll_recv_from-agrees buffer = rw (next.polled buffer, routed-received buffer) refl

    vectored-agrees :
        (buffers : List (List ℕ))
        → length packet.payload ≤ 65536
        → (poll_recv_from_vectored net std_send_to true buffers (runtime w)).0
          ≡ (poll_recv_from_vectored net std_send_to true buffers (routed s)).0
    unfolding poll_recv_from_vectored udp_poll_recv_from_vectored udp_poll_recv_from_slice
        Tokio.scatter_datagram routed_recv_from_vectored receive_vectored Routed.scatter_datagram
    vectored-agrees buffers h =
        let (n, all) = whole packet.payload h in
        rw (next.polled largest_datagram, n)
          (rw all (
            ap (λ l. ready (length packet.payload, packet.peer_addr, l))
              (scatter_from-agree 0 packet.payload buffers)
            ∙ sym (receive-first _)))

    -- A socket of tokio that has a datagram next, and a routed socket that has it first in its channel,
    -- give the same results for it: the same length, sender and buffers, by each of the four
    -- operations that receive; where the buffers are several, for a datagram of at most 65536 bytes.
    pub sockets_agree :
        (buffer : List ℕ) (buffers : List (List ℕ))
        → length packet.payload ≤ 65536
        → ((recv_from net std_send_to true buffer (runtime w)).0
            ≡ (recv_from net std_send_to true buffer (routed s)).0)
          × ((recv_from_vec net std_send_to true buffer (runtime w)).0
              ≡ (recv_from_vec net std_send_to true buffer (routed s)).0)
          × ((poll_recv_from net std_send_to true buffer (runtime w)).0
              ≡ (poll_recv_from net std_send_to true buffer (routed s)).0)
          × ((poll_recv_from_vectored net std_send_to true buffers (runtime w)).0
              ≡ (poll_recv_from_vectored net std_send_to true buffers (routed s)).0)
    sockets_agree buffer buffers h = (
      recv_from-agrees true buffer,
      recv_from_vec-agrees true buffer,
      poll_recv_from-agrees buffer,
      vectored-agrees buffers h,
    )
