-- ===== src/Udp/Socket.antt =====
-- `UdpSocket` of src/core/udp.rs, which handlers and callbacks use: a socket of the runtime, or one that
-- the dispatcher feeds. An operation that waits returns `none` while it is pending.
pub mod Destination
pub mod Laws
mod Tests
use sfo_reuseport.Prelude.{ℕ, ◌&&◌, Bool, true, false, List, [], ◌∷◌, Option, none, some}
use sfo_reuseport.Error.{Error, IoError, from_io, Result, ok, err, map_err}
use sfo_reuseport.Net.{SocketAddr}
use sfo_reuseport.Platform.Linux.OriginalDst.{Endian, Attempt, recv_udp_original_dst}
use sfo_reuseport.Runtime.Adapter.{
  udp_recv_from, udp_recv_from_slice, udp_send_to, udp_try_send_to, udp_poll_send_ready,
  udp_poll_recv_from_slice, udp_poll_recv_from_vectored,
}
use sfo_reuseport.Runtime.Net.{Poll, ready, poll_map, Received, NetSocket}
use sfo_reuseport.Udp.Routed.{
  RoutedPacket, Channel, poll_recv_packet, receive_into, receive_vectored,
}

-- The sender is a socket of the standard library, whose `send_to` is a parameter of what uses it.
pub record RoutedUdpSocket : Type 0 where
  pub receiver : Channel
  pub local_addr : SocketAddr

-- With the state of the socket of the runtime, or of the channel.
pub data UdpSocket (W : Type 0) : Type 0 where
  runtime : W → UdpSocket W
  routed : RoutedUdpSocket → UdpSocket W

-- `.map_err(Error::from)` of what was awaited.
abbrev pub await : {A : Type 0} → Poll A → Option (Result Error A)
await none = none
await (some r) = some (map_err from_io r)

-- What a receive of a routed socket makes of the packet that its channel gives it.
unfoldable pub receive :
    {B : Type 0}
    → (RoutedPacket → Received B)
    → RoutedUdpSocket
    → Poll (Received B) × RoutedUdpSocket
unfolding poll_recv_packet
receive into s =
    let (receiver, packet) = poll_recv_packet s.receiver in
    (poll_map into packet, record s { receiver = receiver })

-- `RoutedUdpSocket::recv_from_slice`, `recv_from_vec` and `poll_recv_from_slice`.
unfoldable pub routed_recv_from :
    List ℕ → RoutedUdpSocket → Poll (Received (List ℕ)) × RoutedUdpSocket
unfolding receive receive_into
routed_recv_from buffer s =
    receive (λ packet. let (len, rest) = receive_into packet buffer in (len, rest.0, rest.1)) s

unfoldable pub routed_recv_from_vectored :
    List (List ℕ) → RoutedUdpSocket → Poll (Received (List (List ℕ))) × RoutedUdpSocket
unfolding receive receive_vectored
routed_recv_from_vectored buffers s =
    receive (λ packet. let (len, rest) = receive_vectored packet buffers in (len, rest.0, rest.1)) s

module _ {W : Type 0} where
  -- The socket again, of what an operation leaves of its state.
  abbrev as_runtime : {A : Type 0} → A × W → A × UdpSocket W
  as_runtime (a, w) = (a, runtime w)

  abbrev as_routed : {A : Type 0} → A × RoutedUdpSocket → A × UdpSocket W
  as_routed (a, s) = (a, routed s)

  abbrev awaited : {A : Type 0} → Poll A × UdpSocket W → Option (Result Error A) × UdpSocket W
  awaited (p, s) = (await p, s)

  module _ (net : NetSocket W) (std_send_to : List ℕ → SocketAddr → Result IoError ℕ)
      (tokio : Bool) where
    unfoldable pub recv_from :
        List ℕ → UdpSocket W → Option (Result Error (Received (List ℕ))) × UdpSocket W
    unfolding routed_recv_from udp_recv_from_slice
    recv_from buffer (runtime w) = awaited (as_runtime (udp_recv_from_slice net tokio buffer w))
    recv_from buffer (routed s) = awaited (as_routed (routed_recv_from buffer s))

    unfoldable pub send_to :
        List ℕ → SocketAddr → UdpSocket W → Option (Result Error ℕ) × UdpSocket W
    unfolding udp_send_to
    send_to buffer target (runtime w) = awaited (as_runtime (udp_send_to net tokio buffer target w))
    send_to buffer target (routed s) =
        (some (map_err from_io (std_send_to buffer target)), routed s)

    unfoldable pub local_addr : UdpSocket W → Result Error SocketAddr
    local_addr (runtime w) = map_err from_io (net.local_addr w)
    local_addr (routed s) = ok s.local_addr

    unfoldable pub try_send_to : List ℕ → SocketAddr → UdpSocket W → Result IoError ℕ × UdpSocket W
    unfolding udp_try_send_to
    try_send_to buffer target (runtime w) = as_runtime (udp_try_send_to net tokio buffer target w)
    try_send_to buffer target (routed s) = (std_send_to buffer target, routed s)

    unfoldable pub poll_send_ready : UdpSocket W → Poll (Unit {0}) × UdpSocket W
    unfolding udp_poll_send_ready
    poll_send_ready (runtime w) = as_runtime (udp_poll_send_ready net tokio w)
    poll_send_ready (routed s) = (ready tt, routed s)

    unfoldable pub poll_recv_from : List ℕ → UdpSocket W → Poll (Received (List ℕ)) × UdpSocket W
    unfolding udp_poll_recv_from_slice routed_recv_from
    poll_recv_from buffer (runtime w) = as_runtime (udp_poll_recv_from_slice net tokio buffer w)
    poll_recv_from buffer (routed s) = as_routed (routed_recv_from buffer s)

    unfoldable pub poll_recv_from_vectored :
        List (List ℕ) → UdpSocket W → Poll (Received (List (List ℕ))) × UdpSocket W
    unfolding udp_poll_recv_from_vectored routed_recv_from_vectored
    poll_recv_from_vectored buffers (runtime w) =
        as_runtime (udp_poll_recv_from_vectored net tokio buffers w)
    poll_recv_from_vectored buffers (routed s) = as_routed (routed_recv_from_vectored buffers s)

    unfoldable pub recv_from_vec :
        List ℕ → UdpSocket W → Option (Result Error (Received (List ℕ))) × UdpSocket W
    unfolding routed_recv_from udp_recv_from
    recv_from_vec buffer (runtime w) = awaited (as_runtime (udp_recv_from net tokio buffer w))
    recv_from_vec buffer (routed s) = awaited (as_routed (routed_recv_from buffer s))

    abbrev pub WithLocal : Type 0
    WithLocal = ℕ × SocketAddr × SocketAddr × List ℕ

    -- `let local_addr = self.local_addr()?; Ok((len, peer_addr, local_addr, buffer))`
    abbrev with_local :
        Result Error SocketAddr → Result Error (Received (List ℕ)) → Result Error WithLocal
    with_local local (err e) = err e
    with_local (err e) (ok r) = err e
    with_local (ok local_addr) (ok (len, peer_addr, buffer)) =
        ok (len, peer_addr, local_addr, buffer)

    abbrev plainly :
        Option (Result Error (Received (List ℕ))) × UdpSocket W
        → Option (Result Error WithLocal) × UdpSocket W
    plainly (none, s) = (none, s)
    plainly (some r, s) = (some (with_local (local_addr s) r), s)

    module _ (linux : Bool) (e : Endian) (recvmsg : List ℕ → W → Attempt × W) where
      -- The address that the socket is bound to is asked for before the receive.
      abbrev transparently :
          List ℕ → W → Result Error SocketAddr → Option (Result Error WithLocal) × UdpSocket W
      transparently buffer w (err error) = (some (err error), runtime w)
      transparently buffer w (ok fallback_local_addr) = awaited (
          as_runtime
            (recv_udp_original_dst (linux && tokio) e recvmsg buffer fallback_local_addr w))

      unfoldable pub recv_packet_with_local_addr :
          List ℕ → Bool → UdpSocket W → Option (Result Error WithLocal) × UdpSocket W
      unfolding recv_from_vec local_addr recv_udp_original_dst
      recv_packet_with_local_addr buffer true (runtime w) =
          transparently buffer w (local_addr (runtime w))
      recv_packet_with_local_addr buffer false (runtime w) =
          plainly (recv_from_vec buffer (runtime w))
      recv_packet_with_local_addr buffer _ (routed s) = plainly (recv_from_vec buffer (routed s))
