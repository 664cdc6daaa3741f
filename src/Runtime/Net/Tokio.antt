-- ===== src/Runtime/Net/Tokio.antt =====
-- The UDP sockets of src/runtime/tokio.rs.
use sfo_reuseport.Prelude.{
  ℕ, ◌+◌, ◌-◌, min, leb, List, [], ◌∷◌, ◌++◌, length, take, drop, replicate, if◌then◌else◌,
}
use sfo_reuseport.Error.{IoError, Result}
use sfo_reuseport.Net.{SocketAddr}
use sfo_reuseport.Runtime.Net.{Poll, poll_map, Received, NetSocket}

-- `buffer[..len].copy_from_slice(&source[..len])`
abbrev copy_from_slice : ℕ → List ℕ → List ℕ → List ℕ
copy_from_slice len source buffer = take len source ++ drop len buffer

-- tokio.rs has a `scatter_datagram` of its own. The part from `offset` on.
unfoldable pub scatter_from : ℕ → List ℕ → List (List ℕ) → List (List ℕ)
scatter_from offset payload [] = []
scatter_from offset payload (buffer ∷ buffers) =
    let copy_len = min (length payload - offset) (length buffer) in
    let rest = scatter_from (offset + copy_len) payload buffers in
    if leb (length payload) offset
    then buffer ∷ buffers
    else copy_from_slice copy_len (drop offset payload) buffer ∷ rest

unfoldable pub scatter_datagram : List ℕ → List (List ℕ) → List (List ℕ)
unfolding scatter_from
scatter_datagram payload buffers = scatter_from 0 payload buffers

unfoldable pub largest_datagram : List ℕ
largest_datagram = replicate 65536 0

module _ {W : Type 0} (net : NetSocket W) where
  unfoldable pub udp_recv_from : List ℕ → W → Poll (Received (List ℕ)) × W
  udp_recv_from buffer w = net.recv_from buffer w

  unfoldable pub udp_recv_from_slice : List ℕ → W → Poll (Received (List ℕ)) × W
  udp_recv_from_slice buffer w = net.recv_from buffer w

  unfoldable pub udp_send_to : List ℕ → SocketAddr → W → Poll ℕ × W
  udp_send_to buffer target w = net.send_to buffer target w

  unfoldable pub udp_try_send_to : List ℕ → SocketAddr → W → Result IoError ℕ × W
  udp_try_send_to buffer target w = net.try_send_to buffer target w

  unfoldable pub udp_poll_send_ready : W → Poll (Unit {0}) × W
  udp_poll_send_ready w = net.poll_send_ready w

  unfoldable pub udp_poll_recv_from_slice : List ℕ → W → Poll (Received (List ℕ)) × W
  udp_poll_recv_from_slice buffer w = net.poll_recv_from buffer w

  -- The datagram is received into a buffer of its own, and scattered from there.
  unfoldable pub udp_poll_recv_from_vectored :
      List (List ℕ) → W → Poll (Received (List (List ℕ))) × W
  unfolding udp_poll_recv_from_slice scatter_datagram
  udp_poll_recv_from_vectored buffers w =
      let (received, w') = udp_poll_recv_from_slice largest_datagram w in
      (poll_map (λ r. (r.0, r.1, scatter_datagram (take r.0 r.2) buffers)) received, w')
