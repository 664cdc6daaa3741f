-- ===== src/Udp/Routed.antt =====
-- `RoutedUdpSocket` of src/core/udp.rs: the socket that a worker's callback receives from, fed by the
-- dispatcher through a channel.
pub mod Laws
mod Tests
use sfo_reuseport.Prelude.{
  ℕ, ◌+◌, ◌-◌, min, leb, List, [], ◌∷◌, ◌++◌, Option, none, some, length, take, drop, if◌then◌else◌,
  Bool, true, false,
}
use sfo_reuseport.Error.{IoError, unexpected_eof, text, Result, ok, err}
use sfo_reuseport.Net.{SocketAddr}

pub record RoutedPacket : Type 0 where
  pub payload : List ℕ
  pub peer_addr : SocketAddr

-- The receiving end of a channel: what waits in it, and whether every sender is gone.
pub record Channel : Type 0 where
  pub queue : List RoutedPacket
  pub closed : Bool

abbrev pub routed_socket_closed : IoError
routed_socket_closed = record { kind = unexpected_eof; message = text "routed UDP socket closed" }

-- One poll: `none` is pending.
unfoldable pub poll_recv_packet : Channel → Channel × Option (Result IoError RoutedPacket)
poll_recv_packet c = elim c.queue [
  | packet ∷ rest ↦ (record c { queue = rest }, some (ok packet))
  | [] ↦ (c, if c.closed then some (err routed_socket_closed) else none)
]

-- `buffer[..len].copy_from_slice(&source[..len])`
abbrev pub copy_from_slice : ℕ → List ℕ → List ℕ → List ℕ
copy_from_slice len source buffer = take len source ++ drop len buffer

-- What a receive into one buffer returns of a packet, and the buffer after it: `recv_from_slice`,
-- `recv_from_vec` and `poll_recv_from_slice`.
unfoldable pub receive_into : RoutedPacket → List ℕ → ℕ × (SocketAddr × List ℕ)
receive_into packet buffer =
    let len = min (length packet.payload) (length buffer) in
    (len, (packet.peer_addr, copy_from_slice len packet.payload buffer))

-- The part of `scatter_datagram` from `offset` on.
unfoldable pub scatter_from : ℕ → List ℕ → List (List ℕ) → List (List ℕ)
scatter_from offset payload [] = []
scatter_from offset payload (buffer ∷ buffers) =
    let copy_len = min (length payload - offset) (length buffer) in
    let rest = scatter_from (offset + copy_len) payload buffers in
    if leb (length payload) offset
    then buffer ∷ buffers
    else copy_from_slice copy_len (drop offset payload) buffer ∷ rest

unfoldable pub scatter_datagram : List ℕ → List (List ℕ) → List (List ℕ)
unfolding scatter_from
scatter_datagram payload buffers = scatter_from 0 payload buffers

-- `poll_recv_from_vectored`, of a packet: the length that it returns is the packet's.
unfoldable pub receive_vectored : RoutedPacket → List (List ℕ) → ℕ × (SocketAddr × List (List ℕ))
unfolding scatter_datagram
receive_vectored packet buffers =
    (length packet.payload, (packet.peer_addr, scatter_datagram packet.payload buffers))
