-- ===== src/Platform/Linux/OriginalDst.antt =====
-- The original destination of a datagram: `recv_udp_original_dst` of src/platform/linux.rs and what it
-- calls. `recvmsg` and the walk over the control messages by the macros of libc are parameters: what
-- they leave is the address of the sender, as bytes, and the list of the control messages, each with
-- the bytes of the control buffer from its data on.
pub mod Laws
mod Tests
use sfo_reuseport.Prelude.{
  ℕ, ◌+◌, ◌*◌, ◌-◌, ◌==◌, ◌&&◌, Bool, true, false, List, [], ◌∷◌, ◌++◌, Option, none, some,
  get_elem?, length, take, drop, replicate, if◌then◌else◌,
}
use sfo_reuseport.Error.{IoError, ErrorKind, lit, num, text, Result, ok, err, ◌>>=◌}
use sfo_reuseport.Net.{IpAddr, v4, v6, SocketAddr}

-- The byte order of the machine.
pub data Endian : Type 0 where
  little big : Endian

-- A `u16` in the machine's order.
abbrev pub from_ne : Endian → ℕ → ℕ → ℕ
from_ne little b₀ b₁ = b₀ + b₁ * 256
from_ne big b₀ b₁ = b₀ * 256 + b₁

abbrev pub from_be : ℕ → ℕ → ℕ
from_be b₀ b₁ = b₀ * 256 + b₁

abbrev pub af_inet : ℕ
af_inet = 2

abbrev pub af_inet6 : ℕ
af_inet6 = 10

-- `sizeof` of `sockaddr_storage`, `sockaddr_in` and `sockaddr_in6`.
abbrev pub size_of_storage : ℕ
size_of_storage = 128

abbrev pub size_of_in : ℕ
size_of_in = 16

abbrev pub size_of_in6 : ℕ
size_of_in6 = 28

-- A byte of a `sockaddr_storage`, which has all of them.
abbrev byte_at : List ℕ → ℕ → ℕ
byte_at addr i = elim (get_elem? addr i) [ some b ↦ b | none ↦ 0 ]

-- The family and the port come first, then an IPv4 address, or the flow and an IPv6 address.
unfoldable pub sockaddr_storage_to_socket_addr : Endian → List ℕ → Result IoError SocketAddr
sockaddr_storage_to_socket_addr e addr =
    let family = from_ne e (byte_at addr 0) (byte_at addr 1) in
    let port = from_be (byte_at addr 2) (byte_at addr 3) in
    if family == af_inet
    then ok (record { ip = v4 (take 4 (drop 4 addr)); port = port })
    else if family == af_inet6
    then ok (record { ip = v6 (take 16 (drop 8 addr)); port = port })
    else err (record {
      kind = ErrorKind.invalid_data;
      message = lit "unsupported socket address family " ∷ num family ∷ [];
    })

pub record ControlMessage : Type 0 where
  pub cmsg_level : ℕ
  pub cmsg_type : ℕ
  pub from_data : List ℕ

abbrev pub sol_ip : ℕ
sol_ip = 0

abbrev pub ip_origdstaddr : ℕ
ip_origdstaddr = 20

abbrev pub sol_ipv6 : ℕ
sol_ipv6 = 41

abbrev pub ipv6_recvorigdstaddr : ℕ
ipv6_recvorigdstaddr = 74

-- How many bytes are copied, where the message tells a destination.
unfoldable pub copy_len : ControlMessage → Option ℕ
copy_len m =
    if m.cmsg_level == sol_ip && m.cmsg_type == ip_origdstaddr
    then some size_of_in
    else if m.cmsg_level == sol_ipv6 && m.cmsg_type == ipv6_recvorigdstaddr
    then some size_of_in6
    else none

-- `copy_nonoverlapping` to an address that is zero.
unfoldable pub copied : ℕ → List ℕ → List ℕ
copied n bytes = take n bytes ++ replicate (size_of_storage - n) 0

unfoldable pub original_destination_addr : List ControlMessage → Option (List ℕ)
unfolding copy_len copied
original_destination_addr [] = none
original_destination_addr (m ∷ ms) = elim (copy_len m) [
  | some n ↦ some (copied n m.from_data)
  | none ↦ original_destination_addr ms
]

-- What `recvmsg` leaves: the length, the sender, and the control messages.
pub record Message : Type 0 where
  pub len : ℕ
  pub source : List ℕ
  pub control : List ControlMessage

-- The destination is decoded before the sender.
unfoldable pub destination_of : Endian → Option (List ℕ) → SocketAddr → Result IoError SocketAddr
unfolding sockaddr_storage_to_socket_addr
destination_of e (some addr) fallback = sockaddr_storage_to_socket_addr e addr
destination_of e none fallback = ok fallback

unfoldable pub recv_udp_original_dst_raw :
    Endian → Result IoError Message → SocketAddr → Result IoError (ℕ × SocketAddr × SocketAddr)
unfolding destination_of original_destination_addr sockaddr_storage_to_socket_addr
recv_udp_original_dst_raw e received fallback_local_addr = do
  message ← received
  destination ← destination_of e (original_destination_addr message.control) fallback_local_addr
  source ← sockaddr_storage_to_socket_addr e message.source
  ok (message.len, source, destination)

abbrev pub original_dst_unsupported : IoError
original_dst_unsupported = record {
  kind = ErrorKind.unsupported;
  message =
      text "UDP original destination receive is unsupported by the selected platform or runtime";
}

-- A receive by `recvmsg`: the attempt that did not block, with the buffer after it, or `none` while
-- every attempt has blocked.
abbrev pub Attempt : Type 0
Attempt = Option (Result IoError Message × List ℕ)

abbrev attempted :
    Endian → SocketAddr → Attempt → Option (Result IoError (ℕ × SocketAddr × SocketAddr × List ℕ))
attempted e fallback_local_addr none = none
attempted e fallback_local_addr (some (received, buffer)) = some (do
  (len, peer_addr, local_addr) ← recv_udp_original_dst_raw e received fallback_local_addr
  ok (len, peer_addr, local_addr, buffer))

-- By whether the platform is Linux with tokio. `W` is the state of the socket.
unfoldable pub recv_udp_original_dst :
    {W : Type 0}
    → Bool
    → Endian
    → (List ℕ → W → Attempt × W)
    → List ℕ
    → SocketAddr
    → W
    → Option (Result IoError (ℕ × SocketAddr × SocketAddr × List ℕ)) × W
unfolding recv_udp_original_dst_raw
recv_udp_original_dst true e recvmsg buffer fallback_local_addr w =
    let (attempt, w') = recvmsg buffer w in (attempted e fallback_local_addr attempt, w')
recv_udp_original_dst false e recvmsg buffer fallback_local_addr w =
    (some (err original_dst_unsupported), w)
