-- ===== src/Runtime/Net/AsyncStd.antt =====
-- The UDP sockets of src/runtime/async_std.rs, which can neither send nor receive without waiting.
use sfo_reuseport.Prelude.{ℕ, String, List, some}
use sfo_reuseport.Error.{IoError, ErrorKind, text, Result, err}
use sfo_reuseport.Net.{SocketAddr}
use sfo_reuseport.Runtime.Net.{Poll, ready, Received, NetSocket}

abbrev not_exposed : String → IoError
not_exposed what = record { kind = ErrorKind.unsupported; message = text what }

module _ {W : Type 0} (net : NetSocket W) where
  unfoldable pub udp_recv_from : List ℕ → W → Poll (Received (List ℕ)) × W
  udp_recv_from buffer w = net.recv_from buffer w

  unfoldable pub udp_recv_from_slice : List ℕ → W → Poll (Received (List ℕ)) × W
  udp_recv_from_slice buffer w = net.recv_from buffer w

  unfoldable pub udp_send_to : List ℕ → SocketAddr → W → Poll ℕ × W
  udp_send_to buffer target w = net.send_to buffer target w

unfoldable pub udp_try_send_to : {W : Type 0} → List ℕ → SocketAddr → W → Result IoError ℕ × W
udp_try_send_to buffer target w =
    (err (not_exposed "async-std UDP socket does not expose nonblocking send readiness"), w)

unfoldable pub udp_poll_send_ready : {W : Type 0} → W → Poll (Unit {0}) × W
udp_poll_send_ready w = (ready tt, w)

unfoldable pub udp_poll_recv_from_slice : {W : Type 0} → List ℕ → W → Poll (Received (List ℕ)) × W
udp_poll_recv_from_slice buffer w =
    (some (err (not_exposed "async-std UDP socket does not expose poll-based recv readiness")), w)

unfoldable pub udp_poll_recv_from_vectored :
    {W : Type 0} → List (List ℕ) → W → Poll (Received (List (List ℕ))) × W
udp_poll_recv_from_vectored buffers w =
    (some (err (not_exposed "async-std UDP socket does not expose poll-based recv readiness")), w)
