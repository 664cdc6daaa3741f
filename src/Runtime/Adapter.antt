-- ===== src/Runtime/Adapter.antt =====
-- The runtime that src/runtime/mod.rs chooses: by whether it is tokio.
use sfo_reuseport.Prelude.{ℕ, Bool, true, false, List}
use sfo_reuseport.Error.{IoError, Result}
use sfo_reuseport.Net.{SocketAddr}
use sfo_reuseport.Runtime.Net.AsyncStd
use sfo_reuseport.Runtime.Net.Tokio
use sfo_reuseport.Runtime.Net.{Poll, Received, NetSocket}

module _ {W : Type 0} (net : NetSocket W) where
  unfoldable pub udp_recv_from : Bool → List ℕ → W → Poll (Received (List ℕ)) × W
  unfolding Tokio.udp_recv_from AsyncStd.udp_recv_from
  udp_recv_from true buffer w = Tokio.udp_recv_from net buffer w
  udp_recv_from false buffer w = AsyncStd.udp_recv_from net buffer w

  unfoldable pub udp_recv_from_slice : Bool → List ℕ → W → Poll (Received (List ℕ)) × W
  unfolding Tokio.udp_recv_from_slice AsyncStd.udp_recv_from_slice
  udp_recv_from_slice true buffer w = Tokio.udp_recv_from_slice net buffer w
  udp_recv_from_slice false buffer w = AsyncStd.udp_recv_from_slice net buffer w

  unfoldable pub udp_send_to : Bool → List ℕ → SocketAddr → W → Poll ℕ × W
  unfolding Tokio.udp_send_to AsyncStd.udp_send_to
  udp_send_to true buffer target w = Tokio.udp_send_to net buffer target w
  udp_send_to false buffer target w = AsyncStd.udp_send_to net buffer target w

  unfoldable pub udp_try_send_to : Bool → List ℕ → SocketAddr → W → Result IoError ℕ × W
  unfolding Tokio.udp_try_send_to AsyncStd.udp_try_send_to
  udp_try_send_to true buffer target w = Tokio.udp_try_send_to net buffer target w
  udp_try_send_to false buffer target w = AsyncStd.udp_try_send_to buffer target w

  unfoldable pub udp_poll_send_ready : Bool → W → Poll (Unit {0}) × W
  unfolding Tokio.udp_poll_send_ready AsyncStd.udp_poll_send_ready
  udp_poll_send_ready true w = Tokio.udp_poll_send_ready net w
  udp_poll_send_ready false w = AsyncStd.udp_poll_send_ready w

  unfoldable pub udp_poll_recv_from_slice : Bool → List ℕ → W → Poll (Received (List ℕ)) × W
  unfolding Tokio.udp_poll_recv_from_slice AsyncStd.udp_poll_recv_from_slice
  udp_poll_recv_from_slice true buffer w = Tokio.udp_poll_recv_from_slice net buffer w
  udp_poll_recv_from_slice false buffer w = AsyncStd.udp_poll_recv_from_slice buffer w

  unfoldable pub udp_poll_recv_from_vectored :
      Bool → List (List ℕ) → W → Poll (Received (List (List ℕ))) × W
  unfolding Tokio.udp_poll_recv_from_vectored AsyncStd.udp_poll_recv_from_vectored
  udp_poll_recv_from_vectored true buffers w = Tokio.udp_poll_recv_from_vectored net buffers w
  udp_poll_recv_from_vectored false buffers w = AsyncStd.udp_poll_recv_from_vectored buffers w
