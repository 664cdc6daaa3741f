-- ===== src/Runtime/Net.antt =====
-- The UDP sockets of src/runtime/tokio.rs and src/runtime/async_std.rs. The sockets of the two runtimes
-- are a parameter: their operations on a state `W`. An operation that waits returns `none` while it is
-- pending; the buffers that it writes are returned.
pub mod AsyncStd
pub mod Tokio
use sfo_reuseport.Prelude.{
  ℕ, String, ◌+◌, ◌-◌, min, leb, Bool, true, false, List, [], ◌∷◌, ◌++◌, Option, none, some, length,
  take, drop, replicate, if◌then◌else◌,
}
use sfo_reuseport.Error.{IoError, ErrorKind, text, Result, ok, err}
use sfo_reuseport.Net.{SocketAddr}

abbrev pub Poll : Type 0 → Type 0
Poll A = Option (Result IoError A)

abbrev pub ready : {A : Type 0} → A → Poll A
ready a = some (ok a)

abbrev pub poll_map : {A B : Type 0} → (A → B) → Poll A → Poll B
poll_map f none = none
poll_map f (some (ok a)) = some (ok (f a))
poll_map f (some (err e)) = some (err e)

-- A length, the sender, and the buffer.
abbrev pub Received : Type 0 → Type 0
Received B = ℕ × SocketAddr × B

pub record NetSocket (W : Type 0) : Type 0 where
  pub recv_from : List ℕ → W → Poll (Received (List ℕ)) × W
  pub send_to : List ℕ → SocketAddr → W → Poll ℕ × W
  pub try_send_to : List ℕ → SocketAddr → W → Result IoError ℕ × W
  pub poll_send_ready : W → Poll (Unit {0}) × W
  -- The length is that of the filled part of the `ReadBuf`.
  pub poll_recv_from : List ℕ → W → Poll (Received (List ℕ)) × W
  pub local_addr : W → Result IoError SocketAddr
