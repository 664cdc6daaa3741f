-- ===== src/Platform/Linux/Probe.antt =====
-- The probe of src/platform/linux.rs, which tests that a kernel program hands each worker its
-- packets: the packet that it sends for a socket, the address that it sends to, and the wait for it.
pub mod Laws
mod Tests
use sfo_reuseport.Prelude.{
  ℕ, zero, suc, ◌/◌, ◌%◌, ◌==◌, ◌&&◌, ◌||◌, ltb, Bool, true, false, List, [], ◌∷◌, Option, none,
  some, if◌then◌else◌,
}
use sfo_reuseport.Error.{
  IoError, ErrorKind, would_block, invalid_data, invalid_input, timed_out, text, Result, ok, err,
  ◌>>◌,
}
use sfo_reuseport.Net.{IpAddr, v4, v6, SocketAddr, is_unspecified, v4_localhost, v6_localhost}

-- `expected_socket as u16` keeps the lower 16 bits.
unfoldable pub quic_reuseport_probe_packet : ℕ → List ℕ
quic_reuseport_probe_packet expected_socket =
    let worker_index = expected_socket % 65536 in
    let high = worker_index / 256 in
    let low = worker_index % 256 in 0xe0 ∷ 0 ∷ 0 ∷ 0 ∷ 1 ∷ 4 ∷ high ∷ low ∷ 0xa5 ∷ low ∷ []

abbrev localhost_of : IpAddr → IpAddr
localhost_of (v4 _) = v4_localhost
localhost_of (v6 _) = v6_localhost

unfoldable pub routable_probe_addr : SocketAddr → SocketAddr
unfolding is_unspecified
routable_probe_addr addr =
    if is_unspecified addr.ip then record { ip = localhost_of addr.ip; port = addr.port } else addr

abbrev pub same_bytes : List ℕ → List ℕ → Bool
same_bytes [] [] = true
same_bytes (x ∷ xs) (y ∷ ys) = x == y && same_bytes xs ys
same_bytes _ _ = false

abbrev unexpected_worker : IoError
unexpected_worker = record {
  kind = invalid_data;
  message = text "QUIC reuse-port selector probe routed to unexpected worker";
}

abbrev unexpected_packet : IoError
unexpected_packet = record {
  kind = invalid_data;
  message = text "QUIC reuse-port selector probe received unexpected packet";
}

abbrev not_in_time : IoError
not_in_time = record { kind = timed_out; message = text "QUIC reuse-port selector probe timed out" }

abbrev is_would_block : ErrorKind → Bool
is_would_block would_block = true
is_would_block _ = false

-- One pass over the sockets from `index` on, with what each one's `recv_from` answers; `none` is a
-- pass in which nothing has arrived.
unfoldable pub pass :
    ℕ → List ℕ → ℕ → List (Result IoError (List ℕ)) → Option (Result IoError (Unit {0}))
pass expected probe index [] = none
pass expected probe index (err e ∷ answers) =
    let rest = pass expected probe (suc index) answers in
    if is_would_block e.kind then rest else some (err e)
pass expected probe index (ok packet ∷ answers) =
    if same_bytes packet probe
    then (if index == expected then some (ok tt) else some (err unexpected_worker))
    else some (err unexpected_packet)

-- The passes until the deadline.
unfoldable pub quic_reuseport_selector_wait_for_probe :
    ℕ → List ℕ → List (List (Result IoError (List ℕ))) → Result IoError (Unit {0})
unfolding pass
quic_reuseport_selector_wait_for_probe expected probe [] = err not_in_time
quic_reuseport_selector_wait_for_probe expected probe (answers ∷ passes) =
    let later = quic_reuseport_selector_wait_for_probe expected probe passes in
    elim (pass expected probe 0 answers) [ none ↦ later | some outcome ↦ outcome ]

-- `recv_from` until it would block, on the answers before that.
unfoldable pub drain : List (Result IoError (List ℕ)) → Result IoError (Unit {0})
drain [] = ok tt
drain (ok _ ∷ answers) = drain answers
drain (err e ∷ answers) = if is_would_block e.kind then ok tt else err e

unfoldable pub quic_reuseport_selector_drain_probe_packets :
    List (List (Result IoError (List ℕ))) → Result IoError (Unit {0})
unfolding drain
quic_reuseport_selector_drain_probe_packets [] = ok tt
quic_reuseport_selector_drain_probe_packets (socket ∷ sockets) =
    drain socket >> quic_reuseport_selector_drain_probe_packets sockets

abbrev all_ok : List (Result IoError (Unit {0})) → Result IoError (Unit {0})
all_ok [] = ok tt
all_ok (r ∷ rs) = r >> all_ok rs

abbrev too_many_workers : IoError
too_many_workers = record {
  kind = invalid_input;
  message = text "worker count must fit the QUIC CID worker index prefix";
}

module _ (send_to : List ℕ → Result IoError (Unit {0}))
    (waits : ℕ → List (List (Result IoError (List ℕ)))) where
  -- The probes of `count` sockets from `expected_socket` on, each waited for before the next is sent.
  unfoldable pub probe_each : ℕ → ℕ → Result IoError (Unit {0})
  unfolding quic_reuseport_probe_packet quic_reuseport_selector_wait_for_probe
  probe_each expected_socket zero = ok tt
  probe_each expected_socket (suc count) =
      send_to (quic_reuseport_probe_packet expected_socket)
      >> quic_reuseport_selector_wait_for_probe expected_socket
          (quic_reuseport_probe_packet expected_socket) (waits expected_socket)
      >> probe_each (suc expected_socket) count

  -- `bound` is the answer to the bind of the sender, `nonblocking` those to `set_nonblocking` for each
  -- socket, `waits` what the passes for each probe receive, and `left` what is drained at the end.
  unfoldable pub quic_reuseport_selector_routes_probe :
      Result IoError (Unit {0})
      → List (Result IoError (Unit {0}))
      → List (List (Result IoError (List ℕ)))
      → ℕ
      → Result IoError (Unit {0})
  unfolding probe_each quic_reuseport_selector_drain_probe_packets
  quic_reuseport_selector_routes_probe bound nonblocking left sockets =
      bound
      >> (if sockets == 0 || ltb 65536 sockets then err too_many_workers else ok tt)
      >> all_ok nonblocking
      >> probe_each 0 sockets
      >> quic_reuseport_selector_drain_probe_packets left
