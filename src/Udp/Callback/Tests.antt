-- ===== src/Udp/Callback/Tests.antt =====
-- Two packets routed by their first byte, and the theorem there.
use sfo_reuseport.Prelude.{ℕ, true, List, [], ◌∷◌, Option, none, some, replicate}
use sfo_reuseport.Error.{ok}
use sfo_reuseport.Net.{SocketAddr, PacketMeta, v4_localhost}
use sfo_reuseport.Dispatch.{state_of}
use sfo_reuseport.Udp.Callback.{
  CallbackRound, Received, dispatch_socket_only_packets, AllRouted, dispatch-AllRouted,
}

abbrev route_packet : List ℕ → PacketMeta → ℕ → Option ℕ
route_packet [] m n = none
route_packet (x ∷ xs) m n = some x

abbrev addr : SocketAddr
addr = record { ip = v4_localhost; port = 5000 }

abbrev sends : ℕ → CallbackRound
sends byte = record {
  at_head = true;
  received =
      ok (record { len = 2; peer_addr = addr; local_addr = addr; buffer = byte ∷ 0 ∷ 0 ∷ [] });
  after_error = true;
  open_ = true;
}

abbrev rounds : List CallbackRound
rounds = sends 1 ∷ sends 0 ∷ []

dispatch-AllRouted_example :
    AllRouted route_packet addr 2 true
      (Received rounds)
      (state_of (dispatch_socket_only_packets route_packet addr 2 true rounds (replicate 2 [])))
dispatch-AllRouted_example = dispatch-AllRouted route_packet addr 2 true rounds
