-- ===== src/Platform/Linux/OriginalDst/Tests.antt =====
-- Control messages and addresses as Linux lays them out.
use sfo_reuseport.Prelude.{ℕ, ◌≡◌, refl, List, [], ◌∷◌, ◌++◌, replicate, arith}
use sfo_reuseport.Error.{ok, err, ErrorKind, lit, num}
use sfo_reuseport.Net.{v4, SocketAddr, v6_localhost}
use sfo_reuseport.Platform.Linux.OriginalDst.{
  little, big, sockaddr_storage_to_socket_addr, ControlMessage, recv_udp_original_dst_raw, copy_len,
}
use sfo_reuseport.Platform.Linux.OriginalDst.Laws.{sockaddr, original, recv-original}

abbrev peer : SocketAddr
peer = record { ip = v4 (10 ∷ 0 ∷ 0 ∷ 1 ∷ []); port = 5000 }

abbrev local : SocketAddr
local = record { ip = v6_localhost; port = 443 }

abbrev any_addr : SocketAddr
any_addr = record { ip = v4 (0 ∷ 0 ∷ 0 ∷ 0 ∷ []); port = 443 }

-- A time to live.
abbrev other_message : ControlMessage
other_message = record { cmsg_level = 0; cmsg_type = 2; from_data = 64 ∷ 0 ∷ 0 ∷ 0 ∷ [] }

abbrev zeros : List ℕ
zeros = 0 ∷ 0 ∷ 0 ∷ 0 ∷ []

unix_family :
    sockaddr_storage_to_socket_addr little (1 ∷ 0 ∷ [])
    ≡ err (record {
      kind = ErrorKind.invalid_data;
      message = lit "unsupported socket address family " ∷ num 1 ∷ [];
    })
unfolding sockaddr_storage_to_socket_addr
unix_family = refl

recv-original_example :
    (recv_udp_original_dst_raw big
        (ok (record {
          len = 9;
          source = sockaddr big zeros zeros peer ++ replicate 112 0;
          control = other_message ∷ original zeros zeros refl refl big local [] ∷ [];
        }))
        any_addr
      ≡ ok (9, peer, local))
    × (recv_udp_original_dst_raw big
          (ok (record {
            len = 9;
            source = sockaddr big zeros zeros peer ++ replicate 112 0;
            control = other_message ∷ [];
          }))
          any_addr
        ≡ ok (9, peer, any_addr))
unfolding copy_len
recv-original_example =
    recv-original big zeros zeros refl refl 9 (replicate 112 0) [] (other_message ∷ []) [] peer
      local any_addr (omega arith) (omega arith) (refl, tt)
