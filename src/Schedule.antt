-- ===== src/Schedule.antt =====
-- src/core/schedule.rs: the worker that a datagram or connection is given to, by the FNV-1a hash of
-- its addresses. `usize` has 64 bits, so `hash as usize` keeps the hash.
pub mod Laws
pub mod Tests
pub mod Bytes
use sfo_reuseport.Prelude.{
  ℕ, ◌*◌, ◌/◌, ◌%◌, ◌^◌, ◌==◌, bit_xor, List, [], ◌∷◌, Option, none, some, if◌then◌else◌,
}
use sfo_reuseport.Error.{Error, invalid_config, text, Result, ok, err}
use sfo_reuseport.Net.{IpAddr, v4, v6, SocketAddr, PacketMeta}

abbrev pub fnv_offset : ℕ
fnv_offset = 0xcbf29ce484222325

abbrev pub fnv_prime : ℕ
fnv_prime = 0x100000001b3

-- The functions of the source change `hash` in place; these return it.
unfoldable pub write_u8 : ℕ → ℕ → ℕ
write_u8 hash value = bit_xor hash value * fnv_prime % 2 ^ 64

unfoldable pub write_bytes : ℕ → List ℕ → ℕ
write_bytes hash [] = hash
write_bytes hash (byte ∷ bytes) = write_bytes (write_u8 hash byte) bytes

-- `to_be_bytes` of a u16.
unfoldable pub write_u16 : ℕ → ℕ → ℕ
write_u16 hash value = write_bytes hash (value / 256 ∷ value % 256 ∷ [])

unfoldable pub hash_ip : ℕ → IpAddr → ℕ
hash_ip hash (v4 octets) = write_bytes (write_u8 hash 4) octets
hash_ip hash (v6 octets) = write_bytes (write_u8 hash 6) octets

unfoldable pub hash_socket_addr : ℕ → Option SocketAddr → ℕ
unfolding hash_ip
hash_socket_addr hash none = write_u8 hash 0
hash_socket_addr hash (some addr) = write_u16 (hash_ip hash addr.ip) addr.port

unfoldable pub linux_reuseport_select : PacketMeta → ℕ → Result Error ℕ
unfolding hash_socket_addr
linux_reuseport_select meta workers =
    if workers == 0
    then err (invalid_config (text "worker count must be greater than zero"))
    else ok
        (hash_socket_addr (hash_socket_addr fnv_offset meta.peer_addr) meta.local_addr % workers)
