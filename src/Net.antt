-- ===== src/Net.antt =====
-- The addresses of `std::net` that the crate reads, and `PacketMeta` of src/core/udp.rs.
-- Octets are numbers below 256, four or sixteen of them. A `SocketAddr` here has no
-- flow and no scope, which an IPv6 address has and which the crate never reads: it stands for all the
-- addresses that differ in these alone.
use sfo_reuseport.Prelude.{
  ℕ, ◌<◌, ◌^◌, ◌≡◌, Bool, true, false, ◌&&◌, List, [], ◌∷◌, Option, none, some, ◌==◌, length, All,
}

pub data IpAddr : Type 0 where
  v4 : List ℕ → IpAddr
  v6 : List ℕ → IpAddr

pub record SocketAddr : Type 0 where
  pub ip : IpAddr
  pub port : ℕ

pub record PacketMeta : Type 0 where
  pub peer_addr : Option SocketAddr
  pub local_addr : Option SocketAddr

abbrev pub IsByte : ℕ → Type 0
IsByte b = b < 256

abbrev pub IpAddrIsValid : IpAddr → Type 0
IpAddrIsValid (v4 o) = (length o ≡ 4) × All IsByte o
IpAddrIsValid (v6 o) = (length o ≡ 16) × All IsByte o

abbrev pub SocketAddrIsValid : SocketAddr → Type 0
SocketAddrIsValid a = IpAddrIsValid a.ip × (a.port < 2 ^ 16)

abbrev pub OptionIsValid : Option SocketAddr → Type 0
OptionIsValid none = Unit
OptionIsValid (some a) = SocketAddrIsValid a

-- The addresses of the metadata are valid.
abbrev pub MetaIsValid : PacketMeta → Type 0
MetaIsValid m = OptionIsValid m.peer_addr × OptionIsValid m.local_addr

abbrev pub is_ipv4 : SocketAddr → Bool
is_ipv4 a = elim a.ip [ v4 _ ↦ true | v6 _ ↦ false ]

abbrev pub is_ipv6 : SocketAddr → Bool
is_ipv6 a = elim a.ip [ v4 _ ↦ false | v6 _ ↦ true ]

all_zero : List ℕ → Bool
all_zero [] = true
all_zero (b ∷ bs) = b == 0 && all_zero bs

-- `IpAddr::is_unspecified`: 0.0.0.0 or ::.
unfoldable pub is_unspecified : IpAddr → Bool
unfolding all_zero
is_unspecified (v4 o) = all_zero o
is_unspecified (v6 o) = all_zero o

abbrev pub v4_localhost : IpAddr
v4_localhost = v4 (127 ∷ 0 ∷ 0 ∷ 1 ∷ [])

abbrev pub v6_localhost : IpAddr
v6_localhost = v6 (0 ∷ 0 ∷ 0 ∷ 0 ∷ 0 ∷ 0 ∷ 0 ∷ 0 ∷ 0 ∷ 0 ∷ 0 ∷ 0 ∷ 0 ∷ 0 ∷ 0 ∷ 1 ∷ [])
