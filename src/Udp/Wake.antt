-- ===== src/Udp/Wake.antt =====
-- `wake_udp_socket` of src/core/udp.rs: the datagram of one zero byte that wakes a blocked receive.
use sfo_reuseport.Prelude.{ℕ, ◌≡◌, refl, Bool, true, false, Option, none, some, if◌then◌else◌}
use sfo_reuseport.Error.{IoError, Result, ok, err}
use sfo_reuseport.Net.{IpAddr, v4, v6, SocketAddr, is_unspecified, v4_localhost, v6_localhost}
use sfo_reuseport.Platform.Linux.Probe.{routable_probe_addr}

-- Where to: this host, for a socket bound to every address, else the socket's own address.
target_of : IpAddr → ℕ → IpAddr
unfolding is_unspecified
target_of (v4 o) port = if is_unspecified (v4 o) then v4_localhost else v4 o
target_of (v6 o) port = if is_unspecified (v6 o) then v6_localhost else v6 o

abbrev bind_addr_of : IpAddr → SocketAddr
bind_addr_of (v4 o) = record { ip = v4_localhost; port = 0 }
bind_addr_of (v6 o) = record { ip = v6_localhost; port = 0 }

-- The address that the sender binds and the one that it sends to, if the socket has an address.
pub wake_udp_socket : Result IoError SocketAddr → Option (SocketAddr × SocketAddr)
unfolding target_of
wake_udp_socket (err _) = none
wake_udp_socket (ok local_addr) =
    let target = target_of local_addr.ip local_addr.port in
    some (bind_addr_of target, record { ip = target; port = local_addr.port })

module _ (port : ℕ) where
  target-probe :
      (ip : IpAddr) (b : Bool)
      → is_unspecified ip ≡ b
      → (target_of ip port ≡ (routable_probe_addr (record { ip = ip; port = port })).ip)
        × (is_unspecified (target_of ip port) ≡ false)
  unfolding target_of routable_probe_addr
  target-probe (v4 o) true e = rw e (refl, refl)
  target-probe (v6 o) true e = rw e (refl, refl)
  target-probe (v4 o) false e = rw e (refl, e)
  target-probe (v6 o) false e = rw e (refl, e)

-- The wake-up of a socket that has an address goes to the address that the probe of the kernel
-- programs would use for it, on the socket's port, and never to an unspecified address.
pub wake-routable :
    (addr : SocketAddr)
    → (bind : SocketAddr) × (target : SocketAddr) × (wake_udp_socket (ok addr)
        ≡ some (bind, target))
      × (target.ip ≡ (routable_probe_addr addr).ip)
      × (target.port ≡ addr.port)
      × (is_unspecified target.ip ≡ false)
unfolding wake_udp_socket
wake-routable addr =
    let (same, routable) = target-probe addr.port addr.ip (is_unspecified addr.ip) refl in
    (_, _, refl, same, refl, routable)
