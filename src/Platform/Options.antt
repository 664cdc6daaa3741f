-- ===== src/Platform/Options.antt =====
-- The options of a socket: `set_reuse_port` and `apply_transparent` of src/platform/linux.rs,
-- src/platform/bsd.rs and src/platform/windows.rs, with src/platform/unix.rs, and the capabilities of
-- a platform.
use sfo_reuseport.Prelude.{Bool, true, false, ◌||◌, ℕ, if◌then◌else◌}
use sfo_reuseport.Error.{unsupported_platform_option, text}
use sfo_reuseport.Net.{is_ipv4, is_ipv6}
use sfo_reuseport.Config.{TransparentMode, disabled, required, best_effort, SocketOptions}
use sfo_reuseport.Config.Socket.{SocketConfig}
use sfo_reuseport.System.{
  Call, set_ip_transparent_v4, set_ip_transparent_v6, SocketOption, ip_origdstaddr, ip_freebind,
  ipv6_recvorigdstaddr, ipv6_freebind, setsockopt, Oracle, Action, pure, raise, ask, attempt, ◌>>◌,
}

-- Which of the files is compiled in. Android has linux.rs too, but its own answers to a few tests.
pub data Platform : Type 0 where
  linux bsd windows : Platform

pub record PlatformCapabilities : Type 0 where
  pub reuse_port_balancing : Bool
  pub quic_reuseport_bpf : Bool

unfoldable pub supports_reuse_port_balancing : Platform → Bool
supports_reuse_port_balancing linux = true
supports_reuse_port_balancing bsd = true
supports_reuse_port_balancing windows = false

unfoldable pub supports_quic_reuseport_bpf : Platform → Bool
supports_quic_reuseport_bpf linux = true
supports_quic_reuseport_bpf bsd = false
supports_quic_reuseport_bpf windows = false

unfoldable pub capabilities : Platform → PlatformCapabilities
unfolding supports_reuse_port_balancing supports_quic_reuseport_bpf
capabilities p = record {
  reuse_port_balancing = supports_reuse_port_balancing p;
  quic_reuseport_bpf = supports_quic_reuseport_bpf p;
}

-- `matches!(mode, TransparentMode::Required)`
abbrev pub is_required : TransparentMode → Bool
is_required required = true
is_required _ = false

module _ {F J S : Type 0} (system : Oracle F J) where
  -- `imp::set_reuse_port`.
  unfoldable pub set_reuse_port : Platform → ℕ → Action F J S (Unit {0})
  set_reuse_port linux fd = ask system (Call.set_reuse_port fd true)
  set_reuse_port bsd fd = ask system (Call.set_reuse_port fd true)
  set_reuse_port windows fd = pure tt

  -- `set_socket_opt_int` with the value 1, whose error the caller converts.
  abbrev require_option : ℕ → SocketOption → Action F J S (Unit {0})
  require_option fd option = ask system (setsockopt fd option 1)

  abbrev try_option : ℕ → SocketOption → Action F J S (Unit {0})
  try_option fd option = attempt system (setsockopt fd option 1)

  -- By the mode, and whether the address is of the family.
  unfoldable pub apply_ipv4_transparent : TransparentMode → Bool → ℕ → Action F J S (Unit {0})
  apply_ipv4_transparent disabled is_v4 fd = pure tt
  apply_ipv4_transparent best_effort false fd = pure tt
  apply_ipv4_transparent required false fd =
      raise (unsupported_platform_option (text "ipv4 transparent requires an IPv4 bind address"))
  apply_ipv4_transparent best_effort true fd =
      attempt system (set_ip_transparent_v4 fd true)
      >> try_option fd ip_origdstaddr
      >> try_option fd ip_freebind
  apply_ipv4_transparent required true fd =
      ask system (set_ip_transparent_v4 fd true)
      >> require_option fd ip_origdstaddr
      >> require_option fd ip_freebind

  unfoldable pub apply_ipv6_transparent : TransparentMode → Bool → ℕ → Action F J S (Unit {0})
  apply_ipv6_transparent disabled is_v6 fd = pure tt
  apply_ipv6_transparent best_effort false fd = pure tt
  apply_ipv6_transparent required false fd =
      raise (unsupported_platform_option (text "ipv6 transparent requires an IPv6 bind address"))
  apply_ipv6_transparent best_effort true fd =
      attempt system (set_ip_transparent_v6 fd true)
      >> try_option fd ipv6_recvorigdstaddr
      >> try_option fd ipv6_freebind
  apply_ipv6_transparent required true fd =
      ask system (set_ip_transparent_v6 fd true)
      >> require_option fd ipv6_recvorigdstaddr
      >> require_option fd ipv6_freebind

  -- Elsewhere a required mode is refused, and no call is made.
  unfoldable pub refuse_transparent : SocketOptions → Action F J S (Unit {0})
  refuse_transparent o =
      if is_required o.ipv4_transparent || is_required o.ipv6_transparent
      then raise (
          unsupported_platform_option
            (text "transparent sockets are only supported on Linux targets"))
      else pure tt

  -- `imp::apply_transparent`.
  unfoldable pub apply_transparent : Platform → SocketConfig F → ℕ → Action F J S (Unit {0})
  unfolding apply_ipv4_transparent apply_ipv6_transparent refuse_transparent
  apply_transparent linux c fd =
      apply_ipv4_transparent c.socket_options.ipv4_transparent (is_ipv4 c.bind_addr) fd
      >> apply_ipv6_transparent c.socket_options.ipv6_transparent (is_ipv6 c.bind_addr) fd
  apply_transparent bsd c fd = refuse_transparent c.socket_options
  apply_transparent windows c fd = refuse_transparent c.socket_options
