-- ===== src/Platform/Binding/Script.antt =====
-- What binding a socket must do, as a script of calls that is written without regard to how the code
-- of src/platform/mod.rs is put together.
use sfo_reuseport.Prelude.{
  ℕ, ◌≡◌, Bool, true, false, List, [], ◌∷◌, ◌++◌, map, Option, none, some, ◌||◌, if◌then◌else◌,
}
use sfo_reuseport.Error.{
  Error, unsupported_platform_option, IoError, from_io, text, Result, ok, err,
}
use sfo_reuseport.Net.{SocketAddr, is_ipv4, is_ipv6}
use sfo_reuseport.Config.{TransparentMode, disabled, required, best_effort}
use sfo_reuseport.Config.Socket.{SocketConfig}
use sfo_reuseport.System.{
  SocketType, stream, dgram, Domain, Call, Event, event, socket, init_callback, set_reuse_address,
  set_ip_transparent_v4, set_ip_transparent_v6, set_nonblocking, setsockopt, ip_origdstaddr,
  ip_freebind, ipv6_recvorigdstaddr, ipv6_freebind, bind, listen, World,
}
use sfo_reuseport.System.Script.{Step, must, may, refuse, Matches, Fails}
use sfo_reuseport.Platform.Options.{Platform, linux, windows, is_required}

module _ {F J : Type 0} where
  -- The calls of a transparent mode: they must succeed, may fail or are not made; a required mode
  -- that does not fit the address is refused with the error.
  unfoldable pub mode_steps : TransparentMode → Bool → Error → List (Call F J) → List (Step F J)
  mode_steps disabled fits e calls = []
  mode_steps best_effort false e calls = []
  mode_steps best_effort true e calls = map may calls
  mode_steps required false e calls = refuse e ∷ []
  mode_steps required true e calls = map must calls

  unfoldable pub transparent_steps : Platform → SocketConfig F → ℕ → List (Step F J)
  unfolding mode_steps
  transparent_steps linux c fd =
      mode_steps c.socket_options.ipv4_transparent (is_ipv4 c.bind_addr)
        (unsupported_platform_option (text "ipv4 transparent requires an IPv4 bind address"))
        (set_ip_transparent_v4 fd true
          ∷ setsockopt fd ip_origdstaddr 1
          ∷ setsockopt fd ip_freebind 1
          ∷ [])
      ++ mode_steps c.socket_options.ipv6_transparent (is_ipv6 c.bind_addr)
          (unsupported_platform_option (text "ipv6 transparent requires an IPv6 bind address"))
          (set_ip_transparent_v6 fd true
            ∷ setsockopt fd ipv6_recvorigdstaddr 1
            ∷ setsockopt fd ipv6_freebind 1
            ∷ [])
  transparent_steps _ c fd =
      if is_required c.socket_options.ipv4_transparent
        || is_required c.socket_options.ipv6_transparent
      then refuse (
          unsupported_platform_option
            (text "transparent sockets are only supported on Linux targets"))
        ∷ []
      else []

  unfoldable pub reuse_steps : Platform → ℕ → List (Step F J)
  reuse_steps windows fd = []
  reuse_steps _ fd = must (Call.set_reuse_port fd true) ∷ []

  unfoldable pub callback_steps : Option F → ℕ → List (Step F J)
  callback_steps none fd = []
  callback_steps (some callback) fd = must (init_callback callback fd) ∷ []

  unfoldable pub start_steps : SocketType → SocketAddr → ℕ → List (Step F J)
  start_steps stream addr fd =
      must (bind fd addr) ∷ must (listen fd 1024) ∷ must (set_nonblocking fd true) ∷ []
  start_steps dgram addr fd = must (bind fd addr) ∷ must (set_nonblocking fd true) ∷ []

  -- The options come before the address, and the address before the rest.
  unfoldable pub bind_steps : SocketType → Platform → SocketConfig F → ℕ → List (Step F J)
  unfolding callback_steps reuse_steps transparent_steps start_steps
  bind_steps k p c fd =
      callback_steps c.socket_init_callback fd
      ++ (((must (set_reuse_address fd c.socket_options.reuse_address) ∷ reuse_steps p fd)
            ++ transparent_steps p c fd)
          ++ start_steps k c.bind_addr fd)

  -- How opening a socket ends: it is not created; it follows its script to the end, and is returned;
  -- or it fails at a step of the script, with that step's error.
  pub data Opening (d : Domain) (k : SocketType) (script : ℕ → List (Step F J))
      : List (Event F J) → Result Error ℕ → Type 0 where
    not_created :
        (e : IoError) → Opening d k script (event (socket d k) (err e) ∷ []) (err (from_io e))
    opened :
        (fd : ℕ) {es : List (Event F J)}
        → Matches (script fd) es
        → Opening d k script (event (socket d k) (ok fd) ∷ es) (ok fd)
    failed :
        (fd : ℕ) {es : List (Event F J)} {e : Error}
        → Fails (script fd) es e
        → Opening d k script (event (socket d k) (ok fd) ∷ es) (err e)

-- From a world to a result, the calls made since are those of an opening.
pub record Opens {F J S : Type 0} (d : Domain) (k : SocketType) (script : ℕ → List (Step F J))
    (w : World F J S) (r : Result Error ℕ × World F J S) : Type 0 where
  pub calls : List (Event F J)
  pub are_logged : r.1.log ≡ w.log ++ calls
  pub opening : Opening d k script calls r.0
  pub same_state : r.1.state ≡ w.state
