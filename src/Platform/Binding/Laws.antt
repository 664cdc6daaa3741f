-- ===== src/Platform/Binding/Laws.antt =====
-- The binding of a socket follows its script: src/platform/mod.rs with the options of a platform.
use mathlib.Core.List.{append_assoc}
use mathlib.Core.Path.{subst}
use sfo_reuseport.Prelude.{
  ℕ, ◌≡◌, refl, sym, ◌∙◌, Bool, true, false, List, [], ◌∷◌, ◌++◌, if◌then◌else◌, Option, none, some,
}
use sfo_reuseport.Error.{
  Error, unsupported_platform_option, IoError, from_io, text, Result, ok, err, map_err,
}
use sfo_reuseport.Net.{is_ipv4, is_ipv6}
use sfo_reuseport.Config.{TransparentMode, disabled, required, best_effort}
use sfo_reuseport.Config.Socket.{SocketConfig}
use sfo_reuseport.System.{
  SocketType, stream, dgram, Domain, Call, Event, event, socket, init_callback, set_reuse_address,
  set_ip_transparent_v4, set_ip_transparent_v6, set_nonblocking, setsockopt, ip_origdstaddr,
  ip_freebind, ipv6_recvorigdstaddr, ipv6_freebind, bind, listen, Oracle, World, Action, pure,
  raise, continue, logged, ask, attempt, ◌>>=◌, ◌>>◌,
}
use sfo_reuseport.System.Script.{
  Step, must, may, refuse, Any, Outcome, Follows, pure-Follows, skip-Follows, raise-Follows,
  then-Follows, ask-Follows, attempt-Follows,
}
use sfo_reuseport.Platform.Options.{
  Platform, linux, bsd, windows, set_reuse_port, apply_ipv4_transparent, apply_ipv6_transparent,
  refuse_transparent, apply_transparent,
}
use sfo_reuseport.Platform.Binding.{
  for_address, apply_socket_init_callback, apply_common_options, bind_tcp, bind_udp,
}
use sfo_reuseport.Platform.Binding.Script.{
  mode_steps, transparent_steps, reuse_steps, callback_steps, start_steps, bind_steps, Opening,
  not_created, opened, failed, Opens,
}

module _ {F J S : Type 0} (system : Oracle F J) where
  musts-Follows :
      (a b c : Call F J)
      → Follows {S = S}
          (ask system a >> ask system b >> ask system c)
          (must a ∷ must b ∷ must c ∷ [])
          Any
  musts-Follows a b c =
      then-Follows (then-Follows (ask-Follows system a) (ask-Follows system b))
        (ask-Follows system c)

  mays-Follows :
      (a b c : Call F J)
      → Follows {S = S}
          (attempt system a >> attempt system b >> attempt system c)
          (may a ∷ may b ∷ may c ∷ [])
          Any
  mays-Follows a b c =
      then-Follows (then-Follows (attempt-Follows system a) (attempt-Follows system b))
        (attempt-Follows system c)

  ipv4-Follows :
      (m : TransparentMode) (fits : Bool) (fd : ℕ)
      → Follows {S = S}
          (apply_ipv4_transparent system m fits fd)
          (mode_steps m fits
            (unsupported_platform_option (text "ipv4 transparent requires an IPv4 bind address"))
            (set_ip_transparent_v4 fd true
              ∷ setsockopt fd ip_origdstaddr 1
              ∷ setsockopt fd ip_freebind 1
              ∷ []))
          Any
  unfolding apply_ipv4_transparent mode_steps
  ipv4-Follows disabled fits fd = skip-Follows
  ipv4-Follows best_effort false fd = skip-Follows
  ipv4-Follows best_effort true fd =
      mays-Follows (set_ip_transparent_v4 fd true) (setsockopt fd ip_origdstaddr 1)
        (setsockopt fd ip_freebind 1)
  ipv4-Follows required false fd = raise-Follows _
  ipv4-Follows required true fd =
      musts-Follows (set_ip_transparent_v4 fd true) (setsockopt fd ip_origdstaddr 1)
        (setsockopt fd ip_freebind 1)

  ipv6-Follows :
      (m : TransparentMode) (fits : Bool) (fd : ℕ)
      → Follows {S = S}
          (apply_ipv6_transparent system m fits fd)
          (mode_steps m fits
            (unsupported_platform_option (text "ipv6 transparent requires an IPv6 bind address"))
            (set_ip_transparent_v6 fd true
              ∷ setsockopt fd ipv6_recvorigdstaddr 1
              ∷ setsockopt fd ipv6_freebind 1
              ∷ []))
          Any
  unfolding apply_ipv6_transparent mode_steps
  ipv6-Follows disabled fits fd = skip-Follows
  ipv6-Follows best_effort false fd = skip-Follows
  ipv6-Follows best_effort true fd =
      mays-Follows (set_ip_transparent_v6 fd true) (setsockopt fd ipv6_recvorigdstaddr 1)
        (setsockopt fd ipv6_freebind 1)
  ipv6-Follows required false fd = raise-Follows _
  ipv6-Follows required true fd =
      musts-Follows (set_ip_transparent_v6 fd true) (setsockopt fd ipv6_recvorigdstaddr 1)
        (setsockopt fd ipv6_freebind 1)

  refused-Follows :
      (b : Bool) (e : Error)
      → Follows {F = F} {J = J} {S = S}
          (if b then raise e else pure tt)
          (if b then refuse e ∷ [] else [])
          Any
  refused-Follows true e = raise-Follows e
  refused-Follows false e = skip-Follows

  transparent-Follows :
      (p : Platform) (c : SocketConfig F) (fd : ℕ)
      → Follows {S = S} (apply_transparent system p c fd) (transparent_steps p c fd) Any
  unfolding apply_transparent refuse_transparent transparent_steps
  transparent-Follows linux c fd =
      then-Follows (ipv4-Follows c.socket_options.ipv4_transparent (is_ipv4 c.bind_addr) fd)
        (ipv6-Follows c.socket_options.ipv6_transparent (is_ipv6 c.bind_addr) fd)
  transparent-Follows bsd c fd = refused-Follows _ _
  transparent-Follows windows c fd = refused-Follows _ _

  reuse_port-Follows :
      (p : Platform) (fd : ℕ) → Follows {S = S} (set_reuse_port system p fd) (reuse_steps p fd) Any
  unfolding set_reuse_port reuse_steps
  reuse_port-Follows linux fd = ask-Follows system (Call.set_reuse_port fd true)
  reuse_port-Follows bsd fd = ask-Follows system (Call.set_reuse_port fd true)
  reuse_port-Follows windows fd = skip-Follows

  callback-Follows :
      (callback : Option F) (fd : ℕ)
      → Follows {S = S}
          (apply_socket_init_callback system callback fd)
          (callback_steps callback fd)
          Any
  unfolding apply_socket_init_callback callback_steps
  callback-Follows none fd = skip-Follows
  callback-Follows (some f) fd = ask-Follows system (init_callback f fd)

  common-Follows :
      (p : Platform) (c : SocketConfig F) (fd : ℕ)
      → Follows {S = S}
          (apply_common_options system p c fd)
          ((must (set_reuse_address fd c.socket_options.reuse_address) ∷ reuse_steps p fd)
            ++ transparent_steps p c fd)
          Any
  unfolding apply_common_options
  common-Follows p c fd =
      then-Follows
        (then-Follows (ask-Follows system (set_reuse_address fd c.socket_options.reuse_address))
          (reuse_port-Follows p fd))
        (transparent-Follows p c fd)

  module _ (d : Domain) (k : SocketType) (script : ℕ → List (Step F J)) (rest : ℕ → Action F J S ℕ)
      (follows : (fd : ℕ) → Follows (rest fd) (script fd) (λ v. v ≡ fd)) where
    ended :
        (fd : ℕ) (es : List (Event F J)) (r : Result Error ℕ)
        → Outcome (script fd) (λ v. v ≡ fd) es r
        → Opening d k script (event (socket d k) (ok fd) ∷ es) r
    ended fd es (ok v) o =
        subst (λ n. Opening d k script (event (socket d k) (ok fd) ∷ es) (ok n)) (sym o.1)
          (opened fd o.0)
    ended fd es (err e) o = failed fd o

    created :
        (a : Result IoError ℕ) (w : World F J S)
        → Opens d k script w (continue rest (map_err from_io a, logged (socket d k) a w))
    created (err e) w = record {
      calls = event (socket d k) (err e) ∷ [];
      are_logged = refl;
      opening = not_created e;
      same_state = refl;
    }
    created (ok fd) w =
        let later = follows fd (logged (socket d k) (ok fd) w) in
        record {
          calls = event (socket d k) (ok fd) ∷ later.calls;
          are_logged =
              later.are_logged ∙ append_assoc w.log (event (socket d k) (ok fd) ∷ []) later.calls;
          opening = ended fd later.calls _ later.outcome;
          same_state = later.same_state;
        }

    opening-Opens : (w : World F J S) → Opens d k script w ((ask system (socket d k) >>= rest) w)
    opening-Opens w = created (system w.log (socket d k)) w

  pub bind_tcp-Opens :
      (p : Platform) (c : SocketConfig F) (w : World F J S)
      → Opens (for_address c.bind_addr.ip) stream (bind_steps stream p c) w (bind_tcp system p c w)
  unfolding bind_tcp bind_steps start_steps
  bind_tcp-Opens p c =
      opening-Opens (for_address c.bind_addr.ip) stream (bind_steps stream p c) _ (λ fd.
        then-Follows (callback-Follows c.socket_init_callback fd) (
          then-Follows (common-Follows p c fd) (
            then-Follows (ask-Follows system (bind fd c.bind_addr)) (
              then-Follows (ask-Follows system (listen fd 1024))
                (then-Follows (ask-Follows system (set_nonblocking fd true)) (pure-Follows fd))))))

  pub bind_udp-Opens :
      (p : Platform) (c : SocketConfig F) (w : World F J S)
      → Opens (for_address c.bind_addr.ip) dgram (bind_steps dgram p c) w (bind_udp system p c w)
  unfolding bind_udp bind_steps start_steps
  bind_udp-Opens p c =
      opening-Opens (for_address c.bind_addr.ip) dgram (bind_steps dgram p c) _ (λ fd.
        then-Follows (callback-Follows c.socket_init_callback fd) (
          then-Follows (common-Follows p c fd) (
            then-Follows (ask-Follows system (bind fd c.bind_addr))
              (then-Follows (ask-Follows system (set_nonblocking fd true)) (pure-Follows fd)))))

  -- A TCP listener and a UDP socket are opened by their scripts: whatever the system answers, the
  -- calls made are those of the script for the platform and the configuration, in order, up to the
  -- first that must succeed and does not, or to a mode that is refused, whose error is returned; to
  -- the end where none is, and then the socket that was created is returned. The server's state is
  -- left alone.
  pub bind-Opens :
      (p : Platform) (c : SocketConfig F) (w : World F J S)
      → Opens (for_address c.bind_addr.ip) stream (bind_steps stream p c) w (bind_tcp system p c w)
        × Opens (for_address c.bind_addr.ip) dgram (bind_steps dgram p c) w (bind_udp system p c w)
  bind-Opens p c w = (bind_tcp-Opens p c w, bind_udp-Opens p c w)
