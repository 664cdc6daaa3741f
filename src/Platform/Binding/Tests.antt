-- ===== src/Platform/Binding/Tests.antt =====
-- Two configurations, one of which asks for what cannot be had, on a system that answers every call.
use sfo_reuseport.Prelude.{ℕ, ◌≡◌, refl, true, none, some}
use sfo_reuseport.Error.{unsupported_platform_option, text, ok, err}
use sfo_reuseport.Net.{v4_localhost}
use sfo_reuseport.Config.{disabled, required, best_effort}
use sfo_reuseport.Config.Socket.{SocketConfig}
use sfo_reuseport.System.{World, stream, dgram}
use sfo_reuseport.System.Sample.{addr, replies, busy, fresh}
use sfo_reuseport.Platform.Options.{linux, windows}
use sfo_reuseport.Platform.Binding.{for_address, bind_tcp, bind_udp}
use sfo_reuseport.Platform.Binding.Script.{bind_steps, Opens}
use sfo_reuseport.Platform.Binding.Laws.{bind-Opens}
use sfo_reuseport.Platform.Binding.Refusal.{NeverBound, bind-NeverBound}

abbrev start : World ℕ ℕ Unit
start = fresh tt

abbrev transparent_v4 : SocketConfig ℕ
transparent_v4 = record {
  bind_addr = addr;
  socket_options = record {
    reuse_address = true;
    ipv4_transparent = required;
    ipv6_transparent = best_effort;
  };
  socket_init_callback = some 3;
}

abbrev transparent_v6 : SocketConfig ℕ
transparent_v6 = record {
  bind_addr = addr;
  socket_options = record {
    reuse_address = true;
    ipv4_transparent = disabled;
    ipv6_transparent = required;
  };
  socket_init_callback = none;
}

bind-Opens_example :
    Opens
      (for_address v4_localhost)
      stream
      (bind_steps stream linux transparent_v4)
      start
      (bind_tcp (λ _. replies) linux transparent_v4 start)
    × Opens
        (for_address v4_localhost)
        dgram
        (bind_steps dgram linux transparent_v4)
        start
        (bind_udp (λ _. replies) linux transparent_v4 start)
bind-Opens_example = bind-Opens (λ _. replies) linux transparent_v4 start

bind-NeverBound_example :
    NeverBound start (bind_tcp (λ _. replies) linux transparent_v6 start)
    × NeverBound start (bind_udp (λ _. replies) linux transparent_v6 start)
bind-NeverBound_example = bind-NeverBound (λ _. replies) linux transparent_v6 start refl

tcp_bound : (bind_tcp (λ _. replies) linux transparent_v4 start).0 ≡ ok 7
unfolding bind_tcp
tcp_bound = refl

-- Windows has no transparent mode.
udp_busy :
    (bind_udp (λ _. busy) windows transparent_v4 start).0
    ≡ err (
        unsupported_platform_option
          (text "transparent sockets are only supported on Linux targets"))
unfolding bind_udp
udp_busy = refl
