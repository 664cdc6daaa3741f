-- ===== src/Udp/Server/Tests.antt =====
-- A UDP server with two workers.
use sfo_reuseport.Prelude.{ℕ, none, some, true, arith}
use sfo_reuseport.Config.Udp.{UdpServiceConfig}
use sfo_reuseport.Config.{default_socket_options}
use sfo_reuseport.System.{World}
use sfo_reuseport.System.Sample.{addr, replies, busy, fresh, two_workers}
use sfo_reuseport.System.Registered.{Served}
use sfo_reuseport.Platform.Options.{linux}
use sfo_reuseport.Udp.State.{UdpServerState, new}
use sfo_reuseport.Udp.Task.{UdpTask}
use sfo_reuseport.Udp.Server.{serve_with_state, serve_socket}
use sfo_reuseport.Udp.Server.Registry.{Holds}
use sfo_reuseport.Udp.Server.Laws.{HandlerTasks, CallbackTasks}
use sfo_reuseport.Udp.Server.Serve.{serve_udp-Served}
use sfo_reuseport.Udp.Server.Close.{Cancelled, close-serve_udp}

abbrev config : UdpServiceConfig ℕ
config = record {
  bind_addr = addr;
  socket_options = default_socket_options;
  socket_init_callback = none;
  max_concurrency_per_worker = some 8;
  routed_packet_channel_capacity = 16;
}

abbrev start : World ℕ UdpTask UdpServerState
unfolding new
start = fresh new

serve_udp-Served_example :
    Served Holds
      (HandlerTasks linux true two_workers config)
      start
      (serve_with_state (λ _. replies) linux true two_workers config start)
    × Served Holds
        (CallbackTasks linux two_workers config)
        start
        (serve_socket (λ _. replies) linux true two_workers config start)
serve_udp-Served_example =
    serve_udp-Served (λ _. replies) true two_workers config (ground arith) linux start

close-serve_udp_example :
    Cancelled start (serve_with_state (λ _. busy) linux true two_workers config start).1
    × Cancelled start (serve_socket (λ _. busy) linux true two_workers config start).1
close-serve_udp_example =
    close-serve_udp (λ _. busy) true two_workers config (ground arith) linux start
