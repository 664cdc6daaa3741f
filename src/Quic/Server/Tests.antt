-- ===== src/Quic/Server/Tests.antt =====
-- A QUIC server with two workers, whose kernel takes a classic BPF program, and one that is refused.
use sfo_reuseport.Prelude.{ℕ, none, some, true, false, arith}
use sfo_reuseport.Config.Udp.{UdpServiceConfig}
use sfo_reuseport.Config.{default_socket_options}
use sfo_reuseport.System.{World}
use sfo_reuseport.System.Sample.{addr, replies, fresh, two_workers}
use sfo_reuseport.System.Registered.{Served}
use sfo_reuseport.Platform.Options.{linux}
use sfo_reuseport.Udp.State.{UdpServerState, new}
use sfo_reuseport.Udp.Task.{UdpTask}
use sfo_reuseport.Udp.Server.Registry.{Holds}
use sfo_reuseport.Quic.Server.{Kernel, serve_with_state, serve_socket}
use sfo_reuseport.Quic.Server.Own.{QuicHandlerCalls, QuicCallbackCalls}
use sfo_reuseport.Quic.Server.Serve.{serve_quic-Served}

abbrev config : UdpServiceConfig ℕ
config = record {
  bind_addr = addr;
  socket_options = default_socket_options;
  socket_init_callback = none;
  max_concurrency_per_worker = some 8;
  routed_packet_channel_capacity = 16;
}

abbrev no_room : UdpServiceConfig ℕ
no_room = record config { routed_packet_channel_capacity = 0 }

abbrev kernel : Kernel
kernel = record {
  disabled = false;
  attach_ebpf = λ _ _. false;
  attach_cbpf = λ _ _. true;
  routes_probe = λ _ _. true;
}

abbrev start : World ℕ UdpTask UdpServerState
unfolding new
start = fresh new

serve_quic-Served_example :
    Served Holds
      (QuicHandlerCalls kernel linux two_workers config)
      start
      (serve_with_state (λ _. replies) kernel linux true two_workers config start)
    × Served Holds
        (QuicCallbackCalls kernel linux true two_workers config)
        start
        (serve_socket (λ _. replies) kernel linux true two_workers config start)
serve_quic-Served_example =
    serve_quic-Served (λ _. replies) kernel true two_workers config (ground arith) linux start
