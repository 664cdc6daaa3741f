-- ===== src/Tcp/Server/Tests.antt =====
-- A TCP server with two workers, on Linux and on Windows, and one whose address is in use.
use sfo_reuseport.Prelude.{ℕ, ◌≡◌, refl, List, [], ◌∷◌, ◌++◌, map, none, some, true, false}
use sfo_reuseport.Config.Tcp.{TcpServiceConfig}
use sfo_reuseport.Config.{default_socket_options}
use sfo_reuseport.System.{Event, World}
use sfo_reuseport.System.Sample.{addr, replies, busy, fresh, two_workers}
use sfo_reuseport.System.Spawned.{spawned}
use sfo_reuseport.System.Registered.{Served}
use sfo_reuseport.Platform.Options.{linux, windows}
use sfo_reuseport.Tcp.State.{TcpServerState, new, close}
use sfo_reuseport.Tcp.Server.{TcpTask, serve_with_state}
use sfo_reuseport.Tcp.Server.Laws.{Holds, TcpTasks, serve_tcp-Served, close-serve_tcp}
use sfo_reuseport.Udp.State.{locked}

abbrev config : TcpServiceConfig ℕ
config = record {
  bind_addr = addr;
  socket_options = default_socket_options;
  socket_init_callback = none;
  max_concurrency_per_worker = some 8;
}

abbrev start : World ℕ TcpTask TcpServerState
unfolding new
start = fresh new

serve_tcp-Served_example :
    Served Holds
      (TcpTasks linux two_workers config)
      start
      (serve_with_state (λ _. replies) linux two_workers config start)
serve_tcp-Served_example = serve_tcp-Served (λ _. replies) two_workers config linux start

close-serve_tcp_example :
    (calls : List (Event ℕ TcpTask)) × ((serve_with_state
        (λ _. busy)
        windows
        two_workers
        config
        start).1.log
      ≡ start.log ++ calls)
    × (close (serve_with_state (λ _. busy) windows two_workers config start).1.state
        ≡ (record { active = false; tasks = locked [] }, map (λ s. s.task) (spawned calls)))
close-serve_tcp_example = close-serve_tcp (λ _. busy) two_workers config windows start

-- Three tasks on Windows, two on Linux.
on_windows :
    (serve_with_state (λ _. replies) windows two_workers config start).1.state
    ≡ record { active = true; tasks = locked (7 ∷ 7 ∷ 7 ∷ []) }
unfolding serve_with_state
on_windows = refl

on_linux :
    (serve_with_state (λ _. replies) linux two_workers config start).1.state
    ≡ record { active = true; tasks = locked (7 ∷ 7 ∷ []) }
unfolding serve_with_state
on_linux = refl
