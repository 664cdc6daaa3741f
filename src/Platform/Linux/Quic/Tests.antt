-- ===== src/Platform/Linux/Quic/Tests.antt =====
-- Two workers whose sockets are bound, and for whom only classic BPF can be attached.
use sfo_reuseport.Prelude.{ℕ, ◌≡◌, refl, ◌==◌, Bool, true, false, List, [], ◌∷◌, none, some, length}
use sfo_reuseport.Error.{ok}
use sfo_reuseport.Net.{SocketAddr}
use sfo_reuseport.Config.{default_socket_options}
use sfo_reuseport.Config.Socket.{SocketConfig}
use sfo_reuseport.System.{World}
use sfo_reuseport.System.Sample.{addr, replies, fresh}
use sfo_reuseport.System.Spawned.{Spawned}
use sfo_reuseport.System.Registered.{Kept}
use sfo_reuseport.Platform.Linux.Quic.{bind_quic_udp_reuseport_workers}
use sfo_reuseport.Platform.Linux.Quic.Laws.{Bound, bind-Bound}

abbrev config : SocketConfig ℕ
config = record {
  bind_addr = addr;
  socket_options = default_socket_options;
  socket_init_callback = none;
}

abbrev probes : List ℕ → SocketAddr → Bool
probes sockets a = length sockets == 2

abbrev start : World ℕ ℕ Unit
start = fresh tt

abbrev Always : Unit {0} → List (Spawned ℕ) → Type 0
Always s js = Unit

both_bound :
    (bind_quic_udp_reuseport_workers
      (λ _. replies)
      (λ _ _. false)
      (λ _ _. true)
      probes
      false
      config
      2
      start).0
    ≡ ok (some (7 ∷ 7 ∷ []))
unfolding bind_quic_udp_reuseport_workers
both_bound = refl

bind-Bound_example :
    Kept Always
      (λ o js. Bound {F = ℕ} {J = ℕ} (λ _. replies) probes 2 o × (js ≡ []))
      start
      (bind_quic_udp_reuseport_workers
        (λ _. replies)
        (λ _ _. false)
        (λ _ _. true)
        probes
        false
        config
        2
        start)
bind-Bound_example =
    bind-Bound Always (λ _. replies) (λ _ _. false) (λ _ _. true) probes false config 2 start
