-- ===== src/Quic/Server/Serve.antt =====
-- `QuicServer` from its configuration to its close.
use mathlib.Core.Path.{subst}
use mathlib.Core.List.{append-nil}
use sfo_reuseport.Prelude.{
  ℕ, ◌<◌, ◌≡◌, refl, ap, sym, ◌∙◌, Bool, true, false, List, [], ◌++◌, length, if◌then◌else◌,
}
use sfo_reuseport.Error.{ok}
use sfo_reuseport.Config.Udp.{UdpServiceConfig}
use sfo_reuseport.System.{Oracle, World, Action, pure, ◌>>=◌}
use sfo_reuseport.System.Spawned.{Spawned, spawned}
use sfo_reuseport.System.Registered.{
  Keeps, Served, idle-Kept, weaken-Keeps, bind-Keeps, bind_with-Keeps,
}
use sfo_reuseport.Server.{ServerRuntime, worker_count}
use sfo_reuseport.Server.Setup.Laws.{OwnSockets}
use sfo_reuseport.Platform.Options.{
  Platform, linux, bsd, windows, capabilities, supports_reuse_port_balancing,
}
use sfo_reuseport.Udp.State.{UdpServerState}
use sfo_reuseport.Udp.Task.{UdpTask, connection_id, quic_listen_on, call_on}
use sfo_reuseport.Udp.Server.Close.{Cancelled, close-cancels}
use sfo_reuseport.Udp.Server.Registry.{Holds}
use sfo_reuseport.Udp.Server.Laws.{callback_simulated-Keeps}
use sfo_reuseport.Udp.Server.Serve.{after_validated}
use sfo_reuseport.Quic.Server.Own.{QuicHandlerCalls, QuicCallbackCalls}
use sfo_reuseport.Quic.Server.Chosen.{routed-Chooses, callback-Chooses}
use sfo_reuseport.Quic.Server.{
  Kernel, add_quic_socket_callback_reuseport_bpf_listener, add_quic_socket_callback_listener,
  add_quic_reuseport_bpf_listener_with_state, add_quic_simulated_listener_with_state,
  add_quic_reuseport_listener_with_state, add_quic_routed_listener_with_state, serve_with_state,
  serve_socket,
}
use sfo_reuseport.Quic.Server.Laws.{
  QuicHandlerTasks, behind_kernel, behind_receiver, QuicCallbackTasks, on_kernel, on_dispatcher,
  Added, bind_quic-Keeps, simulated-Keeps, with_listeners-Keeps, with_callbacks-Keeps,
}

module _ {F : Type 0} (system : Oracle F UdpTask) (k : Kernel) (tokio : Bool) (r : ServerRuntime)
    (c : UdpServiceConfig F) where
  abbrev After :
      (List (Spawned UdpTask) → Type 0) → Bool → Unit {0} → List (Spawned UdpTask) → Type 0
  After R true _ js = js ≡ []
  After R false _ js = R js

  branch-Keeps :
      (R : List (Spawned UdpTask) → Type 0) (m : Action F UdpTask UdpServerState (Unit {0}))
      → Keeps Holds m (λ _. R)
      → (added : Bool) → Keeps Holds (if added then pure tt else m) (After R added)
  unfolding spawned
  branch-Keeps R m h true = λ w. idle-Kept Holds (After R true) w (ok tt) refl
  branch-Keeps R m h false = h

  either :
      (p : Platform) (job : ℕ → ℕ → UdpTask) (R : List (Spawned UdpTask) → Type 0)
      → ((js : List (Spawned UdpTask))
          → p ≡ linux
          → OwnSockets r.workers (length r.workers) job js
          → R js)
      → (added : Bool) (b : Unit {0}) (js ks : List (Spawned UdpTask))
      → Added system k tokio r c p job added js
      → After R added b ks
      → R (js ++ ks)
  either p job R own true b js ks (e, o) q =
      subst R (sym (append-nil js) ∙ ap (λ l. js ++ l) (sym q)) (own js e o)
  either p job R own false b js ks a q = subst (λ l. R (l ++ ks)) (sym a) q

  -- The kernel's program where it was taken, or else the fallback.
  chosen-Keeps :
      (p : Platform) (job : ℕ → ℕ → UdpTask) (R : List (Spawned UdpTask) → Type 0)
      (add : Action F UdpTask UdpServerState Bool) (m : Action F UdpTask UdpServerState (Unit {0}))
      → Keeps Holds add (Added system k tokio r c p job)
      → Keeps Holds m (λ _. R)
      → ((js : List (Spawned UdpTask))
          → p ≡ linux
          → OwnSockets r.workers (length r.workers) job js
          → R js)
      → Keeps Holds (add >>= λ added. if added then pure tt else m) (λ _. R)
  chosen-Keeps p job R add m h g own =
      bind-Keeps Holds (λ _. R) h (branch-Keeps R m g) (either p job R own)

  abbrev quic_job : ℕ → ℕ → UdpTask
  quic_job _ socket = quic_listen_on socket (length r.workers) c.max_concurrency_per_worker

  bpf-Keeps :
      (p : Platform)
      → Keeps Holds
          (add_quic_reuseport_bpf_listener_with_state system k p tokio r c)
          (Added system k tokio r c p quic_job)
  unfolding add_quic_reuseport_bpf_listener_with_state worker_count
  bpf-Keeps p =
      bind_with-Keeps Holds (Added system k tokio r c p quic_job)
        (bind_quic-Keeps system k tokio r c p)
        (λ o _ g. with_listeners-Keeps system k tokio r c p o g.0)
        (λ _ added js ks g a.
          subst (λ l. Added system k tokio r c p quic_job added (l ++ ks)) (sym g.1) a)

  callback_bpf-Keeps :
      (p : Platform)
      → Keeps Holds
          (add_quic_socket_callback_reuseport_bpf_listener system k p tokio r c)
          (Added system k tokio r c p (λ id socket. call_on socket id))
  unfolding add_quic_socket_callback_reuseport_bpf_listener worker_count
  callback_bpf-Keeps p =
      bind_with-Keeps Holds (Added system k tokio r c p (λ id socket. call_on socket id))
        (bind_quic-Keeps system k tokio r c p)
        (λ o _ g. with_callbacks-Keeps system k tokio r c p o g.0)
        (λ _ added js ks g a.
          subst (λ l. Added system k tokio r c p (λ id socket. call_on socket id) added (l ++ ks))
            (sym g.1) a)

  receiver-Keeps :
      (p : Platform)
      → Keeps Holds
          (add_quic_simulated_listener_with_state system k p tokio r c)
          (λ _. QuicHandlerTasks p r c)
  receiver-Keeps p =
      weaken-Keeps Holds (λ _ _ f. behind_receiver f.0 f.1) (simulated-Keeps system k tokio r c p)

  reuseport-Keeps :
      (p : Platform)
      → Keeps Holds
          (add_quic_reuseport_listener_with_state system k p tokio r c)
          (λ _. QuicHandlerTasks p r c)
  unfolding add_quic_reuseport_listener_with_state
  reuseport-Keeps p =
      chosen-Keeps p quic_job (QuicHandlerTasks p r c) _ _ (bpf-Keeps p) (receiver-Keeps p)
        (λ _ e own. behind_kernel e own)

  routed-Keeps :
      (p : Platform)
      → Keeps Holds
          (add_quic_routed_listener_with_state system k p tokio r c)
          (λ _. QuicHandlerTasks p r c)
  unfolding add_quic_routed_listener_with_state capabilities supports_reuse_port_balancing
  routed-Keeps linux = reuseport-Keeps linux
  routed-Keeps bsd = reuseport-Keeps bsd
  routed-Keeps windows = receiver-Keeps windows

  attempted-Keeps :
      (p : Platform)
      → Keeps Holds
          (if (capabilities p).reuse_port_balancing
            then add_quic_socket_callback_reuseport_bpf_listener system k p tokio r c
            else pure false)
          (Added system k tokio r c p (λ id socket. call_on socket id))
  unfolding capabilities supports_reuse_port_balancing spawned
  attempted-Keeps linux = callback_bpf-Keeps linux
  attempted-Keeps bsd = callback_bpf-Keeps bsd
  attempted-Keeps windows = λ w. idle-Kept Holds _ w (ok false) refl

  callback-Keeps :
      (p : Platform)
      → Keeps Holds
          (add_quic_socket_callback_listener system k p tokio r c)
          (λ _. QuicCallbackTasks p tokio r c)
  unfolding add_quic_socket_callback_listener
  callback-Keeps p =
      chosen-Keeps p (λ id socket. call_on socket id) (QuicCallbackTasks p tokio r c) _ _
        (attempted-Keeps p)
        (weaken-Keeps Holds (λ _ _ f. on_dispatcher f)
          (callback_simulated-Keeps system tokio r c p connection_id))
        (λ _ e own. on_kernel e own)

  -- Setting a QUIC server up with a valid configuration, with handlers or with socket callbacks,
  -- whatever the system and the kernel answer: the state that it leaves is that of an active server
  -- that has registered every task it has spawned, in order, each in the registry of its kind, also
  -- where it fails. Where it succeeds its calls have either, and only on Linux, opened one socket
  -- after another, as many as there are workers and each by a `socket` call of its own with the whole
  -- script after it, of which the first has a program attached for that many workers and the probe has
  -- been routed over exactly these sockets, and then spawned on each worker in order a task for the
  -- socket opened in its place; or spawned a task for each worker and one on worker 0 that receives
  -- for all of them.
  pub serve_quic-Served :
      0 < c.routed_packet_channel_capacity
      → (p : Platform) (w : World F UdpTask UdpServerState)
      → Served Holds (QuicHandlerCalls k p r c) w (serve_with_state system k p tokio r c w)
        × Served Holds (QuicCallbackCalls k p tokio r c) w (serve_socket system k p tokio r c w)
  unfolding serve_with_state serve_socket
  serve_quic-Served pos p w = (
    after_validated c (QuicHandlerCalls k p r c) _ _ (routed-Keeps p)
        (routed-Chooses system k tokio r c p) pos w,
    after_validated c (QuicCallbackCalls k p tokio r c) _ _ (callback-Keeps p)
        (callback-Chooses system k tokio r c p) pos w,
  )

  -- The `close` of a QUIC server with a valid configuration that was set up, or that failed to be,
  -- cancels exactly the tasks that were spawned for it other than socket callbacks, in order, and
  -- leaves it inactive.
  pub close-serve_quic :
      0 < c.routed_packet_channel_capacity
      → (p : Platform) (w : World F UdpTask UdpServerState)
      → Cancelled w (serve_with_state system k p tokio r c w).1
        × Cancelled w (serve_socket system k p tokio r c w).1
  close-serve_quic pos p w =
      let (s, t) = serve_quic-Served pos p w in
      let (a, b) = close-cancels _ (spawned s.calls) s.is_held in
      let (d, e) = close-cancels _ (spawned t.calls) t.is_held in
      ((s.calls, s.are_logged, a, b), (t.calls, t.are_logged, d, e))
