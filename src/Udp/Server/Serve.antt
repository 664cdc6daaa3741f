-- ===== src/Udp/Server/Serve.antt =====
-- `UdpServer` from its configuration to its close.
use mathlib.Core.Path.{subst}
use sfo_reuseport.Prelude.{◌<◌, ◌≡◌, refl, sym, ne→==, Bool, List, [], ◌++◌, arith}
use sfo_reuseport.Error.{invalid_config, text, ok, err}
use sfo_reuseport.Config.Udp.{UdpServiceConfig, validate, validate_routed_packet_channel_capacity}
use sfo_reuseport.System.{Event, Oracle, World, Action, continue, ◌>>◌}
use sfo_reuseport.System.Spawned.{Spawned, spawned}
use sfo_reuseport.System.Registered.{Keeps, Served, serve-Served, and-Served}
use sfo_reuseport.Server.{ServerRuntime}
use sfo_reuseport.Platform.Options.{
  Platform, linux, bsd, windows, capabilities, supports_reuse_port_balancing,
}
use sfo_reuseport.Udp.State.{UdpServerState, new}
use sfo_reuseport.Udp.Task.{UdpTask, hash}
use sfo_reuseport.Udp.Server.{uses_transparent_receive, validated, serve_with_state, serve_socket}
use sfo_reuseport.Udp.Server.Registry.{tasks_of, callbacks_of, Holds}
use sfo_reuseport.Udp.Server.Laws.{
  HandlerTasks, CallbackTasks, reuse_port-Keeps, callback_reuse_port-Keeps, simulated-Keeps,
  callback_simulated-Keeps, reuse_port-Owns, callback-Owns,
}

new-Holds : Holds new []
unfolding new tasks_of callbacks_of
new-Holds = (refl, refl, refl)

module _ {F : Type 0} (c : UdpServiceConfig F) where
  pub validated-ok :
      0 < c.routed_packet_channel_capacity
      → (w : World F UdpTask UdpServerState) → validated c w ≡ (ok tt, record w { state = new })
  unfolding validated validate validate_routed_packet_channel_capacity
  validated-ok pos w = rw (ne→== c.routed_packet_channel_capacity 0 (omega (arith, pos))) refl

  pub validated-err :
      c.routed_packet_channel_capacity ≡ 0
      → (w : World F UdpTask UdpServerState)
      → validated c w ≡ (
        err (invalid_config (text "routed packet channel capacity must be greater than zero")),
        w,
      )
  unfolding validated validate validate_routed_packet_channel_capacity
  validated-err zero_ w = rw zero_ refl

  -- A server that is set up after the validations.
  pub validated-Served :
      (P : List (Spawned UdpTask) → Type 0) (m : Action F UdpTask UdpServerState (Unit {0}))
      → Keeps Holds m (λ _. P)
      → 0 < c.routed_packet_channel_capacity
      → (w : World F UdpTask UdpServerState)
      → Served Holds (λ calls. P (spawned calls)) w ((validated c >> m) w)
  validated-Served P m k pos w =
      subst (λ x. Served Holds (λ calls. P (spawned calls)) w (continue (λ _. m) x))
        (sym (validated-ok pos w)) (serve-Served Holds P m k new new-Holds w.log w.state)

  -- What the calls of the function after the validations are is what those of the set-up are.
  pub after_validated :
      (P : List (Event F UdpTask) → Type 0) (Q : List (Spawned UdpTask) → Type 0)
      (m : Action F UdpTask UdpServerState (Unit {0}))
      → Keeps Holds m (λ _. Q)
      → ((v : World F UdpTask UdpServerState)
          → (m v).0 ≡ ok tt
          → (calls : List (Event F UdpTask)) × ((m v).1.log ≡ v.log ++ calls) × P calls)
      → 0 < c.routed_packet_channel_capacity
      → (w : World F UdpTask UdpServerState) → Served Holds P w ((validated c >> m) w)
  after_validated P Q m k own pos w =
      and-Served Holds P (λ calls. Q (spawned calls)) w ((validated c >> m) w)
        (validated-Served Q m k pos w)
        (subst
          (λ x.
            (continue (λ _. m) x).0 ≡ ok tt
            → (calls : List (Event F UdpTask)) × ((continue (λ _. m) x).1.log ≡ w.log ++ calls)
              × P calls)
          (sym (validated-ok pos w)) (own (record w { state = new })))

module _ {F : Type 0} (system : Oracle F UdpTask) (tokio : Bool) (r : ServerRuntime)
    (c : UdpServiceConfig F) where
  -- Setting a UDP server up with a valid configuration, with handlers or with socket callbacks, on any
  -- system: the state that it leaves is that of an active server that has registered every task it
  -- has spawned, in order, each in the registry of its kind, also where it fails. Where it succeeds on
  -- a platform that balances between sockets, its calls have opened one socket after another, as many
  -- as there are workers and each by a `socket` call of its own with the whole script after it, and
  -- then spawned on each worker in order a task for the socket opened in its place; elsewhere there
  -- are a task for each worker and one on worker 0 that receives for all of them.
  pub serve_udp-Served :
      0 < c.routed_packet_channel_capacity
      → (p : Platform) (w : World F UdpTask UdpServerState)
      → Served Holds (HandlerTasks p tokio r c) w (serve_with_state system p tokio r c w)
        × Served Holds (CallbackTasks p r c) w (serve_socket system p tokio r c w)
  unfolding serve_with_state serve_socket capabilities supports_reuse_port_balancing
      uses_transparent_receive
  serve_udp-Served pos linux w = (
    after_validated c (HandlerTasks linux tokio r c) _ _
        (reuse_port-Keeps system tokio r c linux refl) (reuse_port-Owns system tokio r c linux refl)
        pos w,
    after_validated c (CallbackTasks linux r c) _ _
        (callback_reuse_port-Keeps system tokio r c linux refl)
        (callback-Owns system tokio r c linux refl) pos w,
  )
  serve_udp-Served pos bsd w = (
    after_validated c (HandlerTasks bsd tokio r c) _ _ (reuse_port-Keeps system tokio r c bsd refl)
        (reuse_port-Owns system tokio r c bsd refl) pos w,
    after_validated c (CallbackTasks bsd r c) _ _
        (callback_reuse_port-Keeps system tokio r c bsd refl)
        (callback-Owns system tokio r c bsd refl) pos w,
  )
  serve_udp-Served pos windows w = (
    validated-Served c _ _ (simulated-Keeps system tokio r c windows) pos w,
    validated-Served c _ _ (callback_simulated-Keeps system tokio r c windows hash) pos w,
  )
