-- ===== src/Udp/Server/Close.antt =====
-- The close of a UDP server that was set up: `UdpServer::close` after `serve` and `serve_socket`.
use sfo_reuseport.Prelude.{
  ℕ, ◌<◌, ◌≡◌, refl, ap, ◌∙◌, Bool, Bool-cases, inl, inr, false, List, [], ◌∷◌, ◌++◌, map,
}
use sfo_reuseport.Config.Udp.{UdpServiceConfig}
use sfo_reuseport.System.{Event, Oracle, World}
use sfo_reuseport.System.Spawned.{Spawned, spawned}
use sfo_reuseport.Server.{ServerRuntime}
use sfo_reuseport.Platform.Options.{Platform}
use sfo_reuseport.Udp.State.{
  UdpServerState, Mutex, Effect, wake, shutdown, cancel, close, close_all, cancel_all,
}
use sfo_reuseport.Udp.Task.{UdpTask}
use sfo_reuseport.Udp.Server.{serve_with_state, serve_socket}
use sfo_reuseport.Udp.Server.Registry.{tasks_of, Holds}
use sfo_reuseport.Udp.Server.Serve.{serve_udp-Served}

-- The tasks that `close` has cancelled.
unfoldable pub cancels : List Effect → List ℕ
cancels [] = []
cancels (cancel task ∷ es) = task ∷ cancels es
cancels (wake _ ∷ es) = cancels es
cancels (shutdown _ ∷ es) = cancels es

cancels-append : (es fs : List Effect) → cancels (es ++ fs) ≡ cancels es ++ cancels fs
unfolding cancels
cancels-append [] fs = refl
cancels-append (cancel task ∷ es) fs = ap (λ l. task ∷ l) (cancels-append es fs)
cancels-append (wake socket ∷ es) fs = cancels-append es fs
cancels-append (shutdown socket ∷ es) fs = cancels-append es fs

cancels-map : (l : List ℕ) → cancels (map cancel l) ≡ l
unfolding cancels
cancels-map [] = refl
cancels-map (x ∷ l) = ap (λ k. x ∷ k) (cancels-map l)

wakes-none : (l : List ℕ) → cancels (map wake l) ≡ []
unfolding cancels
wakes-none [] = refl
wakes-none (x ∷ l) = wakes-none l

shutdowns-none : (l : List ℕ) → cancels (map shutdown l) ≡ []
unfolding cancels
shutdowns-none [] = refl
shutdowns-none (x ∷ l) = shutdowns-none l

close_all-none : (m : Mutex (List ℕ)) → cancels (close_all m).1 ≡ []
unfolding cancels
close_all-none m = elim (Bool-cases m.poisoned) [
  | inl e ↦ rw e refl
  | inr e ↦ rw e (
      cancels-append (map wake m.value) (map shutdown m.value)
      ∙ ap (λ l. l ++ cancels (map shutdown m.value)) (wakes-none m.value)
      ∙ shutdowns-none m.value)
]

-- Closing an active server cancels the tasks that it has registered, and no callback.
pub close-cancels :
    (s : UdpServerState) (js : List (Spawned UdpTask))
    → Holds s js
    → (cancels (close s).1 ≡ tasks_of js) × ((close s).0.active ≡ false)
unfolding close
close-cancels s js h = (
  cancels-append (close_all s.sockets).1 ((close_all s.close_sockets).1 ++ (cancel_all s.tasks).1)
      ∙ ap (λ l. l ++ cancels ((close_all s.close_sockets).1 ++ (cancel_all s.tasks).1))
          (close_all-none s.sockets)
      ∙ cancels-append (close_all s.close_sockets).1 (cancel_all s.tasks).1
      ∙ ap (λ l. l ++ cancels (cancel_all s.tasks).1) (close_all-none s.close_sockets)
      ∙ ap (λ m. cancels (cancel_all m).1) h.1
      ∙ cancels-map (tasks_of js),
  refl,
)

-- What the close of a server cancels that these calls have set up.
abbrev pub Cancelled :
    {F : Type 0} → World F UdpTask UdpServerState → World F UdpTask UdpServerState → Type 0
Cancelled {F} w v =
    (calls : List (Event F UdpTask)) × (v.log ≡ w.log ++ calls)
    × (cancels (close v.state).1 ≡ tasks_of (spawned calls))
    × ((close v.state).0.active ≡ false)

module _ {F : Type 0} (system : Oracle F UdpTask) (tokio : Bool) (r : ServerRuntime)
    (c : UdpServiceConfig F) where
  -- The `close` of a UDP server with a valid configuration that was set up, or that failed to be,
  -- cancels exactly the tasks that were spawned for it other than socket callbacks, in order, and
  -- leaves it inactive.
  pub close-serve_udp :
      0 < c.routed_packet_channel_capacity
      → (p : Platform) (w : World F UdpTask UdpServerState)
      → Cancelled w (serve_with_state system p tokio r c w).1
        × Cancelled w (serve_socket system p tokio r c w).1
  close-serve_udp pos p w =
      let (s, t) = serve_udp-Served system tokio r c pos p w in
      let (a, b) = close-cancels _ (spawned s.calls) s.is_held in
      let (d, e) = close-cancels _ (spawned t.calls) t.is_held in
      ((s.calls, s.are_logged, a, b), (t.calls, t.are_logged, d, e))
