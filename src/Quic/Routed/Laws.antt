-- ===== src/Quic/Routed/Laws.antt =====
-- The routed QUIC listener sends every packet to the worker that its connection id names.
use sfo_reuseport.Prelude.{
  ℕ, ◌<◌, ◌≡◌, refl, ap, ◌∙◌, true, List, Option, none, some, get_elem?, All,
}
use sfo_reuseport.Error.{IoError, Result, ok, err}
use sfo_reuseport.Net.{SocketAddr}
use sfo_reuseport.Quic.Route.{quic_worker_index}
use sfo_reuseport.Quic.Route.Laws.{quic_worker_index-lt}
use sfo_reuseport.Udp.{UdpWorkItem}
use sfo_reuseport.Dispatch.{Datagram, payload, Round, next, state_of, Router, offer, finish_all}
use sfo_reuseport.Dispatch.Laws.{Fits, while_active_cases, while_active_set}
use sfo_reuseport.Dispatch.Runs.{run-keeps, run-next}
use sfo_reuseport.Dispatch.Progress.{start, start-Fits}
use sfo_reuseport.Dispatch.Delivery.{forward, Below, free, delivered, run-delivered}
use sfo_reuseport.Dispatch.Rounds.{Safe, RoundIsActive, start-Safe, offer-Safe, forward-next}
use sfo_reuseport.Quic.Routed.{
  work_item, routed, received, quic_routed_udp_listener_round, quic_routed_udp_listener_loop,
}

-- The item's connection id names worker `w` of `n`.
abbrev pub IsFor : ℕ → ℕ → UdpWorkItem → Type 0
IsFor n w item = quic_worker_index item.payload n ≡ some w

-- The worker and the work item of a round, where its packet names a worker.
abbrev pub with_item : {A : Type 0} → A → Option ℕ → Option (ℕ × A)
with_item item none = none
with_item item (some w) = some (w, item)

module _ (local_addr : Option SocketAddr) (n : ℕ) where
  abbrev pub answer_dest : Result IoError Datagram → Option (ℕ × UdpWorkItem)
  answer_dest (err _) = none
  answer_dest (ok d) = with_item (work_item local_addr d) (quic_worker_index (payload d) n)

  abbrev pub dest : Round Datagram → Option (ℕ × UdpWorkItem)
  dest r = answer_dest r.received

  routed-Safe :
      (r : Round Datagram) (d : Datagram) (o : Option ℕ) (s : Router UdpWorkItem)
      → quic_worker_index (payload d) n ≡ o
      → Safe (IsFor n) n s
      → Safe (IsFor n) n (state_of (routed local_addr r d o s))
  unfolding routed
  routed-Safe r d none s e h = h
  routed-Safe r d (some w) s e h = offer-Safe (IsFor n) n w _ r.open_ r.finished s e h

  received-Safe :
      (r : Round Datagram) (a : Result IoError Datagram) (s : Router UdpWorkItem)
      → Safe (IsFor n) n s
      → Safe (IsFor n) n (state_of (received local_addr n r a s))
  unfolding received
  received-Safe r (err e) s h =
      while_active_cases (λ f. Safe (IsFor n) n (state_of f)) r.after s (next s) h h
  received-Safe r (ok d) s h =
      while_active_cases (λ f. Safe (IsFor n) n (state_of f)) r.after s _ h
        (routed-Safe r d _ s refl h)

  round-Safe :
      (r : Round Datagram) (s : Router UdpWorkItem)
      → Safe (IsFor n) n s
      → Safe (IsFor n) n (state_of (quic_routed_udp_listener_round local_addr n r s))
  unfolding quic_routed_udp_listener_round
  round-Safe r s h =
      while_active_cases (λ f. Safe (IsFor n) n (state_of f)) r.at_head s _ h
        (received-Safe r r.received s h)

  -- Whatever the environment does, the routed QUIC listener only ever sends a packet to the worker
  -- that its connection id names, and no worker's counter is ever above its limit.
  pub routed_loop-Safe :
      (max : Option ℕ) (rounds : List (Round Datagram))
      → Safe
          (IsFor n)
          n
          (state_of (quic_routed_udp_listener_loop local_addr n rounds (start n max)))
  unfolding quic_routed_udp_listener_loop
  routed_loop-Safe max rounds =
      run-keeps (quic_routed_udp_listener_round local_addr n) (Safe (IsFor n) n) round-Safe rounds _
        (start-Safe (IsFor n) n max)

  with_item-Below :
      (item : UdpWorkItem) (p : List ℕ) (o : Option ℕ)
      → quic_worker_index p n ≡ o
      → Below n (with_item item o)
  with_item-Below item p none e = tt
  with_item-Below item p (some w) e = quic_worker_index-lt p n w e

  answer_dest-Below : (a : Result IoError Datagram) → Below n (answer_dest a)
  answer_dest-Below (err e) = tt
  answer_dest-Below (ok d) = with_item-Below (work_item local_addr d) (payload d) _ refl

  routed-forward :
      (r : Round Datagram) (d : Datagram) (o : Option ℕ) (s : Router UdpWorkItem)
      → r.open_ ≡ true
      → routed local_addr r d o s ≡ forward n (with_item (work_item local_addr d) o) r.finished s
  unfolding routed
  routed-forward r d none s e = refl
  routed-forward r d (some w) s e =
      ap (λ b. offer w (work_item local_addr d) b (finish_all r.finished s)) e

  received-forward :
      (r : Round Datagram) (a : Result IoError Datagram) (s : Router UdpWorkItem)
      → RoundIsActive r
      → received local_addr n r a s ≡ forward n (answer_dest a) r.finished s
  unfolding received
  received-forward r (err e) s g = while_active_set r.after s (next s) g.1
  received-forward r (ok d) s g = while_active_set r.after s _ g.1 ∙ routed-forward r d _ s g.2

  round-forward :
      (r : Round Datagram) (s : Router UdpWorkItem)
      → RoundIsActive r
      → quic_routed_udp_listener_round local_addr n r s ≡ forward n (dest r) r.finished s
  unfolding quic_routed_udp_listener_round
  round-forward r s g = while_active_set r.at_head s _ g.0 ∙ received-forward r r.received s g

  -- The routed QUIC listener does not end while the flags are set and the workers' channels open:
  -- neither an error of the socket, nor a packet of any content, nor a full worker ends it.
  pub routed_loop-next :
      (max : Option ℕ) (rounds : List (Round Datagram))
      → All RoundIsActive rounds
      → (t : Router UdpWorkItem) × (quic_routed_udp_listener_loop local_addr n rounds (start n max)
          ≡ next t)
        × Fits n t
  unfolding quic_routed_udp_listener_loop
  routed_loop-next max rounds g =
      run-next (quic_routed_udp_listener_round local_addr n) (Fits n) RoundIsActive
        (λ r s g h.
          let (t, e, p) = forward-next n (dest r) r.finished s (answer_dest-Below r.received) h in
          (t, round-forward r s g ∙ e, p))
        rounds _ g (start-Fits UdpWorkItem n max)

  -- Without limits, while the flags are set and the channels open, each worker is sent exactly the
  -- packets that name it, each once and in the order in which they were received.
  pub routed_loop-delivered :
      (rounds : List (Round Datagram)) (w : ℕ)
      → All RoundIsActive rounds
      → w < n
      → get_elem?
          (state_of (quic_routed_udp_listener_loop local_addr n rounds (start n none))).sent
          w
        ≡ some (free (delivered dest w rounds))
  unfolding quic_routed_udp_listener_loop
  routed_loop-delivered =
      run-delivered n (quic_routed_udp_listener_round local_addr n) dest (λ r. r.finished)
        RoundIsActive round-forward (λ r g. answer_dest-Below r.received)
