-- ===== src/Udp/Simulated/Laws.antt =====
-- The simulated UDP listener sends every datagram to the worker that its addresses select.
use sfo_reuseport.Prelude.{
  ℕ, ◌<◌, ◌≡◌, refl, ap, ◌∙◌, true, List, Option, none, some, get_elem?, All,
}
use sfo_reuseport.Error.{Error, IoError, Result, ok, err}
use sfo_reuseport.Schedule.{linux_reuseport_select}
use sfo_reuseport.Schedule.Laws.{linux_reuseport_select-lt, linux_reuseport_select_ok}
use sfo_reuseport.Net.{PacketMeta}
use sfo_reuseport.Udp.{UdpWorkItem}
use sfo_reuseport.Dispatch.{Datagram, payload, Round, next, state_of, Router, offer, finish_all}
use sfo_reuseport.Dispatch.Laws.{Fits, while_active_cases, while_active_set}
use sfo_reuseport.Dispatch.Runs.{run-keeps, run-next}
use sfo_reuseport.Dispatch.Progress.{start, start-Fits}
use sfo_reuseport.Dispatch.Delivery.{forward, Below, free, delivered, run-delivered}
use sfo_reuseport.Dispatch.Rounds.{Safe, RoundIsActive, start-Safe, offer-Safe, forward-next}
use sfo_reuseport.Udp.Simulated.{
  meta_of, selected, received, simulated_udp_listener_round, simulated_udp_listener_loop,
}

-- The item's addresses select worker `w` of `n`.
abbrev pub IsFor : ℕ → ℕ → UdpWorkItem → Type 0
IsFor n w item = linux_reuseport_select item.meta n ≡ ok w

abbrev work_item : Datagram → UdpWorkItem
work_item d = record { meta = meta_of d; payload = payload d }

-- The worker and the work item of a round that has received a datagram.
abbrev with_item : {A : Type 0} → A → Result Error ℕ → Option (ℕ × A)
with_item item (err _) = none
with_item item (ok w) = some (w, item)

module _ (n : ℕ) where
  abbrev answer_dest : Result IoError Datagram → Option (ℕ × UdpWorkItem)
  answer_dest (err _) = none
  answer_dest (ok d) = with_item (work_item d) (linux_reuseport_select (meta_of d) n)

  abbrev pub dest : Round Datagram → Option (ℕ × UdpWorkItem)
  dest r = answer_dest r.received

  selected-Safe :
      (r : Round Datagram) (d : Datagram) (o : Result Error ℕ) (s : Router UdpWorkItem)
      → linux_reuseport_select (meta_of d) n ≡ o
      → Safe (IsFor n) n s
      → Safe (IsFor n) n (state_of (selected r d o s))
  unfolding selected
  selected-Safe r d (err x) s e h = h
  selected-Safe r d (ok w) s e h = offer-Safe (IsFor n) n w _ r.open_ r.finished s e h

  received-Safe :
      (r : Round Datagram) (a : Result IoError Datagram) (s : Router UdpWorkItem)
      → Safe (IsFor n) n s
      → Safe (IsFor n) n (state_of (received n r a s))
  unfolding received
  received-Safe r (err e) s h =
      while_active_cases (λ f. Safe (IsFor n) n (state_of f)) r.after s (next s) h h
  received-Safe r (ok d) s h =
      while_active_cases (λ f. Safe (IsFor n) n (state_of f)) r.after s _ h
        (selected-Safe r d _ s refl h)

  round-Safe :
      (r : Round Datagram) (s : Router UdpWorkItem)
      → Safe (IsFor n) n s
      → Safe (IsFor n) n (state_of (simulated_udp_listener_round n r s))
  unfolding simulated_udp_listener_round
  round-Safe r s h =
      while_active_cases (λ f. Safe (IsFor n) n (state_of f)) r.at_head s _ h
        (received-Safe r r.received s h)

  -- Whatever the environment does, the simulated UDP listener only ever sends a datagram to the
  -- worker that the hash of its addresses selects, and no worker's counter is ever above its limit.
  pub udp_loop-Safe :
      (max : Option ℕ) (rounds : List (Round Datagram))
      → Safe (IsFor n) n (state_of (simulated_udp_listener_loop n rounds (start n max)))
  unfolding simulated_udp_listener_loop
  udp_loop-Safe max rounds =
      run-keeps (simulated_udp_listener_round n) (Safe (IsFor n) n) round-Safe rounds _
        (start-Safe (IsFor n) n max)

  with_item-Below :
      (item : UdpWorkItem) (m : PacketMeta) (o : Result Error ℕ)
      → linux_reuseport_select m n ≡ o
      → Below n (with_item item o)
  with_item-Below item m (err x) e = tt
  with_item-Below item m (ok w) e = linux_reuseport_select-lt m n e

  answer_dest-Below : (a : Result IoError Datagram) → Below n (answer_dest a)
  answer_dest-Below (err e) = tt
  answer_dest-Below (ok d) = with_item-Below (work_item d) (meta_of d) _ refl

module _ (n : ℕ) (pos : 0 < n) where
  selected-forward :
      (r : Round Datagram) (d : Datagram) (o : Result Error ℕ) (s : Router UdpWorkItem)
      → linux_reuseport_select (meta_of d) n ≡ o
      → r.open_ ≡ true
      → selected r d o s ≡ forward n (with_item (work_item d) o) r.finished s
  unfolding selected
  selected-forward r d (err x) s f e = absurd (linux_reuseport_select_ok (meta_of d) n pos x f)
  selected-forward r d (ok w) s f e = ap (λ b. offer w (work_item d) b (finish_all r.finished s)) e

  received-forward :
      (r : Round Datagram) (a : Result IoError Datagram) (s : Router UdpWorkItem)
      → RoundIsActive r
      → received n r a s ≡ forward n (answer_dest n a) r.finished s
  unfolding received
  received-forward r (err e) s g = while_active_set r.after s (next s) g.1
  received-forward r (ok d) s g =
      while_active_set r.after s _ g.1 ∙ selected-forward r d _ s refl g.2

  round-forward :
      (r : Round Datagram) (s : Router UdpWorkItem)
      → RoundIsActive r
      → simulated_udp_listener_round n r s ≡ forward n (dest n r) r.finished s
  unfolding simulated_udp_listener_round
  round-forward r s g = while_active_set r.at_head s _ g.0 ∙ received-forward r r.received s g

  -- With at least one worker, the simulated UDP listener does not end while the flags are set and
  -- the workers' channels open, whatever it receives and whether the workers are full or not.
  pub udp_loop-next :
      (max : Option ℕ) (rounds : List (Round Datagram))
      → All RoundIsActive rounds
      → (t : Router UdpWorkItem) × (simulated_udp_listener_loop n rounds (start n max) ≡ next t)
        × Fits n t
  unfolding simulated_udp_listener_loop
  udp_loop-next max rounds g =
      run-next (simulated_udp_listener_round n) (Fits n) RoundIsActive
        (λ r s g h.
          let (t, e, p) =
            forward-next n (dest n r) r.finished s (answer_dest-Below n r.received) h in
          (t, round-forward r s g ∙ e, p))
        rounds _ g (start-Fits UdpWorkItem n max)

  -- Without limits, with at least one worker, while the flags are set and the channels open, each
  -- worker is sent exactly the datagrams that select it, each once and in the order received.
  pub udp_loop-delivered :
      (rounds : List (Round Datagram)) (w : ℕ)
      → All RoundIsActive rounds
      → w < n
      → get_elem? (state_of (simulated_udp_listener_loop n rounds (start n none))).sent w
        ≡ some (free (delivered (dest n) w rounds))
  unfolding simulated_udp_listener_loop
  udp_loop-delivered =
      run-delivered n (simulated_udp_listener_round n) (dest n) (λ r. r.finished) RoundIsActive
        round-forward (λ r g. answer_dest-Below n r.received)
