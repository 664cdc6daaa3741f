-- ===== src/Tcp/Simulated/Laws.antt =====
-- The simulated TCP listener sends every connection to the worker that its addresses select.
use mathlib.Core.Path.{subst}
use sfo_reuseport.Prelude.{
  ℕ, zero, suc, ◌+◌, ◌-◌, ◌%◌, gt→leb, arith, ◌<◌, ◌≡◌, refl, ap, ◌∙◌, true, List, Option, none,
  some, get_elem?, All,
}
use sfo_reuseport.Error.{Error, IoError, Result, ok, err, is_ok, ◌>>=◌}
use sfo_reuseport.Schedule.{linux_reuseport_select, write_bytes, fnv_offset}
use sfo_reuseport.Schedule.Bytes.{meta_bytes}
use sfo_reuseport.Schedule.Laws.{linux_reuseport_select_lem}
use sfo_reuseport.Tcp.Simulated.{
  select_simulated_tcp_worker, meta_of, selected, accepted, simulated_tcp_accept_round,
  simulated_tcp_accept_loop,
}
use sfo_reuseport.Net.{SocketAddr, PacketMeta}
use sfo_reuseport.Dispatch.{Round, next, state_of, run, Router, offer, finish_all}
use sfo_reuseport.Dispatch.Laws.{Fits, while_active_cases, while_active_set}
use sfo_reuseport.Dispatch.Runs.{run-keeps, run-next}
use sfo_reuseport.Dispatch.Progress.{start, start-Fits}
use sfo_reuseport.Dispatch.Delivery.{forward, Below, free, delivered, run-delivered}
use sfo_reuseport.Dispatch.Rounds.{Safe, RoundIsActive, start-Safe, offer-Safe, forward-next}

-- With workers the selection succeeds, and worker 0, which accepts, is selected only where it is the
-- only worker.
pub select_simulated_tcp_worker_lem :
    (m : PacketMeta) (n : ℕ)
    → 0 < n
    → (w : ℕ) × (select_simulated_tcp_worker m n ≡ ok w) × (w < n) × (1 < n → 0 < w)
unfolding select_simulated_tcp_worker
select_simulated_tcp_worker_lem m zero pos = absurd (omega (arith, pos))
select_simulated_tcp_worker_lem m (suc zero) pos =
    let (run, below) = (linux_reuseport_select_lem m 1).1 (omega arith) in
    (_, run, below, λ h. omega (arith, h))
select_simulated_tcp_worker_lem m (suc (suc k)) pos =
    let (run, below) = (linux_reuseport_select_lem m (suc k)).1 (omega arith) in
    let pred : suc (suc k) - 1 ≡ suc k = omega arith in
    (
      write_bytes fnv_offset (meta_bytes m) % suc k + 1,
      rw (gt→leb (suc (suc k)) 1 (omega arith), pred) (ap (λ o. o >>= λ w. ok (w + 1)) run),
      omega arith,
      λ h. omega arith,
    )

select-lt :
    (m : PacketMeta) (n w : ℕ) → select_simulated_tcp_worker m n ≡ ok w → (w < n) × (1 < n → 0 < w)
unfolding select_simulated_tcp_worker linux_reuseport_select
select-lt m zero w e = absurd (ground arith)
select-lt m (suc n) w e =
    let (v, run, below, other) = select_simulated_tcp_worker_lem m (suc n) (omega arith) in
    let same : v ≡ w = cc in subst (λ u. (u < suc n) × (1 < suc n → 0 < u)) same (below, other)

-- The addresses of the connection from `peer_addr` select worker `w` of `n`, which is not the
-- accepting worker unless that is the only one.
abbrev pub IsFor : SocketAddr → ℕ → ℕ → SocketAddr → Type 0
IsFor local_addr n w peer_addr =
    (select_simulated_tcp_worker (meta_of local_addr peer_addr) n ≡ ok w) × (1 < n → 0 < w)

-- A round that finds the flags set and the channels open, and accepts a connection.
abbrev pub RoundAccepts : Round SocketAddr → Type 0
RoundAccepts r = RoundIsActive r × (is_ok r.received ≡ true)

-- The worker and the work item of a round that has received a datagram.
abbrev with_item : {A : Type 0} → A → Result Error ℕ → Option (ℕ × A)
with_item item (err _) = none
with_item item (ok w) = some (w, item)

module _ (local_addr : SocketAddr) (n : ℕ) where
  abbrev answer_dest : Result IoError SocketAddr → Option (ℕ × SocketAddr)
  answer_dest (err _) = none
  answer_dest (ok d) = with_item d (select_simulated_tcp_worker (meta_of local_addr d) n)

  abbrev pub dest : Round SocketAddr → Option (ℕ × SocketAddr)
  dest r = answer_dest r.received

  selected-Safe :
      (r : Round SocketAddr) (d : SocketAddr) (o : Result Error ℕ) (s : Router SocketAddr)
      → select_simulated_tcp_worker (meta_of local_addr d) n ≡ o
      → Safe (IsFor local_addr n) n s
      → Safe (IsFor local_addr n) n (state_of (selected r d o s))
  unfolding selected
  selected-Safe r d (err x) s e h = h
  selected-Safe r d (ok w) s e h =
      offer-Safe (IsFor local_addr n) n w d r.open_ r.finished s (e, (select-lt _ n w e).1) h

  accepted-Safe :
      (r : Round SocketAddr) (a : Result IoError SocketAddr) (s : Router SocketAddr)
      → Safe (IsFor local_addr n) n s
      → Safe (IsFor local_addr n) n (state_of (accepted local_addr n r a s))
  unfolding accepted
  accepted-Safe r (err e) s h = h
  accepted-Safe r (ok d) s h =
      while_active_cases (λ f. Safe (IsFor local_addr n) n (state_of f)) r.after s _ h
        (selected-Safe r d _ s refl h)

  round-Safe :
      (r : Round SocketAddr) (s : Router SocketAddr)
      → Safe (IsFor local_addr n) n s
      → Safe (IsFor local_addr n) n (state_of (simulated_tcp_accept_round local_addr n r s))
  unfolding simulated_tcp_accept_round
  round-Safe r s h =
      while_active_cases (λ f. Safe (IsFor local_addr n) n (state_of f)) r.at_head s _ h
        (accepted-Safe r r.received s h)

  -- Whatever the environment does, the accepting worker only ever gives a connection to
  -- the worker that the hash of its addresses selects, never to itself while there is another, and no
  -- worker's counter is ever above its limit.
  pub tcp_loop-Safe :
      (max : Option ℕ) (rounds : List (Round SocketAddr))
      → Safe
          (IsFor local_addr n)
          n
          (state_of (simulated_tcp_accept_loop local_addr n rounds (start n max)))
  unfolding simulated_tcp_accept_loop
  tcp_loop-Safe max rounds =
      run-keeps (simulated_tcp_accept_round local_addr n) (Safe (IsFor local_addr n) n) round-Safe
        rounds _ (start-Safe (IsFor local_addr n) n max)

  with_item-Below :
      (item : SocketAddr) (m : PacketMeta) (o : Result Error ℕ)
      → select_simulated_tcp_worker m n ≡ o
      → Below n (with_item item o)
  with_item-Below item m (err x) e = tt
  with_item-Below item m (ok w) e = (select-lt m n w e).0

  answer_dest-Below : (a : Result IoError SocketAddr) → Below n (answer_dest a)
  answer_dest-Below (err e) = tt
  answer_dest-Below (ok d) = with_item-Below d (meta_of local_addr d) _ refl

module _ (local_addr : SocketAddr) (n : ℕ) (pos : 0 < n) where
  selected-forward :
      (r : Round SocketAddr) (d : SocketAddr) (o : Result Error ℕ) (s : Router SocketAddr)
      → select_simulated_tcp_worker (meta_of local_addr d) n ≡ o
      → r.open_ ≡ true
      → selected r d o s ≡ forward n (with_item d o) r.finished s
  unfolding selected
  selected-forward r d (err x) s f e =
      let (v, run, _, _) = select_simulated_tcp_worker_lem (meta_of local_addr d) n pos in
      absurd (ground (arith, run, f))
  selected-forward r d (ok w) s f e = ap (λ b. offer w d b (finish_all r.finished s)) e

  accepted-forward :
      (r : Round SocketAddr) (a : Result IoError SocketAddr) (s : Router SocketAddr)
      → RoundIsActive r
      → is_ok a ≡ true
      → accepted local_addr n r a s ≡ forward n (answer_dest local_addr n a) r.finished s
  unfolding accepted
  accepted-forward r (err e) s g a = absurd (ground arith)
  accepted-forward r (ok d) s g a =
      while_active_set r.after s _ g.1 ∙ selected-forward r d _ s refl g.2

  round-forward :
      (r : Round SocketAddr) (s : Router SocketAddr)
      → RoundAccepts r
      → simulated_tcp_accept_round local_addr n r s ≡ forward n (dest local_addr n r) r.finished s
  unfolding simulated_tcp_accept_round
  round-forward r s g =
      while_active_set r.at_head s _ g.0.0 ∙ accepted-forward r r.received s g.0 g.1

  -- With at least one worker, the simulated TCP listener does not end while the flags are set,
  -- the workers' channels open and a connection is accepted in each round, whether the workers are
  -- full or not.
  pub tcp_loop-next :
      (max : Option ℕ) (rounds : List (Round SocketAddr))
      → All RoundAccepts rounds
      → (t : Router SocketAddr) × (simulated_tcp_accept_loop local_addr n rounds (start n max)
          ≡ next t)
        × Fits n t
  unfolding simulated_tcp_accept_loop
  tcp_loop-next max rounds g =
      run-next (simulated_tcp_accept_round local_addr n) (Fits n) RoundAccepts
        (λ r s g h.
          let (t, e, p) =
            forward-next n (dest local_addr n r) r.finished s
              (answer_dest-Below local_addr n r.received) h in
          (t, round-forward r s g ∙ e, p))
        rounds _ g (start-Fits SocketAddr n max)

  -- Without limits, with at least one worker, while the flags are set, the channels open and a
  -- connection is accepted in each round, each worker is sent exactly the connections that select it,
  -- each once and in the order accepted.
  pub tcp_loop-delivered :
      (rounds : List (Round SocketAddr)) (w : ℕ)
      → All RoundAccepts rounds
      → w < n
      → get_elem? (state_of (simulated_tcp_accept_loop local_addr n rounds (start n none))).sent w
        ≡ some (free (delivered (dest local_addr n) w rounds))
  unfolding simulated_tcp_accept_loop
  tcp_loop-delivered =
      run-delivered n (simulated_tcp_accept_round local_addr n) (dest local_addr n)
        (λ r. r.finished) RoundAccepts round-forward
        (λ r g. answer_dest-Below local_addr n r.received)
