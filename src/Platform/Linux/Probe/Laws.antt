-- ===== src/Platform/Linux/Probe/Laws.antt =====
-- The probe packet of a socket is routed to its worker, and what a successful probe has seen.
use mathlib.Core.Path.{subst}
use sfo_reuseport.Platform.Bpf.{Outcome, Implements}
use sfo_reuseport.Platform.Linux.Cbpf
use sfo_reuseport.Error.{IoError, Result, ok, err, ◌>>◌}
use sfo_reuseport.Prelude.{
  true, ◌==◌, ==_iff, Bool-cases, ◌⊎◌, inl, inr, sym, get_elem?, Option, none, if◌then◌else◌, ℕ,
  zero, suc, ◌+◌, ◌/◌, ◌%◌, ◌<◌, ◌≤◌, ◌≡◌, refl, ap, ◌∙◌, List, [], ◌∷◌, some, All, arith,
}
use sfo_reuseport.Net.{IsByte}
use sfo_reuseport.Quic.Route.{quic_worker_index}
use sfo_reuseport.Quic.Route.Laws.{pair, route_long}
use native.Mathlib.Nat.{mod-eq_of_lt}
use native.Mathlib.Decide.{ℕ_discrete}
use sfo_reuseport.Platform.Linux.Probe.{
  quic_reuseport_probe_packet, same_bytes, is_would_block, pass,
  quic_reuseport_selector_wait_for_probe, probe_each, quic_reuseport_selector_routes_probe, all_ok,
  quic_reuseport_selector_drain_probe_packets,
}

module _ (workers : ℕ) (fits : workers ≤ 65536) (i : ℕ) (here : i < workers) where
  probe-bytes : All IsByte (quic_reuseport_probe_packet i)
  unfolding quic_reuseport_probe_packet
  probe-bytes = omega arith

  probe-pair : pair (i % 65536 / 256) (i % 65536 % 256) % workers ≡ i
  probe-pair = ap (λ n. n % workers) (omega arith) ∙ mod-eq_of_lt {n = i} {m = workers} here

  probe-routed : quic_worker_index (quic_reuseport_probe_packet i) workers ≡ some i
  unfolding quic_reuseport_probe_packet
  probe-routed =
      route_long workers (omega arith) 0xe0 0 0 0 1 4 (i % 65536 / 256) (i % 65536 % 256)
        (0xa5 ∷ i % 65536 % 256 ∷ []) (omega arith) (omega arith) (omega arith) (omega arith)
        (omega arith)
      ∙ ap some probe-pair

  -- With at most 65536 workers, the probe packet for a worker's socket is one that the crate routes to
  -- that worker, and so does the classic BPF program, on a machine that implements the documented
  -- instructions.
  pub probe-selects :
      (step : Cbpf.SockFilter → Cbpf.State → Option (Outcome Cbpf.State))
      → Implements (Cbpf.documented (quic_reuseport_probe_packet i)) step
      → (quic_worker_index (quic_reuseport_probe_packet i) workers ≡ some i)
        × (Cbpf.Laws.select step workers ≡ some i)
  probe-selects step law = (
    probe-routed,
    (Cbpf.Laws.quic_reuseport_cbpf_selects workers (omega arith) (omega arith)
          (quic_reuseport_probe_packet i) step probe-bytes law).1
        i probe-routed,
  )

-- A pass that succeeds has found the probe at the expected socket.
pass-ok :
    (expected : ℕ) (probe : List ℕ) (index : ℕ) (answers : List (Result IoError (List ℕ)))
    → pass expected probe index answers ≡ some (ok tt)
    → (j : ℕ) × (packet : List ℕ) × (get_elem? answers j ≡ some (ok packet))
      × (index + j ≡ expected)
      × (same_bytes packet probe ≡ true)
unfolding pass
pass-ok expected probe index [] h = absurd (ground arith)
pass-ok expected probe index (err e ∷ answers) h = elim (Bool-cases (is_would_block e.kind)) [
  | inl blocks ↦
      let later = pass-ok expected probe (suc index) answers (
        ap (λ b. if b then pass expected probe (suc index) answers else some (err e)) (sym blocks)
        ∙ h) in
      let (j, packet, at, place, same) = later in (suc j, packet, at, omega (arith, place), same)
  | inr other ↦ absurd (ground (arith, other, h))
]
pass-ok expected probe index (ok packet ∷ answers) h = elim (Bool-cases (same_bytes packet probe)) [
  | inl same ↦ elim (Bool-cases (index == expected)) [
    | inl here ↦ (0, packet, refl, omega (arith, (==_iff index expected).0 here), same)
    | inr away ↦ absurd (ground (arith, same, away, h))
  ]
  | inr other ↦ absurd (ground (arith, other, h))
]

-- Where a pass or what follows it succeeds.
first_or_later :
    (o : Option (Result IoError (Unit {0}))) (later : Result IoError (Unit {0}))
    → (elim o [ none ↦ later | some outcome ↦ outcome ]) ≡ ok tt
    → (o ≡ some (ok tt)) ⊎ (later ≡ ok tt)
first_or_later none later h = inr h
first_or_later (some outcome) later h = inl (ap some h)

-- The wait succeeds only where, in one of the passes, the expected socket has received a packet with
-- the bytes of the probe.
pub wait_for_probe-ok :
    (expected : ℕ) (probe : List ℕ) (passes : List (List (Result IoError (List ℕ))))
    → quic_reuseport_selector_wait_for_probe expected probe passes ≡ ok tt
    → (k : ℕ) × (answers : List (Result IoError (List ℕ))) × (packet : List ℕ) × (get_elem? passes k
        ≡ some answers)
      × (get_elem? answers expected ≡ some (ok packet))
      × (same_bytes packet probe ≡ true)
unfolding quic_reuseport_selector_wait_for_probe
wait_for_probe-ok expected probe [] h = absurd (ground arith)
wait_for_probe-ok expected probe (answers ∷ passes) h =
    elim (first_or_later (pass expected probe 0 answers) _ h) [
      | inl now ↦
          let (j, packet, at, place, same) = pass-ok expected probe 0 answers now in
          let here : j ≡ expected = omega (arith, place) in
          (
            0,
            answers,
            packet,
            refl,
            subst (λ i. get_elem? answers i ≡ some (ok packet)) here at,
            same,
          )
      | inr later ↦
          let (k, found, packet, at, there, same) = wait_for_probe-ok expected probe passes later in
          (suc k, found, packet, at, there, same)
    ]

-- Each part of a sequence that succeeds has succeeded.
both_ok : (a b : Result IoError (Unit {0})) → (a >> b) ≡ ok tt → (a ≡ ok tt) × (b ≡ ok tt)
both_ok (ok tt) b h = (refl, h)
both_ok (err e) b h = absurd (ground arith)

module _ (send_to : List ℕ → Result IoError (Unit {0}))
    (waits : ℕ → List (List (Result IoError (List ℕ)))) where
  -- The socket has received its own probe, in one of the passes after it was sent.
  abbrev pub Received : ℕ → Type 0
  Received socket =
      (k : ℕ) × (answers : List (Result IoError (List ℕ))) × (packet : List ℕ) × (get_elem?
          (waits socket) k
        ≡ some answers)
      × (get_elem? answers socket ≡ some (ok packet))
      × (same_bytes packet (quic_reuseport_probe_packet socket) ≡ true)

  probe_each-ok :
      (from count : ℕ)
      → probe_each send_to waits from count ≡ ok tt
      → (socket : ℕ) → from ≤ socket
      → socket < from + count
      → Received socket
  unfolding probe_each
  probe_each-ok from zero h socket low high = absurd (omega (arith, low, high))
  probe_each-ok from (suc count) h socket low high =
      let (first, rest) = both_ok _ (probe_each send_to waits (suc from) count) h in
      let (_, waited) = both_ok (send_to (quic_reuseport_probe_packet from)) _ first in
      elim (ℕ_discrete from socket) [
        | yes here ↦
            subst Received here
              (wait_for_probe-ok from (quic_reuseport_probe_packet from) (waits from) waited)
        | no there ↦
            probe_each-ok (suc from) count rest socket (omega (arith, low, there))
              (omega (arith, high))
      ]

  -- The probe of the program succeeds only for at least one and at most 65536 sockets, and only where
  -- each of them has received the probe that was meant for it.
  pub routes_probe-ok :
      (bound : Result IoError (Unit {0})) (nonblocking : List (Result IoError (Unit {0})))
      (left : List (List (Result IoError (List ℕ)))) (sockets : ℕ)
      → quic_reuseport_selector_routes_probe send_to waits bound nonblocking left sockets ≡ ok tt
      → (0 < sockets) × (sockets ≤ 65536) × ((socket : ℕ) → socket < sockets → Received socket)
  unfolding quic_reuseport_selector_routes_probe
  routes_probe-ok bound nonblocking left sockets h =
      let (probed, _) = both_ok _ (quic_reuseport_selector_drain_probe_packets left) h in
      let (ready, each) = both_ok _ (probe_each send_to waits 0 sockets) probed in
      let (counted, _) = both_ok _ (all_ok nonblocking) ready in
      let (_, fits) = both_ok bound _ counted in
      (
        ground (arith, fits),
        ground (arith, fits),
        λ socket below. probe_each-ok 0 sockets each socket (omega arith) (omega (arith, below)),
      )
