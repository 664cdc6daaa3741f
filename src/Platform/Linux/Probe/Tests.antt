-- ===== src/Platform/Linux/Probe/Tests.antt =====
-- The probe of the second of two sockets, and the theorems there.
use sfo_reuseport.Prelude.{ℕ, zero, ◌≡◌, ◌<◌, ◌≤◌, refl, List, [], ◌∷◌, some, arith}
use sfo_reuseport.Error.{IoError, would_block, Result, ok, err}
use sfo_reuseport.Quic.Route.{quic_worker_index}
use sfo_reuseport.Platform.Linux.Cbpf
use sfo_reuseport.Platform.Linux.Probe.{
  quic_reuseport_probe_packet, quic_reuseport_selector_wait_for_probe,
  quic_reuseport_selector_routes_probe,
}
use sfo_reuseport.Platform.Linux.Probe.Laws.{probe-selects, Received, routes_probe-ok}

abbrev probe : List ℕ
probe = 0xe0 ∷ 0 ∷ 0 ∷ 0 ∷ 1 ∷ 4 ∷ 0 ∷ 1 ∷ 0xa5 ∷ 1 ∷ []

probe_packet : quic_reuseport_probe_packet 1 ≡ probe
unfolding quic_reuseport_probe_packet
probe_packet = refl

probe-selects_example :
    (quic_worker_index (quic_reuseport_probe_packet 1) 2 ≡ some 1)
    × (Cbpf.Laws.select (Cbpf.documented (quic_reuseport_probe_packet 1)) 2 ≡ some 1)
probe-selects_example =
    probe-selects 2 (omega arith) 1 (omega arith) (Cbpf.documented (quic_reuseport_probe_packet 1))
      (λ i s o h. h)

-- Nothing arrives in the first pass; in the second the second socket has the probe.
abbrev passes : List (List (Result IoError (List ℕ)))
passes = (nothing ∷ nothing ∷ []) ∷ (nothing ∷ ok probe ∷ []) ∷ []
  where
    nothing : Result IoError (List ℕ)
    nothing = err (record { kind = would_block; message = [] })

arrives : quic_reuseport_selector_wait_for_probe 1 probe passes ≡ ok tt
unfolding quic_reuseport_selector_wait_for_probe
arrives = refl

-- Of two sockets each receives its own probe in the first pass.
abbrev waits : ℕ → List (List (Result IoError (List ℕ)))
waits zero = (ok (0xe0 ∷ 0 ∷ 0 ∷ 0 ∷ 1 ∷ 4 ∷ 0 ∷ 0 ∷ 0xa5 ∷ 0 ∷ []) ∷ []) ∷ []
waits _ = passes

both : quic_reuseport_selector_routes_probe (λ p. ok tt) waits (ok tt) [] [] 2 ≡ ok tt
unfolding quic_reuseport_selector_routes_probe
both = refl

routes_probe-ok_example :
    (0 < 2) × (2 ≤ 65536) × ((socket : ℕ) → socket < 2 → Received (λ p. ok tt) waits socket)
routes_probe-ok_example = routes_probe-ok (λ p. ok tt) waits (ok tt) [] [] 2 both
