-- ===== src/Quic/Route/RoundTrip.antt =====
-- Packets that carry a generated connection id reach the worker that generated it.
use sfo_reuseport.Prelude.{ℕ, ◌≤◌, ◌<◌, ◌≡◌, List, ◌∷◌, ◌++◌, some, length, length-append, arith}
use native.Mathlib.Nat.{mod-eq_of_lt}
use sfo_reuseport.Error.{Message, Result, ok}
use sfo_reuseport.Cid.{QuicCidGenerator, generate}
use sfo_reuseport.Cid.Laws.{IsValid, FillsBuffer, generate-IsCid}
use sfo_reuseport.Quic.Route.{quic_worker_index}
use sfo_reuseport.Quic.Route.Laws.{route_short, route_long}

-- A packet with a short header: the connection id follows the flags.
abbrev pub short_packet : ℕ → List ℕ → List ℕ → List ℕ
short_packet flags cid rest = flags ∷ (cid ++ rest)

-- A packet with a long header: flags, version, length of the connection id, connection id.
abbrev pub long_packet : ℕ → ℕ → ℕ → ℕ → ℕ → List ℕ → List ℕ → List ℕ
long_packet flags v₁ v₂ v₃ v₄ cid rest = flags ∷ v₁ ∷ v₂ ∷ v₃ ∷ v₄ ∷ length cid ∷ (cid ++ rest)

module _ (fill : List ℕ → Result Message (List ℕ)) (fills : FillsBuffer fill) (g : QuicCidGenerator)
    (valid : IsValid g) (workers : ℕ) (here : g.worker_index < workers) (cid : List ℕ)
    (made : generate fill g ≡ ok cid) where
  -- A packet with a short header and a connection id that a valid generator made is routed to the
  -- generator's worker, if that worker exists and the random source fills buffers with bytes.
  pub short-generate :
      (flags : ℕ) (rest : List ℕ)
      → flags < 128
      → quic_worker_index (short_packet flags cid rest) workers ≡ some g.worker_index
  short-generate flags rest low =
      let c = generate-IsCid fill g valid fills made in
      let (hi, lo, tail, e, at, _, byte) = c.carries in
      rw e (
        rw (
          route_short workers (omega arith) flags hi lo (tail ++ rest) low byte,
          at,
          mod-eq_of_lt here,
        ))

  -- A packet with a long header that has the length of a connection id that a valid generator made,
  -- and the whole of it, is routed to the generator's worker, if that worker exists and the random
  -- source fills buffers with bytes.
  pub long-generate :
      (flags v₁ v₂ v₃ v₄ : ℕ) (rest : List ℕ)
      → 128 ≤ flags
      → flags < 256
      → quic_worker_index (long_packet flags v₁ v₂ v₃ v₄ cid rest) workers ≡ some g.worker_index
  long-generate flags v₁ v₂ v₃ v₄ rest high byte' =
      let c = generate-IsCid fill g valid fills made in
      let (hi, lo, tail, e, at, _, byte) = c.carries in
      let fits = length-append tail rest in
      rw e (
        rw (
          route_long workers (omega arith) flags v₁ v₂ v₃ v₄ (length (hi ∷ lo ∷ tail)) hi lo
              (tail ++ rest) high byte' (omega arith) (omega arith) byte,
          at,
          mod-eq_of_lt here,
        ))
