-- ===== src/Platform/Linux/Cbpf/Laws.antt =====
-- The classic BPF program selects the worker that the crate's own routing selects.
use sfo_reuseport.Prelude.{
  ℕ, ◌%◌, ◌^◌, ◌≤◌, ◌<◌, ◌≡◌, refl, List, [], ◌∷◌, Option, some, All, arith,
}
use native.Mathlib.Decide.{dec_lt}
use native.Mathlib.Nat.{mod-eq_of_lt}
use mathlib.Core.Path.{subst}
use sfo_reuseport.Prelude.Bits.{high_bit_short, high_bit_long}
use sfo_reuseport.Net.{IsByte}
use sfo_reuseport.Quic.Route.{quic_worker_index}
use sfo_reuseport.Quic.Route.Laws.{pair, Names, short, long, quic_worker_index_iff}
use sfo_reuseport.Platform.Bpf.{Outcome, run, Implements, run-Implements}
use sfo_reuseport.Platform.Linux.Cbpf.{SockFilter, State, initial, quic_reuseport_cbpf, documented}

-- The program on a packet: its seven instructions are each run at most once.
abbrev pub select : (SockFilter → State → Option (Outcome State)) → ℕ → Option ℕ
select step workers = run (λ s. s.pc) step (quic_reuseport_cbpf workers) 7 initial

module _ (workers : ℕ) (pos : 0 < workers) (fits : workers < 2 ^ 32) where
  cbpf_short :
      (flags hi lo : ℕ) (rest : List ℕ)
      → flags < 128
      → select (documented (flags ∷ hi ∷ lo ∷ rest)) workers ≡ some (pair hi lo % workers)
  unfolding run quic_reuseport_cbpf documented
  cbpf_short flags hi lo rest low = ground (arith, high_bit_short flags low, mod-eq_of_lt fits)

  cbpf_long :
      (flags v₁ v₂ v₃ v₄ n hi lo : ℕ) (rest : List ℕ)
      → 128 ≤ flags
      → flags < 256
      → select (documented (flags ∷ v₁ ∷ v₂ ∷ v₃ ∷ v₄ ∷ n ∷ hi ∷ lo ∷ rest)) workers
        ≡ some (pair hi lo % workers)
  unfolding run quic_reuseport_cbpf documented
  cbpf_long flags v₁ v₂ v₃ v₄ n hi lo rest high byte =
      ground (arith, high_bit_long flags high byte, mod-eq_of_lt fits)

  -- The socket that the program selects for a packet.
  abbrev InRange : List ℕ → Type 0
  InRange packet = (v : ℕ) × (select (documented packet) workers ≡ some v) × (v < workers)

  InRange-short : (flags : ℕ) (packet : List ℕ) → flags < 128 → InRange (flags ∷ packet)
  unfolding run quic_reuseport_cbpf documented
  InRange-short flags [] low = (0, ground (arith, high_bit_short flags low), pos)
  InRange-short flags (hi ∷ []) low = (0, ground (arith, high_bit_short flags low), pos)
  InRange-short flags (hi ∷ lo ∷ rest) low =
      (pair hi lo % workers, cbpf_short flags hi lo rest low, omega arith)

  InRange-long :
      (flags : ℕ) (packet : List ℕ) → 128 ≤ flags → flags < 256 → InRange (flags ∷ packet)
  unfolding run quic_reuseport_cbpf documented
  InRange-long flags (v₁ ∷ v₂ ∷ v₃ ∷ v₄ ∷ n ∷ hi ∷ lo ∷ rest) high byte =
      (pair hi lo % workers, cbpf_long flags v₁ v₂ v₃ v₄ n hi lo rest high byte, omega arith)
  InRange-long flags packet high byte = (0, ground (arith, high_bit_long flags high byte), pos)

  InRange_lem : (packet : List ℕ) → All IsByte packet → InRange packet
  unfolding run quic_reuseport_cbpf documented
  InRange_lem [] b = (0, refl, pos)
  InRange_lem (flags ∷ packet) b = elim (dec_lt flags 128) [
    | yes low ↦ InRange-short flags packet low
    | no high ↦ InRange-long flags packet (omega arith) b.0
  ]

  agrees :
      (packet : List ℕ) (w : ℕ)
      → All IsByte packet
      → Names workers w packet
      → select (documented packet) workers ≡ some w
  agrees packet w b (short flags hi lo rest e low at) = rw (e, at) (cbpf_short flags hi lo rest low)
  agrees packet w b (long flags v₁ v₂ v₃ v₄ n hi lo rest e high enough inside at) =
      let c = subst (All IsByte) e b in
      rw (e, at) (cbpf_long flags v₁ v₂ v₃ v₄ n hi lo rest high (omega arith))

  -- For at least one and fewer than 2^32 workers, on a machine that implements the documented
  -- instructions, the program ends on every packet of bytes with the index of one of the workers'
  -- sockets, and where the crate's own routing selects a worker it selects the same one.
  pub quic_reuseport_cbpf_selects :
      (packet : List ℕ) (step : SockFilter → State → Option (Outcome State))
      → All IsByte packet
      → Implements (documented packet) step
      → ((v : ℕ) × (select step workers ≡ some v) × (v < workers))
        × ((w : ℕ) → quic_worker_index packet workers ≡ some w → select step workers ≡ some w)
  quic_reuseport_cbpf_selects packet step b law = (total, same)
    where
      lift : (v : ℕ) → select (documented packet) workers ≡ some v → select step workers ≡ some v
      lift v =
          run-Implements (λ s. s.pc) (documented packet) step (quic_reuseport_cbpf workers) law 7
            initial v

      total : (v : ℕ) × (select step workers ≡ some v) × (v < workers)
      total = let (v, done, small) = InRange_lem packet b in (v, lift v done, small)

      same : (w : ℕ) → quic_worker_index packet workers ≡ some w → select step workers ≡ some w
      same w h = lift w (agrees packet w b ((quic_worker_index_iff workers pos packet w b).0 h))
