-- ===== src/Platform/Linux/Ebpf/Laws.antt =====
-- Runs of the eBPF program on bytes that it takes for the two formats of a packet that names a worker: a
-- path over each of its tests.
use sfo_reuseport.Prelude.{
  ℕ, ◌+◌, ◌*◌, ◌%◌, ◌^◌, ◌≤◌, ◌<◌, ◌≡◌, refl, ne→==, bit_and, List, [], ◌∷◌, Option, some, Bool,
  if◌then◌else◌, length, arith, lt→ltb, le→ltb, bit_or,
}
use native.Mathlib.Nat.{mod-eq_of_lt}
use mathlib.Core.Path.{ap, ◌∙◌}
use sfo_reuseport.Prelude.Bits.{high_bit_clear, high_bit_long, shift_bit_or}
use sfo_reuseport.Quic.Route.Laws.{pair}
use sfo_reuseport.Platform.Bpf.{Outcome, next, run, run-next}
use sfo_reuseport.Platform.Linux.Ebpf.{
  BpfInsn, bpf_insn, State, Value, unset, ctx, packet_end, scalar, packet_at, initial,
  quic_reuseport_ebpf, documented,
}

abbrev pub select : (BpfInsn → State → Option (Outcome State)) → ℕ → Option ℕ
select step workers = run (λ s. s.pc) step (quic_reuseport_ebpf workers) 34 initial

abbrev pub at : ℕ → List Value → State
at pc regs = record { pc = pc; regs = regs }

-- The registers after the first instructions: the bounds of the packet, and what the arms change.
abbrev pub bank : Value → Value → Value → List Value
bank r₀ r₄ r₅ =
    r₀ ∷ ctx ∷ packet_at 0 ∷ packet_end ∷ r₄ ∷ r₅ ∷ ctx ∷ unset ∷ unset ∷ unset ∷ unset ∷ []

module _ (workers : ℕ) where
  abbrev pub from : List ℕ → ℕ → State → Option ℕ
  from packet fuel s = run (λ s. s.pc) (documented packet) (quic_reuseport_ebpf workers) fuel s

  -- A jump from `pc` over `off` instructions.
  abbrev pub jump : List ℕ → ℕ → ℕ → ℕ → List Value → Bool → Option ℕ
  jump packet fuel pc off regs b = from packet fuel (at (pc + 1 + (if b then off else 0)) regs)

module _ (workers : ℕ) (pos : 0 < workers) (fits : workers < 2 ^ 31) where
  -- The last two instructions of each arm: the remainder, and the exit.
  remainder :
      (packet : List ℕ) (v : ℕ) (rest : List Value) (pc : ℕ)
      → documented packet (bpf_insn 0x97 0 0 0 (workers % 2 ^ 32)) (at pc (scalar v ∷ rest))
        ≡ some (next (at (pc + 1) (scalar (v % workers) ∷ rest)))
  unfolding documented bpf_insn
  remainder packet v rest pc = rw (
    mod-eq_of_lt {n = workers} {m = 2 ^ 32} (omega arith),
    lt→ltb workers (2 ^ 31) fits,
    ne→== workers 0 (omega arith),
  )

  pub ebpf_short :
      (flags hi lo : ℕ) (rest : List ℕ)
      → flags < 128
      → hi < 256
      → lo < 256
      → select (documented (flags ∷ hi ∷ lo ∷ rest)) workers ≡ some (pair hi lo % workers)
  unfolding run quic_reuseport_ebpf documented bpf_insn
  ebpf_short flags hi lo rest low bh bl =
      ap (jump workers packet 28 5 26 (bank unset (packet_at 1) unset))
        (le→ltb (length packet) 1 (omega arith))
      ∙ ap (jump workers packet 25 8 14 (bank (scalar (bit_and flags 0x80)) (packet_at 1) unset))
          (high_bit_clear flags low)
      ∙ ap (jump workers packet 22 25 6 (bank (scalar (bit_and flags 0x80)) (packet_at 3) unset))
          (le→ltb (length packet) 3 (omega arith))
      ∙ run-next (λ s. s.pc) (documented packet) (quic_reuseport_ebpf workers) 17
          (at 30 (bank (scalar (bit_or (hi * 2 ^ 8 % 2 ^ 64) lo)) (scalar lo) unset)) _ _ refl
          (remainder packet (bit_or (hi * 2 ^ 8 % 2 ^ 64) lo) _ 30)
      ∙ ap (λ (v : ℕ). some (v % workers)) joined
    where
      packet : List ℕ
      packet = flags ∷ hi ∷ lo ∷ rest

      joined : bit_or (hi * 2 ^ 8 % 2 ^ 64) lo ≡ pair hi lo
      joined = rw (mod-eq_of_lt {n = hi * 256} {m = 2 ^ 64} (omega arith), shift_bit_or hi lo bl)

  pub ebpf_long :
      (flags v₁ v₂ v₃ v₄ n hi lo : ℕ) (rest : List ℕ)
      → 128 ≤ flags
      → flags < 256
      → 2 ≤ n
      → hi < 256
      → lo < 256
      → select (documented (flags ∷ v₁ ∷ v₂ ∷ v₃ ∷ v₄ ∷ n ∷ hi ∷ lo ∷ rest)) workers
        ≡ some (pair hi lo % workers)
  unfolding run quic_reuseport_ebpf documented bpf_insn
  ebpf_long flags v₁ v₂ v₃ v₄ n hi lo rest high byte enough bh bl =
      ap (jump workers packet 28 5 26 (bank unset (packet_at 1) unset))
        (le→ltb (length packet) 1 (omega arith))
      ∙ ap (jump workers packet 25 8 14 (bank bit (packet_at 1) unset))
          (high_bit_long flags high byte)
      ∙ ap (jump workers packet 22 11 20 (bank bit (packet_at 6) unset))
          (le→ltb (length packet) 6 (omega arith))
      ∙ ap (jump workers packet 20 13 18 (bank bit (scalar n) unset)) (le→ltb n 2 enough)
      ∙ ap (jump workers packet 17 16 15 (bank bit (scalar n) (packet_at 8)))
          (le→ltb (length packet) 8 (omega arith))
      ∙ run-next (λ s. s.pc) (documented packet) (quic_reuseport_ebpf workers) 12
          (at 21 (bank (scalar (bit_or (hi * 2 ^ 8 % 2 ^ 64) lo)) (scalar lo) (packet_at 8))) _ _
          refl (remainder packet (bit_or (hi * 2 ^ 8 % 2 ^ 64) lo) _ 21)
      ∙ ap (λ (v : ℕ). some (v % workers)) joined
    where
      packet : List ℕ
      packet = flags ∷ v₁ ∷ v₂ ∷ v₃ ∷ v₄ ∷ n ∷ hi ∷ lo ∷ rest

      bit : Value
      bit = scalar (bit_and flags 0x80)

      joined : bit_or (hi * 2 ^ 8 % 2 ^ 64) lo ≡ pair hi lo
      joined = rw (mod-eq_of_lt {n = hi * 256} {m = 2 ^ 64} (omega arith), shift_bit_or hi lo bl)
