-- ===== src/Platform/Linux/Ebpf/Verdict.antt =====
-- The eBPF program on a datagram. The `data` of a program of its type begins with the UDP header, so the
-- program takes the header's bytes for those of a QUIC packet.
use sfo_reuseport.Prelude.{
  ℕ, ◌+◌, ◌*◌, ◌/◌, ◌%◌, ◌^◌, ◌≤◌, ◌<◌, ◌≡◌, ◌==◌, ◌||◌, Bool, false, refl, le→ltb, lt→ltb, ltb,
  bit_and, List, [], ◌∷◌, Option, some, length, ap, ◌∙◌, if◌then◌else◌, arith,
}
use native.Mathlib.Decide.{dec_lt}
use sfo_reuseport.Prelude.Bits.{high_bit_long}
use sfo_reuseport.Platform.Bpf.{Outcome, run, Implements, run-Implements}
use sfo_reuseport.Platform.Linux.Ebpf.{
  BpfInsn, bpf_insn, State, Value, unset, scalar, packet_at, initial, quic_reuseport_ebpf,
  documented,
}
use sfo_reuseport.Platform.Linux.Ebpf.Laws.{select, bank, jump, ebpf_short, ebpf_long}

-- A UDP datagram: the header of eight bytes (RFC 768), each field in network order, and the payload.
pub record UdpHeader : Type 0 where
  pub source : ℕ
  pub destination : ℕ
  pub size : ℕ
  pub checksum : ℕ

abbrev pub UdpHeaderIsValid : UdpHeader → Type 0
UdpHeaderIsValid h =
    (h.source < 65536) × (h.destination < 65536) × (h.size < 65536) × (h.checksum < 65536)

abbrev pub datagram : UdpHeader → List ℕ → List ℕ
datagram h payload =
    h.source / 256
    ∷ h.source % 256
    ∷ h.destination / 256
    ∷ h.destination % 256
    ∷ h.size / 256
    ∷ h.size % 256
    ∷ h.checksum / 256
    ∷ h.checksum % 256
    ∷ payload

-- What the program returns: by the low byte of the source port and the high byte of the destination port
-- where the source port is below 2^15, and otherwise by the checksum, or nothing where the low byte of
-- the length is below two.
abbrev pub returned : ℕ → UdpHeader → ℕ
returned workers h =
    if ltb h.source 32768
    then (h.source % 256 * 256 + h.destination / 256) % workers
    else if ltb (h.size % 256) 2
    then 0
    else h.checksum % workers

-- Whether an instruction calls a helper, such as the one that selects a socket.
abbrev pub calls_helper : List BpfInsn → Bool
calls_helper [] = false
calls_helper (i ∷ program) = i.code == 0x85 || calls_helper program

module _ (workers : ℕ) (pos : 0 < workers) (fits : workers < 2 ^ 31) where
  abbrev bit : ℕ → Value
  bit flags = scalar (bit_and flags 0x80)

  -- Where the byte that the program takes for a length is below two.
  short_id :
      (flags v₁ v₂ v₃ v₄ n : ℕ) (packet : List ℕ)
      → 128 ≤ flags
      → flags < 256
      → n < 2
      → select (documented (flags ∷ v₁ ∷ v₂ ∷ v₃ ∷ v₄ ∷ n ∷ packet)) workers ≡ some 0
  unfolding run quic_reuseport_ebpf documented bpf_insn
  short_id flags v₁ v₂ v₃ v₄ n packet high byte few =
      ap (jump workers whole 28 5 26 (bank unset (packet_at 1) unset))
        (le→ltb (length whole) 1 (omega arith))
      ∙ ap (jump workers whole 25 8 14 (bank (bit flags) (packet_at 1) unset))
          (high_bit_long flags high byte)
      ∙ ap (jump workers whole 22 11 20 (bank (bit flags) (packet_at 6) unset))
          (le→ltb (length whole) 6 (omega arith))
      ∙ ap (jump workers whole 20 13 18 (bank (bit flags) (scalar n) unset)) (lt→ltb n 2 few)
    where
      whole : List ℕ
      whole = flags ∷ v₁ ∷ v₂ ∷ v₃ ∷ v₄ ∷ n ∷ packet

  documented-returned :
      (h : UdpHeader) (payload : List ℕ)
      → UdpHeaderIsValid h
      → select (documented (datagram h payload)) workers ≡ some (returned workers h)
  documented-returned h payload (vs, vd, vl, vc) = elim (dec_lt h.source 32768) [
    | yes low ↦ rw (lt→ltb h.source 32768 low) (
        ebpf_short workers pos fits (h.source / 256) (h.source % 256) (h.destination / 256) _
          (omega (arith, low)) (omega arith) (omega (arith, vd))
        ∙ ap (λ n. some (n % workers)) (omega arith))
    | no high ↦ elim (dec_lt (h.size % 256) 2) [
      | yes few ↦
          rw (le→ltb h.source 32768 (omega (arith, high)), lt→ltb (h.size % 256) 2 few)
            (short_id (h.source / 256) (h.source % 256) (h.destination / 256) (h.destination % 256)
              (h.size / 256) (h.size % 256) _ (omega (arith, high)) (omega (arith, vs)) few)
      | no many ↦
          rw
            (
              le→ltb h.source 32768 (omega (arith, high)),
              le→ltb (h.size % 256) 2 (omega (arith, many)),
            )
            (ebpf_long workers pos fits (h.source / 256) (h.source % 256) (h.destination / 256)
                (h.destination % 256) (h.size / 256) (h.size % 256) (h.checksum / 256)
                (h.checksum % 256) payload (omega (arith, high)) (omega (arith, vs))
                (omega (arith, many)) (omega (arith, vc)) (omega arith)
              ∙ ap (λ n. some (n % workers)) (omega arith))
    ]
  ]

  none_called : calls_helper (quic_reuseport_ebpf workers) ≡ false
  unfolding quic_reuseport_ebpf bpf_insn
  none_called = refl

  -- For at least one and fewer than 2^31 workers, on a machine that implements the documented
  -- instructions, and on every UDP datagram, what the program returns is determined by the UDP header,
  -- whatever the payload: by the low byte of the source port and the high byte of the destination port,
  -- as one number modulo the workers, where the source port is below 2^15, and otherwise by the checksum
  -- modulo the workers, or zero where the low byte of the length is below two. No instruction calls a
  -- helper, so none selects a socket.
  pub quic_reuseport_ebpf-returned :
      (h : UdpHeader) (payload : List ℕ) (step : BpfInsn → State → Option (Outcome State))
      → UdpHeaderIsValid h
      → Implements (documented (datagram h payload)) step
      → (select step workers ≡ some (returned workers h))
        × (calls_helper (quic_reuseport_ebpf workers) ≡ false)
  quic_reuseport_ebpf-returned h payload step valid law = (
    run-Implements (λ s. s.pc) (documented (datagram h payload)) step (quic_reuseport_ebpf workers)
        law 34 initial (returned workers h) (documented-returned h payload valid),
    none_called,
  )
