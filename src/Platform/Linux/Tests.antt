-- ===== src/Platform/Linux/Tests.antt =====
-- The shape tests of src/platform/linux.rs, runs of the two programs, and their theorems at a packet.
use sfo_reuseport.Prelude.{ℕ, false, ◌≡◌, ◌<◌, refl, List, [], ◌∷◌, some, get_elem?, length, arith}
use sfo_reuseport.Platform.Bpf.{run}
use sfo_reuseport.Quic.Route.{quic_worker_index}
use sfo_reuseport.Platform.Linux.Cbpf
use sfo_reuseport.Platform.Linux.Ebpf
use sfo_reuseport.Platform.Linux.Ebpf.Verdict.{
  UdpHeader, datagram, returned, calls_helper, quic_reuseport_ebpf-returned,
}

abbrev long_packet : List ℕ
long_packet = 0xe0 ∷ 0 ∷ 0 ∷ 0 ∷ 1 ∷ 4 ∷ 0 ∷ 2 ∷ 9 ∷ 9 ∷ []

abbrev short_packet : List ℕ
short_packet = 0x40 ∷ 1 ∷ 3 ∷ 2 ∷ 3 ∷ []

cbpf_shape :
    (get_elem? (Cbpf.quic_reuseport_cbpf 4) 1 ≡ some (Cbpf.sock_filter 0x45 0 2 0x80))
    × (get_elem? (Cbpf.quic_reuseport_cbpf 4) 5 ≡ some (Cbpf.sock_filter 0x94 0 0 4))
unfolding Cbpf.quic_reuseport_cbpf
cbpf_shape = (refl, refl)

ebpf_shape :
    (length (Ebpf.quic_reuseport_ebpf 4) ≡ 34)
    × (get_elem? (Ebpf.quic_reuseport_ebpf 4) 0 ≡ some (Ebpf.bpf_insn 0xbf 6 1 0 0))
    × (get_elem? (Ebpf.quic_reuseport_ebpf 4) 8 ≡ some (Ebpf.bpf_insn 0x15 0 0 14 0))
    × (get_elem? (Ebpf.quic_reuseport_ebpf 4) 17 ≡ some (Ebpf.bpf_insn 0x71 0 2 6 0))
    × (get_elem? (Ebpf.quic_reuseport_ebpf 4) 21 ≡ some (Ebpf.bpf_insn 0x97 0 0 0 4))
    × (get_elem? (Ebpf.quic_reuseport_ebpf 4) 33 ≡ some (Ebpf.bpf_insn 0x95 0 0 0 0))
unfolding Ebpf.quic_reuseport_ebpf
ebpf_shape = (refl, refl, refl, refl, refl, refl)

cbpf_run :
    (Cbpf.Laws.select (Cbpf.documented long_packet) 4 ≡ some 2)
    × (Cbpf.Laws.select (Cbpf.documented short_packet) 4 ≡ some 3)
unfolding run Cbpf.quic_reuseport_cbpf Cbpf.documented
cbpf_run = (refl, refl)

-- A datagram from port 50000 to port 4433, of 18 bytes with the checksum 1025.
abbrev header : UdpHeader
header = record { source = 50000; destination = 4433; size = 18; checksum = 1025 }

abbrev from_header : List ℕ
from_header = datagram header long_packet

ebpf_run : Ebpf.Laws.select (Ebpf.documented from_header) 4 ≡ some 1
unfolding run Ebpf.quic_reuseport_ebpf Ebpf.documented
ebpf_run = refl

quic_reuseport_cbpf_selects_example :
    ((v : ℕ) × (Cbpf.Laws.select (Cbpf.documented long_packet) 4 ≡ some v) × (v < 4))
    × ((w : ℕ)
        → quic_worker_index long_packet 4 ≡ some w
        → Cbpf.Laws.select (Cbpf.documented long_packet) 4 ≡ some w)
quic_reuseport_cbpf_selects_example =
    Cbpf.Laws.quic_reuseport_cbpf_selects 4 (omega arith) (omega arith) long_packet
      (Cbpf.documented long_packet) (omega arith) (λ i s o h. h)

quic_reuseport_ebpf-returned_example :
    (Ebpf.Laws.select (Ebpf.documented from_header) 4 ≡ some (returned 4 header))
    × (calls_helper (Ebpf.quic_reuseport_ebpf 4) ≡ false)
quic_reuseport_ebpf-returned_example =
    quic_reuseport_ebpf-returned 4 (omega arith) (omega arith) header long_packet
      (Ebpf.documented from_header) (omega arith, omega arith, omega arith, omega arith)
      (λ i s o h. h)
