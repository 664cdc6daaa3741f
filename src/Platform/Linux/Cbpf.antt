-- ===== src/Platform/Linux/Cbpf.antt =====
-- src/platform/linux.rs: the classic BPF program that selects a socket of the reuse-port group.
pub mod Laws
use sfo_reuseport.Prelude.{
  ℕ, ◌+◌, ◌*◌, ◌%◌, ◌^◌, ◌==◌, bit_and, bit_or, List, [], ◌∷◌, Option, none, some, get_elem?,
  if◌then◌else◌,
}
use sfo_reuseport.Platform.Bpf.{Outcome, next, return}

pub record SockFilter : Type 0 where
  pub code : ℕ
  pub jt : ℕ
  pub jf : ℕ
  pub k : ℕ

unfoldable pub sock_filter : ℕ → ℕ → ℕ → ℕ → SockFilter
sock_filter code jt jf k = record { code = code; jt = jt; jf = jf; k = k }

-- The parts of an opcode, as the source names them; `a |. b |. c` is the source's `a | b | c`.
abbrev ld : ℕ
ld = 0x00

abbrev alu : ℕ
alu = 0x04

abbrev jmp : ℕ
jmp = 0x05

abbrev ret : ℕ
ret = 0x06

abbrev half : ℕ
half = 0x08

abbrev byte : ℕ
byte = 0x10

abbrev absolute : ℕ
absolute = 0x20

abbrev by_k : ℕ
by_k = 0x00

abbrev by_a : ℕ
by_a = 0x10

abbrev ja : ℕ
ja = 0x00

abbrev jset : ℕ
jset = 0x40

abbrev mod_op : ℕ
mod_op = 0x90

infixl 60 ◌∣∣◌
abbrev ◌∣∣◌ : ℕ → ℕ → ℕ
a ∣∣ b = bit_or a b

-- `workers as u32` keeps the low 32 bits.
unfoldable pub quic_reuseport_cbpf : ℕ → List SockFilter
unfolding sock_filter
quic_reuseport_cbpf workers =
    sock_filter (ld ∣∣ byte ∣∣ absolute) 0 0 0
    ∷ sock_filter (jmp ∣∣ jset ∣∣ by_k) 0 2 0x80
    ∷ sock_filter (ld ∣∣ half ∣∣ absolute) 0 0 6
    ∷ sock_filter (jmp ∣∣ ja) 0 0 1
    ∷ sock_filter (ld ∣∣ half ∣∣ absolute) 0 0 1
    ∷ sock_filter (alu ∣∣ mod_op ∣∣ by_k) 0 0 (workers % 2 ^ 32)
    ∷ sock_filter (ret ∣∣ by_a) 0 0 0
    ∷ []

-- The accumulator and the program counter of the kernel's machine.
pub record State : Type 0 where
  pub pc : ℕ
  pub acc : ℕ

abbrev pub initial : State
initial = record { pc = 0; acc = 0 }

-- A load of documented behaviour: past the end of the packet it ends the program with 0.
abbrev load : State → Option ℕ → Option (Outcome State)
load s none = some (return 0)
load s (some v) = some (next (record { pc = s.pc + 1; acc = v }))

abbrev word : Option ℕ → Option ℕ → Option ℕ
word (some hi) (some lo) = some (hi * 256 + lo)
word _ _ = none

-- What the instruction set documents of the instructions that the program uses, on the packet
-- `packet`. Numbers in a packet are big-endian; a jump counts from the next instruction.
unfoldable pub documented : List ℕ → SockFilter → State → Option (Outcome State)
documented packet i s =
    if i.code == 0x30
    then load s (get_elem? packet i.k)
    else if i.code == 0x28
    then load s (word (get_elem? packet i.k) (get_elem? packet (i.k + 1)))
    else if i.code == 0x45
    then some (next (record s { pc = s.pc + 1 + (if bit_and s.acc i.k == 0 then i.jf else i.jt) }))
    else if i.code == 0x05
    then some (next (record s { pc = s.pc + 1 + i.k }))
    else if i.code == 0x94
    then (if i.k == 0
        then some (return 0)
        else some (next (record { pc = s.pc + 1; acc = s.acc % i.k })))
    else if i.code == 0x16
    then some (return s.acc)
    else none
