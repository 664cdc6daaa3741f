-- ===== src/Platform/Linux/Ebpf.antt =====
-- src/platform/linux.rs: the eBPF program of the reuse-port group. It is loaded as a program of type
-- BPF_PROG_TYPE_SK_REUSEPORT: its packet, from the `data` of the context to `data_end`, is the datagram
-- from its UDP header on, and what it returns is SK_PASS (1) or the packet is dropped. A socket is selected
-- only by a helper, `bpf_sk_select_reuseport`.
pub mod Laws
pub mod Verdict
use sfo_reuseport.Prelude.{
  ℕ, ◌+◌, ◌*◌, ◌/◌, ◌%◌, ◌^◌, ◌==◌, ltb, bit_and, bit_or, List, [], ◌∷◌, Option, none, some, length,
  get_elem?, set, replicate, not, if◌then◌else◌,
}
use sfo_reuseport.Platform.Bpf.{Outcome, next, return}

-- `off` and `imm` are bit patterns of 16 and 32 bits.
pub record BpfInsn : Type 0 where
  pub code : ℕ
  pub dst_src : ℕ
  pub off : ℕ
  pub imm : ℕ

unfoldable pub bpf_insn : ℕ → ℕ → ℕ → ℕ → ℕ → BpfInsn
bpf_insn code dst src off imm = record {
  code = code;
  dst_src = bit_or dst (src * 16 % 256);
  off = off;
  imm = imm;
}

-- The parts of an opcode, as the source names them; `a ∣∣ b` is its `a | b`.
abbrev ldx : ℕ
ldx = 0x01

abbrev alu64 : ℕ
alu64 = 0x07

abbrev jmp : ℕ
jmp = 0x05

abbrev dw : ℕ
dw = 0x18

abbrev byte : ℕ
byte = 0x10

abbrev memory : ℕ
memory = 0x60

abbrev by_k : ℕ
by_k = 0x00

abbrev by_x : ℕ
by_x = 0x08

abbrev add_op : ℕ
add_op = 0x00

abbrev or_op : ℕ
or_op = 0x40

abbrev and_op : ℕ
and_op = 0x50

abbrev lsh_op : ℕ
lsh_op = 0x60

abbrev mod_op : ℕ
mod_op = 0x90

abbrev mov_op : ℕ
mov_op = 0xb0

abbrev jeq : ℕ
jeq = 0x10

abbrev jgt : ℕ
jgt = 0x20

abbrev jlt : ℕ
jlt = 0xa0

abbrev exit_op : ℕ
exit_op = 0x90

infixl 60 ◌∣∣◌
abbrev ◌∣∣◌ : ℕ → ℕ → ℕ
a ∣∣ b = bit_or a b

-- `workers as i32` keeps the low 32 bits.
unfoldable pub quic_reuseport_ebpf : ℕ → List BpfInsn
unfolding bpf_insn
quic_reuseport_ebpf workers =
    bpf_insn (alu64 ∣∣ mov_op ∣∣ by_x) 6 1 0 0
    ∷ bpf_insn (ldx ∣∣ dw ∣∣ memory) 2 6 0 0
    ∷ bpf_insn (ldx ∣∣ dw ∣∣ memory) 3 6 8 0
    ∷ bpf_insn (alu64 ∣∣ mov_op ∣∣ by_x) 4 2 0 0
    ∷ bpf_insn (alu64 ∣∣ add_op ∣∣ by_k) 4 0 0 1
    ∷ bpf_insn (jmp ∣∣ jgt ∣∣ by_x) 4 3 26 0
    ∷ bpf_insn (ldx ∣∣ byte ∣∣ memory) 0 2 0 0
    ∷ bpf_insn (alu64 ∣∣ and_op ∣∣ by_k) 0 0 0 0x80
    ∷ bpf_insn (jmp ∣∣ jeq ∣∣ by_k) 0 0 14 0
    ∷ bpf_insn (alu64 ∣∣ mov_op ∣∣ by_x) 4 2 0 0
    ∷ bpf_insn (alu64 ∣∣ add_op ∣∣ by_k) 4 0 0 6
    ∷ bpf_insn (jmp ∣∣ jgt ∣∣ by_x) 4 3 20 0
    ∷ bpf_insn (ldx ∣∣ byte ∣∣ memory) 4 2 5 0
    ∷ bpf_insn (jmp ∣∣ jlt ∣∣ by_k) 4 0 18 2
    ∷ bpf_insn (alu64 ∣∣ mov_op ∣∣ by_x) 5 2 0 0
    ∷ bpf_insn (alu64 ∣∣ add_op ∣∣ by_k) 5 0 0 8
    ∷ bpf_insn (jmp ∣∣ jgt ∣∣ by_x) 5 3 15 0
    ∷ bpf_insn (ldx ∣∣ byte ∣∣ memory) 0 2 6 0
    ∷ bpf_insn (alu64 ∣∣ lsh_op ∣∣ by_k) 0 0 0 8
    ∷ bpf_insn (ldx ∣∣ byte ∣∣ memory) 4 2 7 0
    ∷ bpf_insn (alu64 ∣∣ or_op ∣∣ by_x) 0 4 0 0
    ∷ bpf_insn (alu64 ∣∣ mod_op ∣∣ by_k) 0 0 0 (workers % 2 ^ 32)
    ∷ bpf_insn (jmp ∣∣ exit_op) 0 0 0 0
    ∷ bpf_insn (alu64 ∣∣ mov_op ∣∣ by_x) 4 2 0 0
    ∷ bpf_insn (alu64 ∣∣ add_op ∣∣ by_k) 4 0 0 3
    ∷ bpf_insn (jmp ∣∣ jgt ∣∣ by_x) 4 3 6 0
    ∷ bpf_insn (ldx ∣∣ byte ∣∣ memory) 0 2 1 0
    ∷ bpf_insn (alu64 ∣∣ lsh_op ∣∣ by_k) 0 0 0 8
    ∷ bpf_insn (ldx ∣∣ byte ∣∣ memory) 4 2 2 0
    ∷ bpf_insn (alu64 ∣∣ or_op ∣∣ by_x) 0 4 0 0
    ∷ bpf_insn (alu64 ∣∣ mod_op ∣∣ by_k) 0 0 0 (workers % 2 ^ 32)
    ∷ bpf_insn (jmp ∣∣ exit_op) 0 0 0 0
    ∷ bpf_insn (alu64 ∣∣ mov_op ∣∣ by_k) 0 0 0 0
    ∷ bpf_insn (jmp ∣∣ exit_op) 0 0 0 0
    ∷ []

-- What a register of the machine holds: a number, the context, a pointer to a byte of the packet,
-- or the pointer to its end.
pub data Value : Type 0 where
  unset ctx packet_end : Value
  scalar packet_at : ℕ → Value

pub record State : Type 0 where
  pub pc : ℕ
  pub regs : List Value

-- The context is in register 1 of eleven.
abbrev pub initial : State
initial = record { pc = 0; regs = unset ∷ ctx ∷ replicate 9 unset }

abbrev reg : State → ℕ → Value
reg s r = elim (get_elem? s.regs r) [ none ↦ unset | some v ↦ v ]

abbrev goto : State → ℕ → Option (Outcome State)
goto s pc = some (next (record s { pc = pc }))

-- Writes a register and goes on.
abbrev write : State → ℕ → Value → Option (Outcome State)
write s r v = some (next (record { pc = s.pc + 1; regs = set s.regs r v }))

abbrev byte_value : State → ℕ → Option ℕ → Option (Outcome State)
byte_value s r none = none
byte_value s r (some b) = write s r (scalar b)

-- The documented behaviour of the instructions that the program uses, where an operand is of the
-- kind that the instruction wants; the immediate is read without a sign. A call of a helper is not among
-- them.
abbrev move_x : State → ℕ → Value → Option (Outcome State)
move_x s r unset = none
move_x s r v = write s r v

-- The packet's bounds are the first two words of the context.
abbrev load_dw : State → ℕ → Value → ℕ → Option (Outcome State)
load_dw s r ctx off =
    if off == 0 then write s r (packet_at 0) else if off == 8 then write s r packet_end else none
load_dw s r _ off = none

abbrev load_b : List ℕ → State → ℕ → Value → ℕ → Option (Outcome State)
load_b packet s r (packet_at p) off = byte_value s r (get_elem? packet (p + off))
load_b packet s r _ off = none

abbrev add_k : State → ℕ → Value → ℕ → Option (Outcome State)
add_k s r (scalar n) k = write s r (scalar ((n + k) % 2 ^ 64))
add_k s r (packet_at p) k = write s r (packet_at (p + k))
add_k s r _ k = none

abbrev on_scalar : State → ℕ → Value → (ℕ → ℕ) → Option (Outcome State)
on_scalar s r (scalar n) f = write s r (scalar (f n))
on_scalar s r _ f = none

abbrev or_x : State → ℕ → Value → Value → Option (Outcome State)
or_x s r (scalar n) (scalar m) = write s r (scalar (bit_or n m))
or_x s r _ _ = none

-- A pointer behind the end of the packet jumps.
abbrev past_end : List ℕ → State → ℕ → Value → Value → Option (Outcome State)
past_end packet s off (packet_at p) packet_end =
    goto s (s.pc + 1 + (if ltb (length packet) p then off else 0))
past_end packet s off _ _ = none

abbrev jump_eq : State → ℕ → Value → ℕ → Option (Outcome State)
jump_eq s off (scalar n) k = goto s (s.pc + 1 + (if n == k then off else 0))
jump_eq s off _ k = none

abbrev jump_lt : State → ℕ → Value → ℕ → Option (Outcome State)
jump_lt s off (scalar n) k = goto s (s.pc + 1 + (if ltb n k then off else 0))
jump_lt s off _ k = none

abbrev leave : Value → Option (Outcome State)
leave (scalar n) = some (return n)
leave _ = none

unfoldable pub documented : List ℕ → BpfInsn → State → Option (Outcome State)
documented packet i s =
    let r : ℕ = i.dst_src % 16 in
    let x = reg s r in
    let y = reg s (i.dst_src / 16) in
    if not (ltb i.imm (2 ^ 31))
    then none
    else if i.code == 0xbf
    then move_x s r y
    else if i.code == 0xb7
    then write s r (scalar i.imm)
    else if i.code == 0x79
    then load_dw s r y i.off
    else if i.code == 0x71
    then load_b packet s r y i.off
    else if i.code == 0x07
    then add_k s r x i.imm
    else if i.code == 0x57
    then on_scalar s r x (λ n. bit_and n i.imm)
    else if i.code == 0x67
    then on_scalar s r x (λ n. n * 2 ^ i.imm % 2 ^ 64)
    else if i.code == 0x4f
    then or_x s r x y
    else if i.code == 0x97
    then (if i.imm == 0 then none else on_scalar s r x (λ n. n % i.imm))
    else if i.code == 0x2d
    then past_end packet s i.off x y
    else if i.code == 0x15
    then jump_eq s i.off x i.imm
    else if i.code == 0xa5
    then jump_lt s i.off x i.imm
    else if i.code == 0x95
    then leave (reg s 0)
    else none
