-- ===== src/Platform/Linux/Attach/Laws.antt =====
-- A program is attached by the calls below and no others, and its descriptor is closed on every path.
use sfo_reuseport.Prelude.{
  ℕ, ◌≡◌, refl, sym, ap, ◌∙◌, ◌==◌, List, [], ◌∷◌, ◌++◌, Option, none, some, if◌then◌else◌, arith,
}
use mathlib.Core.List.{append_assoc, append-nil}
use sfo_reuseport.Error.{
  Error, IoError, unsupported_platform_option, text, from_io, Result, ok, err, map_err,
}
use mathlib.Core.Path.{subst}
use sfo_reuseport.Platform.Linux.Ebpf.{quic_reuseport_ebpf}
use sfo_reuseport.Platform.Linux.Attach.{
  Arch, BpfProgLoadAttr, x86_64, aarch64, riscv64, arm, powerpc64, s390x, other, sys_bpf_number,
  Syscall, bpf, attach_fd, attach_filter, close, Event, Kernel, Logged, bpf_prog_load, attr_of,
  attach_result, load_with, load_quic_reuseport_ebpf, attach_loaded, attach_quic_reuseport_ebpf,
}

remove : ℕ → List ℕ → List ℕ
remove fd [] = []
remove fd (x ∷ xs) = if x == fd then xs else x ∷ remove fd xs

-- The descriptors of programs that are open after a call. Linux releases a descriptor that is closed
-- whatever it answers.
abbrev after_event : Syscall → Result IoError ℕ → List ℕ → List ℕ
after_event (bpf number command attr) (ok fd) open_before = fd ∷ open_before
after_event (bpf number command attr) (err e) open_before = open_before
after_event (attach_fd socket name fd) answer open_before = open_before
after_event (attach_filter socket name program) answer open_before = open_before
after_event (close fd) answer open_before = remove fd open_before

unfoldable pub open_programs : List ℕ → List Event → List ℕ
unfolding remove
open_programs fds [] = fds
open_programs fds (e ∷ es) = open_programs (after_event e.call e.answer fds) es

open_programs-append :
    (fds : List ℕ) (xs ys : List Event)
    → open_programs fds (xs ++ ys) ≡ open_programs (open_programs fds xs) ys
unfolding open_programs
open_programs-append fds [] ys = refl
open_programs-append fds (x ∷ xs) ys = open_programs-append (after_event x.call x.answer fds) xs ys

remove-head : (fd : ℕ) (fds : List ℕ) → remove fd (fd ∷ fds) ≡ fds
unfolding remove
remove-head fd fds = ground arith

abbrev pub event : Syscall → Result IoError ℕ → Event
event c answer = record { call = c; answer = answer }

-- The number of `bpf` in the kernel's table of system calls of an architecture.
abbrev pub in_table : Arch → Option ℕ
in_table x86_64 = some 321
in_table aarch64 = some 280
in_table riscv64 = some 280
in_table arm = some 386
in_table powerpc64 = some 361
in_table s390x = some 351
in_table other = none

in_table_lem : (arch : Arch) → sys_bpf_number arch ≡ in_table arch
unfolding sys_bpf_number
in_table_lem x86_64 = refl
in_table_lem aarch64 = refl
in_table_lem riscv64 = refl
in_table_lem arm = refl
in_table_lem powerpc64 = refl
in_table_lem s390x = refl
in_table_lem other = refl

-- The attributes load the program for so many workers, all 34 instructions of it, as one that selects a
-- socket of a reuse-port group (BPF_PROG_TYPE_SK_REUSEPORT), under the GPL.
pub record IsWhole (workers : ℕ) (attr : BpfProgLoadAttr) : Type 0 where
  pub of_type : attr.prog_type ≡ 21
  pub of_length : attr.insn_cnt ≡ 34
  pub of_program : attr.insns ≡ quic_reuseport_ebpf workers
  pub of_license : attr.license ≡ 0x47 ∷ 0x50 ∷ 0x4c ∷ 0 ∷ []

attr_of-IsWhole : (workers : ℕ) → IsWhole workers (attr_of workers)
unfolding attr_of quic_reuseport_ebpf
attr_of-IsWhole workers = record {
  of_type = refl;
  of_length = refl;
  of_program = refl;
  of_license = refl;
}

-- The three ways an attempt can go: no call, a load that fails, or a load of the whole program (BPF_PROG_LOAD
-- is 5), the attachment of what was loaded by SO_ATTACH_REUSEPORT_EBPF (52), whose result is the
-- attempt's, and its close.
pub data Attempt (socket workers : ℕ)
    : Option ℕ → List Event → Result Error (Unit {0}) → Type 0 where
  without_number :
      {e : Error}
      → e
        ≡ unsupported_platform_option
            (text "bpf syscall number is not defined for this target architecture")
      → Attempt socket workers none [] (err e)
  not_loaded :
      {number : ℕ} {attr : BpfProgLoadAttr} (e : IoError)
      → IsWhole workers attr
      → Attempt socket workers
          (some number)
          (event (bpf number 5 attr) (err e) ∷ [])
          (err (from_io e))
  loaded :
      {number : ℕ} {attr : BpfProgLoadAttr} (fd : ℕ) (attached closed : Result IoError ℕ)
      → IsWhole workers attr
      → Attempt socket workers
          (some number)
          (event (bpf number 5 attr) (ok fd)
            ∷ event (attach_fd socket 52 fd) attached
            ∷ event (close fd) closed
            ∷ [])
          (attach_result attached)

append-three :
    (log : List Event) (a b c : Event)
    → ((log ++ a ∷ []) ++ b ∷ []) ++ c ∷ [] ≡ log ++ a ∷ b ∷ c ∷ []
append-three log a b c = simp (append_assoc)

module _ (socket workers : ℕ) where
  Attempt-open :
      {number : Option ℕ} {calls : List Event} {result : Result Error (Unit {0})} (fds : List ℕ)
      → Attempt socket workers number calls result
      → open_programs fds calls ≡ fds
  unfolding open_programs
  Attempt-open fds (without_number e) = refl
  Attempt-open fds (not_loaded e whole) = refl
  Attempt-open fds (loaded fd attached closed whole) = remove-head fd fds

  -- What an attempt has logged, and its result.
  abbrev pub Goes : Option ℕ → List Event → Logged (Unit {0}) → Type 0
  Goes number log (result, log') =
      (calls : List Event) × (log' ≡ log ++ calls) × Attempt socket workers number calls result

  attach_loaded-Goes :
      (kernel : Kernel) (number : ℕ) (log : List Event) (fd : Result IoError ℕ)
      → Goes (some number) log (
          attach_loaded kernel socket
            (map_err from_io fd, log ++ event (bpf number bpf_prog_load (attr_of workers)) fd ∷ []))
  unfolding attach_loaded
  attach_loaded-Goes kernel number log (err e) = (_, refl, not_loaded e (attr_of-IsWhole workers))
  attach_loaded-Goes kernel number log (ok fd) =
      (_, append-three log _ _ _, loaded fd _ _ (attr_of-IsWhole workers))

  load_with-Goes :
      (kernel : Kernel) (number : Option ℕ) (log : List Event)
      → Goes number log (attach_loaded kernel socket (load_with kernel number workers log))
  unfolding load_with attach_loaded
  load_with-Goes kernel none log = ([], sym (append-nil log), without_number refl)
  load_with-Goes kernel (some number) log = attach_loaded-Goes kernel number log _

  -- An attempt to attach the eBPF program, on any architecture and whatever the kernel answers, goes
  -- in one of these ways: no call, where the architecture is none of those whose table has a number; or,
  -- by the number in the table, a load that fails, whose error is returned; or a load of the program with
  -- all of its 34 instructions, its attachment to the socket, whose result is returned, and the close of
  -- its descriptor. No program is open afterwards that was not before.
  pub attach-Goes :
      (kernel : Kernel) (arch : Arch) (log : List Event) (fds : List ℕ)
      → Goes (in_table arch) log (attach_quic_reuseport_ebpf kernel arch socket workers log)
        × (open_programs fds (attach_quic_reuseport_ebpf kernel arch socket workers log).1
            ≡ open_programs fds log)
  unfolding attach_quic_reuseport_ebpf load_quic_reuseport_ebpf
  attach-Goes kernel arch log fds =
      let goes =
        subst (λ n. Goes n log (attach_quic_reuseport_ebpf kernel arch socket workers log))
          (in_table_lem arch) (load_with-Goes kernel (sys_bpf_number arch) log) in
      let (calls, e, a) = goes in
      (
        (calls, e, a),
        ap (open_programs fds) e
            ∙ open_programs-append fds log calls
            ∙ Attempt-open (open_programs fds log) a,
      )
