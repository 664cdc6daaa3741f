-- ===== src/Platform/Linux/Attach.antt =====
-- How the kernel programs of src/platform/linux.rs are loaded and attached: `load_quic_reuseport_ebpf`,
-- `attach_quic_reuseport_ebpf` and `attach_quic_reuseport_cbpf`. A system call is a value, and is
-- logged with its answer, which is a parameter; the error is the one that `last_os_error` tells after
-- the call.
pub mod Laws
mod Tests
use sfo_reuseport.Prelude.{ℕ, ◌%◌, ◌^◌, ◌≡◌, List, [], ◌∷◌, ◌++◌, Option, none, some, length, Bool}
use sfo_reuseport.Error.{
  Error, IoError, unsupported_platform_option, text, from_io, Result, ok, err, map_err, is_ok,
}
use sfo_reuseport.Platform.Linux.Cbpf.{SockFilter, quic_reuseport_cbpf}
use sfo_reuseport.Platform.Linux.Ebpf.{BpfInsn, quic_reuseport_ebpf}

pub data Arch : Type 0 where
  x86_64 aarch64 riscv64 arm powerpc64 s390x other : Arch

unfoldable pub sys_bpf_number : Arch → Option ℕ
sys_bpf_number x86_64 = some 321
sys_bpf_number aarch64 = some 280
sys_bpf_number riscv64 = some 280
sys_bpf_number arm = some 386
sys_bpf_number powerpc64 = some 361
sys_bpf_number s390x = some 351
sys_bpf_number other = none

-- The instructions stand for the pointer to them. The fields that keep their default, zero, are left out.
pub record BpfProgLoadAttr : Type 0 where
  pub prog_type : ℕ
  pub insn_cnt : ℕ
  pub insns : List BpfInsn
  pub license : List ℕ

pub record SockFprog : Type 0 where
  pub len : ℕ
  pub filter : List SockFilter

pub data Syscall : Type 0 where
  -- `syscall(number, command, &attr, size)`
  bpf : ℕ → ℕ → BpfProgLoadAttr → Syscall
  -- `setsockopt` of SOL_SOCKET, of the socket and by the name of the option.
  attach_fd : ℕ → ℕ → ℕ → Syscall
  attach_filter : ℕ → ℕ → SockFprog → Syscall
  close : ℕ → Syscall

pub record Event : Type 0 where
  pub call : Syscall
  pub answer : Result IoError ℕ

abbrev pub Kernel : Type 0
Kernel = List Event → Syscall → Result IoError ℕ

-- The result of some calls, and the log after them.
abbrev pub Logged : Type 0 → Type 0
Logged A = Result Error A × List Event

abbrev pub bpf_prog_load : ℕ
bpf_prog_load = 5

abbrev pub bpf_prog_type_sk_reuseport : ℕ
bpf_prog_type_sk_reuseport = 21

abbrev pub so_attach_reuseport_ebpf : ℕ
so_attach_reuseport_ebpf = 52

abbrev pub so_attach_reuseport_cbpf : ℕ
so_attach_reuseport_cbpf = 51

-- "GPL" and its end.
abbrev pub license_gpl : List ℕ
license_gpl = 71 ∷ 80 ∷ 76 ∷ 0 ∷ []

unfoldable pub attr_of : ℕ → BpfProgLoadAttr
unfolding quic_reuseport_ebpf
attr_of workers =
    let program = quic_reuseport_ebpf workers in
    record {
      prog_type = bpf_prog_type_sk_reuseport;
      insn_cnt = length program % 2 ^ 32;
      insns = program;
      license = license_gpl;
    }

-- A result of zero is `Ok(())`.
abbrev pub attach_result : Result IoError ℕ → Result Error (Unit {0})
attach_result (ok n) = ok tt
attach_result (err e) = err (from_io e)

module _ (kernel : Kernel) where
  -- A call, and what it is answered.
  unfoldable pub ask : Syscall → List Event → Result IoError ℕ × List Event
  ask c log =
      let answer = kernel log c in (answer, log ++ (record { call = c; answer = answer }) ∷ [])

  unfoldable pub load_with : Option ℕ → ℕ → List Event → Logged ℕ
  unfolding ask attr_of
  load_with none workers log = (
    err (
        unsupported_platform_option
          (text "bpf syscall number is not defined for this target architecture")),
    log,
  )
  load_with (some sys_bpf) workers log =
      let (fd, log') = ask (bpf sys_bpf bpf_prog_load (attr_of workers)) log in
      (map_err from_io fd, log')

  unfoldable pub load_quic_reuseport_ebpf : Arch → ℕ → List Event → Logged ℕ
  unfolding load_with sys_bpf_number
  load_quic_reuseport_ebpf arch workers log = load_with (sys_bpf_number arch) workers log

  unfoldable pub attach_loaded : ℕ → Logged ℕ → Logged (Unit {0})
  unfolding ask
  attach_loaded socket (err e, log) = (err e, log)
  attach_loaded socket (ok program_fd, log) =
      let (result, log₁) = ask (attach_fd socket so_attach_reuseport_ebpf program_fd) log in
      let (_, log₂) = ask (close program_fd) log₁ in (attach_result result, log₂)

  unfoldable pub attach_quic_reuseport_ebpf : Arch → ℕ → ℕ → List Event → Logged (Unit {0})
  unfolding load_quic_reuseport_ebpf attach_loaded
  attach_quic_reuseport_ebpf arch socket workers log =
      attach_loaded socket (load_quic_reuseport_ebpf arch workers log)

  unfoldable pub attach_quic_reuseport_cbpf : ℕ → ℕ → List Event → Logged (Unit {0})
  unfolding ask quic_reuseport_cbpf
  attach_quic_reuseport_cbpf socket workers log =
      let filter = quic_reuseport_cbpf workers in
      let program : SockFprog = record { len = length filter % 2 ^ 16; filter = filter } in
      let (result, log') = ask (attach_filter socket so_attach_reuseport_cbpf program) log in
      (attach_result result, log')
