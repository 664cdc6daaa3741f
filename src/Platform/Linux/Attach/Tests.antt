-- ===== src/Platform/Linux/Attach/Tests.antt =====
-- Attempts to attach a program, to a kernel that answers each call in one way.
use sfo_reuseport.Prelude.{ℕ, ◌≡◌, refl, [], ◌∷◌, some}
use sfo_reuseport.Error.{IoError, ErrorKind, Result, ok, err, from_io}
use sfo_reuseport.Platform.Linux.Attach.{
  x86_64, sys_bpf_number, Syscall, bpf, attach_fd, attach_filter, close, Kernel,
  attach_quic_reuseport_ebpf, attach_quic_reuseport_cbpf,
}
use sfo_reuseport.Platform.Linux.Attach.Laws.{Goes, open_programs, attach-Goes}

abbrev refused : IoError
refused = record { kind = ErrorKind.permission_denied; message = [] }

-- It loads programs and refuses to attach them.
abbrev answer_of : Syscall → Result IoError ℕ
answer_of (bpf number command attr) = ok 7
answer_of (attach_fd socket name fd) = err refused
answer_of (attach_filter socket name program) = ok 0
answer_of (close fd) = ok 0

abbrev kernel : Kernel
kernel log c = answer_of c

refused_attachment : (attach_quic_reuseport_ebpf kernel x86_64 3 2 []).0 ≡ err (from_io refused)
unfolding attach_quic_reuseport_ebpf sys_bpf_number
refused_attachment = refl

attached_filter : (attach_quic_reuseport_cbpf kernel 3 2 []).0 ≡ ok tt
unfolding attach_quic_reuseport_cbpf
attached_filter = refl

attach-Goes_example :
    Goes 3 2 (some 321) [] (attach_quic_reuseport_ebpf kernel x86_64 3 2 [])
    × (open_programs (9 ∷ []) (attach_quic_reuseport_ebpf kernel x86_64 3 2 []).1
        ≡ open_programs (9 ∷ []) [])
attach-Goes_example = attach-Goes 3 2 kernel x86_64 [] (9 ∷ [])
