-- ===== src/System/Sample.antt =====
-- A system that answers every call, and one whose address is in use, for the tests.
use sfo_reuseport.Prelude.{ℕ, [], ◌∷◌, true}
use sfo_reuseport.Error.{IoError, ErrorKind, text, Result, ok, err}
use sfo_reuseport.Net.{SocketAddr, v4_localhost}
use sfo_reuseport.System.{
  Call, Reply, Failure, socket, try_clone, spawn, local_addr, init_callback, set_reuse_address,
  set_ip_transparent_v4, set_ip_transparent_v6, set_nonblocking, setsockopt, bind, listen, World,
}
use sfo_reuseport.Server.{ServerRuntime}

abbrev pub addr : SocketAddr
addr = record { ip = v4_localhost; port = 80 }

-- Every call succeeds; descriptors and tasks are 7.
abbrev pub replies : {J : Type 0} (c : Call ℕ J) → Result (Failure c) (Reply c)
replies (socket _ _) = ok 7
replies (try_clone _) = ok 7
replies (spawn _ _) = ok 7
replies (local_addr _) = ok addr
replies (init_callback _ _) = ok tt
replies (set_reuse_address _ _) = ok tt
replies (Call.set_reuse_port _ _) = ok tt
replies (set_ip_transparent_v4 _ _) = ok tt
replies (set_ip_transparent_v6 _ _) = ok tt
replies (set_nonblocking _ _) = ok tt
replies (setsockopt _ _ _) = ok tt
replies (bind _ _) = ok tt
replies (listen _ _) = ok tt

abbrev in_use : IoError
in_use = record { kind = ErrorKind.other 98; message = text "address in use" }

-- The same, but the address is in use.
abbrev pub busy : {J : Type 0} (c : Call ℕ J) → Result (Failure c) (Reply c)
busy (bind _ _) = err in_use
busy c = replies c

-- No call has been made, and the state is this one.
abbrev pub fresh : {J S : Type 0} → S → World ℕ J S
fresh s = record { log = []; state = s }

abbrev pub two_workers : ServerRuntime
two_workers = record { workers = 100 ∷ 101 ∷ []; active = true; next_worker = 0 }
