-- ===== src/Schedule/Tests.antt =====
-- The tests of src/core/schedule.rs, and the theorems at concrete addresses.
use sfo_reuseport.Prelude.{ℕ, ◌%◌, ◌↔◌, ◌≡◌, refl, some, arith}
use sfo_reuseport.Error.{ok}
use sfo_reuseport.Net.{SocketAddr, PacketMeta, v4_localhost}
use sfo_reuseport.Schedule.{write_bytes, write_u8, write_u16, linux_reuseport_select}
use sfo_reuseport.Schedule.Bytes.{meta_bytes}
use sfo_reuseport.Schedule.Laws.{fnv1a, SameEnds, linux_reuseport_select-fnv1a}

abbrev local : ℕ → SocketAddr
local port = record { ip = v4_localhost; port = port }

abbrev pub from_peer : ℕ → PacketMeta
from_peer port = record { peer_addr = some (local port); local_addr = some (local 4433) }

pub fixed_metadata : linux_reuseport_select (from_peer 55000) 4 ≡ ok 1
unfolding linux_reuseport_select write_bytes write_u8 write_u16
fixed_metadata = refl

linux_reuseport_select-fnv1a_example :
    (linux_reuseport_select (from_peer 55000) 4 ≡ ok (fnv1a (meta_bytes (from_peer 55000)) % 4))
    × ((meta_bytes (from_peer 55000) ≡ meta_bytes (from_peer 55001))
        ↔ SameEnds (from_peer 55000) (from_peer 55001))
linux_reuseport_select-fnv1a_example =
    linux_reuseport_select-fnv1a (from_peer 55000) (from_peer 55001) 4 (omega arith) (omega arith)
      (omega arith)
