-- ===== src/Quic/Route/Tests.antt =====
-- The routing tests of src/core/quic.rs, and the theorems at concrete packets.
use sfo_reuseport.Prelude.{ℕ, ◌≡◌, ◌↔◌, refl, true, List, [], ◌∷◌, some, none, arith}
use sfo_reuseport.Quic.Route.{quic_worker_index, quic_reuseport_bpf_accepts_packet}
use sfo_reuseport.Quic.Route.Laws.{Names, quic_worker_index_iff}
use sfo_reuseport.Quic.Route.RoundTrip.{short_packet, long_packet, short-generate, long-generate}
use sfo_reuseport.Cid.Tests.{
  sevens, sevens-FillsBuffer, worker_three, worker_three-IsValid, generate_run,
}

abbrev initial_packet : List ℕ
initial_packet = 0xc0 ∷ 0 ∷ 0 ∷ 0 ∷ 1 ∷ 8 ∷ 0 ∷ 2 ∷ 6 ∷ 5 ∷ 4 ∷ 3 ∷ 2 ∷ 1 ∷ []

long_header :
    (quic_worker_index initial_packet 4 ≡ some 2)
    × (quic_worker_index (0xe0 ∷ 0 ∷ 0 ∷ 0 ∷ 1 ∷ 4 ∷ 1 ∷ 3 ∷ 9 ∷ 9 ∷ []) 4 ≡ some 3)
unfolding quic_worker_index
long_header = (refl, refl)

short_header :
    (quic_worker_index (0x40 ∷ 0 ∷ 3 ∷ 2 ∷ 3 ∷ []) 4 ≡ some 3)
    × (quic_worker_index (0x40 ∷ 1 ∷ 3 ∷ 2 ∷ 3 ∷ []) 4 ≡ some 3)
unfolding quic_worker_index
short_header = (refl, refl)

rejected :
    (quic_worker_index [] 4 ≡ none)
    × (quic_worker_index (0xc0 ∷ 0 ∷ 0 ∷ 0 ∷ 1 ∷ 0 ∷ []) 4 ≡ none)
    × (quic_worker_index (0xc0 ∷ 0 ∷ 0 ∷ 0 ∷ 1 ∷ 1 ∷ 1 ∷ []) 4 ≡ none)
    × (quic_worker_index (0xc0 ∷ 0 ∷ 0 ∷ 0 ∷ 1 ∷ 4 ∷ 1 ∷ []) 4 ≡ none)
    × (quic_worker_index (0xc0 ∷ 0 ∷ 0 ∷ 0 ∷ 1 ∷ 8 ∷ 1 ∷ 2 ∷ 3 ∷ 4 ∷ 5 ∷ 6 ∷ 7 ∷ []) 4 ≡ none)
    × (quic_worker_index (0x40 ∷ []) 4 ≡ none)
    × (quic_worker_index (0x40 ∷ 0x80 ∷ []) 4 ≡ none)
unfolding quic_worker_index
rejected = (refl, refl, refl, refl, refl, refl, refl)

accepted : quic_reuseport_bpf_accepts_packet initial_packet 4 ≡ true
unfolding quic_reuseport_bpf_accepts_packet
accepted = refl

quic_worker_index_iff_example :
    (quic_worker_index initial_packet 4 ≡ some 2) ↔ Names 4 2 initial_packet
quic_worker_index_iff_example = quic_worker_index_iff 4 (omega arith) initial_packet 2 (omega arith)

abbrev cid : List ℕ
cid = 1 ∷ 3 ∷ 7 ∷ 7 ∷ 7 ∷ 7 ∷ 7 ∷ 7 ∷ []

short-generate_example : quic_worker_index (short_packet 0x40 cid (9 ∷ [])) 300 ≡ some 0x0103
short-generate_example =
    short-generate sevens sevens-FillsBuffer worker_three worker_three-IsValid 300 (omega arith) cid
      generate_run 0x40 (9 ∷ []) (omega arith)

long-generate_example : quic_worker_index (long_packet 0xe0 0 0 0 1 cid (9 ∷ [])) 300 ≡ some 0x0103
long-generate_example =
    long-generate sevens sevens-FillsBuffer worker_three worker_three-IsValid 300 (omega arith) cid
      generate_run 0xe0 0 0 0 1 (9 ∷ []) (omega arith) (omega arith)
