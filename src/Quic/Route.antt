-- ===== src/Quic/Route.antt =====
-- src/core/quic.rs: the worker that a QUIC packet is routed to, from the first two bytes of its
-- destination connection id. A packet is a list of bytes.
pub mod Laws
pub mod RoundTrip
mod Tests
use sfo_reuseport.Prelude.{
  ℕ, ◌+◌, ◌-◌, ◌*◌, ◌%◌, ◌==◌, ◌||◌, ltb, not, bit_and, bit_or, Bool, true, false, List, [], ◌∷◌,
  Option, none, some, length, is_empty, get_elem?, get_from, take, drop, if◌then◌else◌,
}

infixl 5 ◌>>=◌
abbrev ◌>>=◌ {ℓ κ} : {A : Type ℓ} {B : Type κ} → Option A → (A → Option B) → Option B
none >>= f = none
some a >>= f = f a

-- `packet[i]`, which is read only where the packet is known to have the byte.
abbrev byte_at : List ℕ → ℕ → ℕ
byte_at packet i = elim (get_elem? packet i) [ none ↦ 0 | some b ↦ b ]

-- `bytes[start..end]`, which is taken only within the bounds.
abbrev slice : List ℕ → ℕ → ℕ → List ℕ
slice bytes start end = take (end - start) (drop start bytes)

unfoldable pub quic_worker_index_prefix : List ℕ → Option ℕ
quic_worker_index_prefix bytes = do
  first ← get_elem? bytes 0
  second ← get_elem? bytes 1
  some (bit_or (first * 256) second)

unfoldable pub quic_long_header_dcid : List ℕ → Option (List ℕ)
quic_long_header_dcid packet = do
  dcid_len ← get_elem? packet 5
  let start : ℕ = 6
  let end = start + dcid_len
  if dcid_len == 0
      then none
      else (if ltb (length packet) end then none else some (slice packet start end))

unfoldable pub quic_worker_index : List ℕ → ℕ → Option ℕ
unfolding quic_worker_index_prefix quic_long_header_dcid
quic_worker_index packet workers =
    if workers == 0 || is_empty packet
    then none
    else if not (bit_and (byte_at packet 0) 0x80 == 0)
    then (do
      dcid ← quic_long_header_dcid packet
      worker_index ← quic_worker_index_prefix dcid
      some (worker_index % workers))
    else (do
      bytes ← get_from packet 1
      worker_index ← quic_worker_index_prefix bytes
      some (worker_index % workers))

unfoldable pub quic_reuseport_bpf_accepts_packet : List ℕ → ℕ → Bool
unfolding quic_worker_index
quic_reuseport_bpf_accepts_packet packet workers = elim (quic_worker_index packet workers) [
  | none ↦ false
  | some _ ↦ true
]
