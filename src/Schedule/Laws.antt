-- ===== src/Schedule/Laws.antt =====
-- What the selection of a worker guarantees: its range, its errors, and that the hash tells apart
-- metadata whose bytes differ in one place.
use sfo_reuseport.Prelude.{
  ℕ, zero, suc, ◌*◌, ◌%◌, ◌^◌, ◌<◌, ◌≡◌, ◌≢◌, refl, ap, ◌∙◌, ◌↔◌, bit_xor, List, [], ◌∷◌, ◌++◌,
  Option, none, some, All, ne→==, arith,
}
use sfo_reuseport.Prelude.Bits.{bit_xor_cancel, bit_xor_cancel_left, bit_xor-lt}
use sfo_reuseport.Error.{Error, invalid_config, text, ok, err}
use sfo_reuseport.Net.{SocketAddr, PacketMeta, MetaIsValid, IsByte}
use sfo_reuseport.Schedule.{fnv_prime, fnv_offset, write_u8, write_bytes, linux_reuseport_select}
use sfo_reuseport.Schedule.Bytes.{
  addr_bytes, meta_bytes, meta_hash, meta_hash_bytes, meta_hash-injective, write_bytes-append,
}

-- Multiplication by the FNV prime modulo 2^64 is undone by that of its inverse.
unprime : (x : ℕ) → x < 2 ^ 64 → x * fnv_prime % 2 ^ 64 * 0xce965057aff6957b % 2 ^ 64 ≡ x
unprime x h = omega arith

prime_cancel :
    (x y : ℕ) → x < 2 ^ 64 → y < 2 ^ 64 → x * fnv_prime % 2 ^ 64 ≡ y * fnv_prime % 2 ^ 64 → x ≡ y
prime_cancel x y hx hy e = cc (unprime x hx, unprime y hy)

write_u8-lt : (h v : ℕ) → write_u8 h v < 2 ^ 64
unfolding write_u8
write_u8-lt h v = omega arith

module _ (h k : ℕ) (hh : h < 2 ^ 64) (hk : k < 2 ^ 64) where
  write_u8_cancel : (v : ℕ) → IsByte v → write_u8 h v ≡ write_u8 k v → h ≡ k
  unfolding write_u8
  write_u8_cancel v b e =
      bit_xor_cancel h k v (
        prime_cancel _ _ (bit_xor-lt 64 h v hh (omega arith)) (bit_xor-lt 64 k v hk (omega arith))
          e)

write_u8_cancel_left :
    (h u v : ℕ) → h < 2 ^ 64 → IsByte u → IsByte v → write_u8 h u ≡ write_u8 h v → u ≡ v
unfolding write_u8
write_u8_cancel_left h u v hh bu bv e =
    bit_xor_cancel_left h u v
      (prime_cancel _ _ (bit_xor-lt 64 h u hh (omega arith)) (bit_xor-lt 64 h v hh (omega arith)) e)

write_bytes-lt : (h : ℕ) (xs : List ℕ) → h < 2 ^ 64 → write_bytes h xs < 2 ^ 64
unfolding write_bytes
write_bytes-lt h [] b = b
write_bytes-lt h (x ∷ xs) b = write_bytes-lt (write_u8 h x) xs (write_u8-lt h x)

write_bytes_cancel :
    (h k : ℕ) (xs : List ℕ)
    → h < 2 ^ 64
    → k < 2 ^ 64
    → All IsByte xs
    → write_bytes h xs ≡ write_bytes k xs
    → h ≡ k
unfolding write_bytes
write_bytes_cancel h k [] hh hk b e = e
write_bytes_cancel h k (x ∷ xs) hh hk b e =
    write_u8_cancel h k hh hk x b.0 (
      write_bytes_cancel (write_u8 h x) (write_u8 k x) xs (write_u8-lt h x) (write_u8-lt k x) b.1 e)

-- Two strings of bytes that differ in exactly one byte have different hashes.
pub one_byte_differs :
    (before after : List ℕ) (u v : ℕ)
    → All IsByte after
    → IsByte u
    → IsByte v
    → write_bytes fnv_offset (before ++ u ∷ after) ≡ write_bytes fnv_offset (before ++ v ∷ after)
    → u ≡ v
unfolding write_bytes
one_byte_differs before after u v b bu bv e = write_u8_cancel_left start u v bound bu bv (
    write_bytes_cancel (write_u8 start u) (write_u8 start v) after (write_u8-lt start u)
      (write_u8-lt start v) b
      (rw
        (
          write_bytes-append fnv_offset before (u ∷ after),
          write_bytes-append fnv_offset before (v ∷ after),
        )
        at e))
  where
    start : ℕ
    start = write_bytes fnv_offset before

    bound : write_bytes fnv_offset before < 2 ^ 64
    bound = write_bytes-lt fnv_offset before (omega arith)

-- Metadata whose bytes differ in exactly one place have different hashes.
pub meta_hash_differs :
    (m n : PacketMeta) (before after : List ℕ) (u v : ℕ)
    → meta_bytes m ≡ before ++ u ∷ after
    → meta_bytes n ≡ before ++ v ∷ after
    → All IsByte after
    → IsByte u
    → IsByte v
    → u ≢ v
    → meta_hash m ≢ meta_hash n
meta_hash_differs m n before after u v em en b bu bv differ same = differ (
    one_byte_differs before after u v b bu bv
      (rw (meta_hash_bytes, meta_hash_bytes, em, en) at same))

-- With no worker the selection fails; with workers it is the FNV-1a hash of the addresses' bytes,
-- reduced to a worker's index.
pub linux_reuseport_select_lem :
    (m : PacketMeta) (workers : ℕ)
    → (linux_reuseport_select m 0
        ≡ err (invalid_config (text "worker count must be greater than zero")))
      × (0 < workers
          → (linux_reuseport_select m workers
              ≡ ok (write_bytes fnv_offset (meta_bytes m) % workers))
            × (write_bytes fnv_offset (meta_bytes m) % workers < workers))
unfolding linux_reuseport_select
linux_reuseport_select_lem m workers = (
  refl,
  λ pos. (
    rw (ne→== workers 0 (omega arith)) (ap (λ h. ok (h % workers)) (meta_hash_bytes m)),
    omega arith,
  ),
)

-- FNV-1a of 64 bits, by its definition: from the offset basis, each byte is xored in, and the hash then
-- multiplied by the prime.
abbrev pub fnv1a_from : ℕ → List ℕ → ℕ
fnv1a_from h [] = h
fnv1a_from h (byte ∷ bytes) =
    fnv1a_from (bit_xor h byte * 1099511628211 % 18446744073709551616) bytes

abbrev pub fnv1a : List ℕ → ℕ
fnv1a bytes = fnv1a_from 14695981039346656037 bytes

write_bytes_fnv1a : (h : ℕ) (bytes : List ℕ) → write_bytes h bytes ≡ fnv1a_from h bytes
unfolding write_bytes write_u8
write_bytes_fnv1a h [] = refl
write_bytes_fnv1a h (byte ∷ bytes) = write_bytes_fnv1a (write_u8 h byte) bytes

-- Both or neither, with the same octets of the same family and the same port; the flow and the scope
-- of an IPv6 address do not matter.
abbrev pub SameEnd : Option SocketAddr → Option SocketAddr → Type 0
SameEnd none none = Unit
SameEnd (some a) (some b) = (a.ip ≡ b.ip) × (a.port ≡ b.port)
SameEnd _ _ = ⊥

abbrev pub SameEnds : PacketMeta → PacketMeta → Type 0
SameEnds m n = SameEnd m.peer_addr n.peer_addr × SameEnd m.local_addr n.local_addr

same_end : (a b : Option SocketAddr) → a ≡ b → SameEnd a b
same_end none none e = tt
same_end none (some b) e = absurd (ground (arith, e))
same_end (some a) none e = absurd (ground (arith, e))
same_end (some a) (some b) e = (cc, cc)

end_bytes : (a b : Option SocketAddr) → SameEnd a b → addr_bytes a ≡ addr_bytes b
end_bytes none none e = refl
end_bytes none (some b) e = absurd e
end_bytes (some a) none e = absurd e
end_bytes (some a) (some b) (i, p) = rw (i, p) refl

-- With workers, valid metadata select the FNV-1a hash of a string of bytes, reduced to a worker's
-- index, and two of them have the same string exactly when both their addresses have the same octets
-- and ports, or are both absent.
pub linux_reuseport_select-fnv1a :
    (m n : PacketMeta) (workers : ℕ)
    → MetaIsValid m
    → MetaIsValid n
    → 0 < workers
    → (linux_reuseport_select m workers ≡ ok (fnv1a (meta_bytes m) % workers))
      × ((meta_bytes m ≡ meta_bytes n) ↔ SameEnds m n)
linux_reuseport_select-fnv1a m n workers vm vn pos = (
  ((linux_reuseport_select_lem m workers).1 pos).0
      ∙ ap (λ h. ok (h % workers)) (write_bytes_fnv1a fnv_offset (meta_bytes m)),
  (
    λ e.
        let same = (meta_hash-injective m n vm vn).1 e in
        (
          same_end m.peer_addr n.peer_addr (ap (λ x. x.peer_addr) same),
          same_end m.local_addr n.local_addr (ap (λ x. x.local_addr) same),
        ),
    λ (p, l). rw (end_bytes m.peer_addr n.peer_addr p, end_bytes m.local_addr n.local_addr l) refl,
  ),
)

pub linux_reuseport_select-lt :
    (m : PacketMeta) (workers : ℕ) {w : ℕ} → linux_reuseport_select m workers ≡ ok w → w < workers
unfolding linux_reuseport_select
linux_reuseport_select-lt m zero e = absurd (ground arith)
linux_reuseport_select-lt m (suc n) {w} e =
    let (run, bound) = (linux_reuseport_select_lem m (suc n)).1 (omega arith) in
    let same : write_bytes fnv_offset (meta_bytes m) % suc n ≡ w = cc in omega arith

pub linux_reuseport_select_ok :
    (m : PacketMeta) (workers : ℕ)
    → 0 < workers
    → (e : Error) → linux_reuseport_select m workers ≢ err e
linux_reuseport_select_ok m workers pos e f =
    let (run, _) = (linux_reuseport_select_lem m workers).1 pos in absurd (ground (arith, run, f))
