-- ===== src/Schedule/Bytes.antt =====
-- The hash as FNV-1a over one string of bytes, which determines the addresses.
use sfo_reuseport.Prelude.{
  ℕ, ◌/◌, ◌%◌, ◌≡◌, ◌≢◌, refl, sym, ◌∙◌, ap, List, [], ◌∷◌, ◌++◌, Option, none, some, length, arith,
}
use mathlib.Core.List.{append_assoc}
use sfo_reuseport.Net.{
  IpAddr, v4, v6, SocketAddr, PacketMeta, IpAddrIsValid, OptionIsValid, MetaIsValid,
}
use sfo_reuseport.Schedule.{write_u8, write_bytes, write_u16, hash_ip, hash_socket_addr, fnv_offset}

abbrev ip_bytes : IpAddr → List ℕ
ip_bytes (v4 octets) = 4 ∷ octets
ip_bytes (v6 octets) = 6 ∷ octets

-- The bytes that an optional address feeds to the hash.
abbrev pub addr_bytes : Option SocketAddr → List ℕ
addr_bytes none = 0 ∷ []
addr_bytes (some a) = ip_bytes a.ip ++ (a.port / 256 ∷ a.port % 256 ∷ [])

abbrev pub meta_bytes : PacketMeta → List ℕ
meta_bytes m = addr_bytes m.peer_addr ++ addr_bytes m.local_addr

-- The hash that `linux_reuseport_select` reduces.
abbrev pub meta_hash : PacketMeta → ℕ
meta_hash m = hash_socket_addr (hash_socket_addr fnv_offset m.peer_addr) m.local_addr

pub write_bytes-append :
    (h : ℕ) (xs ys : List ℕ) → write_bytes h (xs ++ ys) ≡ write_bytes (write_bytes h xs) ys
unfolding write_bytes
write_bytes-append h [] ys = refl
write_bytes-append h (x ∷ xs) ys = write_bytes-append (write_u8 h x) xs ys

hash_ip_bytes : (h : ℕ) (ip : IpAddr) → hash_ip h ip ≡ write_bytes h (ip_bytes ip)
unfolding hash_ip write_bytes
hash_ip_bytes h (v4 o) = refl
hash_ip_bytes h (v6 o) = refl

hash_addr_bytes :
    (h : ℕ) (a : Option SocketAddr) → hash_socket_addr h a ≡ write_bytes h (addr_bytes a)
unfolding hash_socket_addr write_u16 write_bytes
hash_addr_bytes h none = refl
hash_addr_bytes h (some a) =
    rw (
      write_bytes-append h (ip_bytes a.ip) (a.port / 256 ∷ a.port % 256 ∷ []),
      hash_ip_bytes h a.ip,
    )

-- The hash of the metadata is FNV-1a over one string of bytes.
pub meta_hash_bytes : (m : PacketMeta) → meta_hash m ≡ write_bytes fnv_offset (meta_bytes m)
meta_hash_bytes m = rw (
  write_bytes-append fnv_offset (addr_bytes m.peer_addr) (addr_bytes m.local_addr),
  hash_addr_bytes fnv_offset m.peer_addr,
  hash_addr_bytes (write_bytes fnv_offset (addr_bytes m.peer_addr)) m.local_addr,
)

append_cancel {ℓ} :
    {A : Type ℓ} (xs ys r s : List A)
    → length xs ≡ length ys
    → xs ++ r ≡ ys ++ s
    → (xs ≡ ys) × (r ≡ s)
append_cancel [] [] r s l e = (refl, e)
append_cancel [] (y ∷ ys) r s l e = absurd (omega arith)
append_cancel (x ∷ xs) [] r s l e = absurd (omega arith)
append_cancel (x ∷ xs) (y ∷ ys) r s l e =
    let (same, rest) = append_cancel xs ys r s (omega arith) (cc) in (cc, rest)

abbrev port_bytes : ℕ → List ℕ
port_bytes p = p / 256 ∷ p % 256 ∷ []

module _ (p q : ℕ) (r s : List ℕ) where
  port_cancel : port_bytes p ++ r ≡ port_bytes q ++ s → (p ≡ q) × (r ≡ s)
  port_cancel e = (omega (arith, high, low), cc)
    where
      high : p / 256 ≡ q / 256
      high = cc

      low : p % 256 ≡ q % 256
      low = cc

  -- The octets of two addresses of one family, then their ports.
  octets_cancel :
      (o u : List ℕ)
      → length o ≡ length u
      → (o ++ port_bytes p) ++ r ≡ (u ++ port_bytes q) ++ s
      → (o ≡ u) × (p ≡ q) × (r ≡ s)
  octets_cancel o u l e =
      let (same, rest) =
        append_cancel o u (port_bytes p ++ r) (port_bytes q ++ s) l
          (sym (append_assoc o (port_bytes p) r) ∙ e ∙ append_assoc u (port_bytes q) s) in
      let (ports, after) = port_cancel rest in (same, ports, after)

  ip_cancel :
      (i j : IpAddr)
      → IpAddrIsValid i
      → IpAddrIsValid j
      → (ip_bytes i ++ port_bytes p) ++ r ≡ (ip_bytes j ++ port_bytes q) ++ s
      → (i ≡ j) × (p ≡ q) × (r ≡ s)
  ip_cancel (v4 o) (v4 u) vi vj e =
      let (same, ports, after) = octets_cancel o u (omega arith) (cc) in (cc, ports, after)
  ip_cancel (v4 o) (v6 u) vi vj e = absurd (ground arith)
  ip_cancel (v6 o) (v4 u) vi vj e = absurd (ground arith)
  ip_cancel (v6 o) (v6 u) vi vj e =
      let (same, ports, after) = octets_cancel o u (omega arith) (cc) in (cc, ports, after)

  -- An address begins with 4 or 6, and the absence of one is 0.
  ip_not_none : (i : IpAddr) → (ip_bytes i ++ port_bytes p) ++ r ≢ 0 ∷ s
  ip_not_none (v4 o) e = ground arith
  ip_not_none (v6 o) e = ground arith

-- The bytes of one address end where they end: they determine it, whatever bytes follow.
addr_bytes_cancel :
    (a b : Option SocketAddr) (r s : List ℕ)
    → OptionIsValid a
    → OptionIsValid b
    → addr_bytes a ++ r ≡ addr_bytes b ++ s
    → (a ≡ b) × (r ≡ s)
addr_bytes_cancel none none r s va vb e = (refl, cc)
addr_bytes_cancel none (some b) r s va vb e = absurd (ip_not_none b.port 0 s r b.ip (sym e))
addr_bytes_cancel (some a) none r s va vb e = absurd (ip_not_none a.port 0 r s a.ip e)
addr_bytes_cancel (some a) (some b) r s va vb e =
    let (ips, ports, after) = ip_cancel a.port b.port r s a.ip b.ip va.0 vb.0 e in
    (ap some (λ i. record { ip = ips i; port = ports i }), after)

meta_bytes_injective :
    (m n : PacketMeta) → MetaIsValid m → MetaIsValid n → meta_bytes m ≡ meta_bytes n → m ≡ n
meta_bytes_injective m n vm vn e =
    let (peers, rest) =
      addr_bytes_cancel m.peer_addr n.peer_addr (addr_bytes m.local_addr) (addr_bytes n.local_addr)
        vm.0 vn.0 e in
    let (locals, _) =
      addr_bytes_cancel m.local_addr n.local_addr [] [] vm.1 vn.1 (ap (λ l. l ++ []) rest) in
    λ i. record { peer_addr = peers i; local_addr = locals i }

-- The hash of metadata is the FNV-1a hash of a string of bytes, and valid metadata that are hashed as
-- the same string are equal.
pub meta_hash-injective :
    (m n : PacketMeta)
    → MetaIsValid m
    → MetaIsValid n
    → (meta_hash m ≡ write_bytes fnv_offset (meta_bytes m)) × (meta_bytes m ≡ meta_bytes n → m ≡ n)
meta_hash-injective m n vm vn = (meta_hash_bytes m, meta_bytes_injective m n vm vn)
