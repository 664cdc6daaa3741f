-- ===== src/Platform/Linux/OriginalDst/Laws.antt =====
-- The original destination that is returned is the one that the kernel tells.
use sfo_reuseport.Prelude.{
  ℕ, zero, suc, ◌-◌, ◌/◌, ◌%◌, ◌^◌, ◌<◌, ◌≡◌, refl, ap, List, [], ◌∷◌, ◌++◌, none, some, length,
  take, drop, replicate, All, length-append, arith,
}
use mathlib.Core.List.{append_assoc}
use sfo_reuseport.Error.{ok}
use sfo_reuseport.Net.{IpAddr, v4, v6, SocketAddr, SocketAddrIsValid, IpAddrIsValid}
use sfo_reuseport.Platform.Linux.OriginalDst.{
  Endian, little, big, from_be, af_inet, af_inet6, size_of_storage, size_of_in, size_of_in6,
  sockaddr_storage_to_socket_addr, ControlMessage, sol_ip, ip_origdstaddr, sol_ipv6,
  ipv6_recvorigdstaddr, copy_len, copied, original_destination_addr, destination_of,
  recv_udp_original_dst_raw,
}

-- A `u16` as bytes in the machine's order, before the rest.
abbrev to_ne : Endian → ℕ → List ℕ → List ℕ
to_ne little n rest = n % 256 ∷ n / 256 ∷ rest
to_ne big n rest = n / 256 ∷ n % 256 ∷ rest

abbrev to_be : ℕ → List ℕ → List ℕ
to_be n rest = n / 256 ∷ n % 256 ∷ rest

-- What the kernel writes of an address: a `sockaddr_in`, or a `sockaddr_in6` with a flow and a scope
-- of four bytes.
abbrev pub sockaddr : Endian → List ℕ → List ℕ → SocketAddr → List ℕ
sockaddr e flow scope a = elim a.ip [
  | v4 octets ↦ to_ne e af_inet (to_be a.port (octets ++ replicate 8 0))
  | v6 octets ↦ to_ne e af_inet6 (to_be a.port (flow ++ (octets ++ scope)))
]

abbrev pub size_of : SocketAddr → ℕ
size_of a = elim a.ip [ v4 _ ↦ size_of_in | v6 _ ↦ size_of_in6 ]

take-length : (n : ℕ) (xs ys : List ℕ) → length xs ≡ n → take n (xs ++ ys) ≡ xs
take-length zero [] ys h = refl
take-length zero (x ∷ xs) ys h = absurd (omega (arith, h))
take-length (suc n) [] ys h = absurd (omega (arith, h))
take-length (suc n) (x ∷ xs) ys h = ap (λ l. x ∷ l) (take-length n xs ys (omega (arith, h)))

drop-length : (n : ℕ) (xs ys : List ℕ) → length xs ≡ n → drop n (xs ++ ys) ≡ ys
drop-length zero [] ys h = refl
drop-length zero (x ∷ xs) ys h = absurd (omega (arith, h))
drop-length (suc n) [] ys h = absurd (omega (arith, h))
drop-length (suc n) (x ∷ xs) ys h = drop-length n xs ys (omega (arith, h))

port_bytes : (p : ℕ) → p < 2 ^ 16 → from_be (p / 256) (p % 256) ≡ p
port_bytes p h = omega arith

module _ (flow scope : List ℕ) (flow_size : length flow ≡ 4) (scope_size : length scope ≡ 4) where
  v4_part :
      (octets more : List ℕ)
      → IpAddrIsValid (v4 octets)
      → take 4 ((octets ++ replicate 8 0) ++ more) ≡ octets
  v4_part octets more valid =
      rw (append_assoc octets (replicate 8 0) more) (take-length 4 octets _ valid.0)

  v6_part :
      (octets more : List ℕ)
      → IpAddrIsValid (v6 octets)
      → take 16 (drop 4 ((flow ++ (octets ++ scope)) ++ more)) ≡ octets
  v6_part octets more valid =
      rw
        (
          append_assoc flow (octets ++ scope) more,
          drop-length 4 flow ((octets ++ scope) ++ more) flow_size,
          append_assoc octets scope more,
        )
        (take-length 16 octets (scope ++ more) valid.0)

  decoded :
      (e : Endian) (ip : IpAddr) (port : ℕ) (more : List ℕ)
      → IpAddrIsValid ip
      → port < 2 ^ 16
      → sockaddr_storage_to_socket_addr e
          (sockaddr e flow scope (record { ip = ip; port = port }) ++ more)
        ≡ ok (record { ip = ip; port = port })
  unfolding sockaddr_storage_to_socket_addr
  decoded little (v4 octets) port more valid h =
      rw (port_bytes port h) (rw (v4_part octets more valid) refl)
  decoded big (v4 octets) port more valid h =
      rw (port_bytes port h) (rw (v4_part octets more valid) refl)
  decoded little (v6 octets) port more valid h =
      rw (port_bytes port h) (rw (v6_part octets more valid) refl)
  decoded big (v6 octets) port more valid h =
      rw (port_bytes port h) (rw (v6_part octets more valid) refl)

  v6_size : (octets : List ℕ) → IpAddrIsValid (v6 octets) → length (flow ++ (octets ++ scope)) ≡ 24
  v6_size octets valid =
      let size = valid.0 in
      rw (length-append flow (octets ++ scope), length-append octets scope)
        (omega (arith, size, flow_size, scope_size))

  length-sockaddr :
      (e : Endian) (ip : IpAddr) (port : ℕ)
      → IpAddrIsValid ip
      → length (sockaddr e flow scope (record { ip = ip; port = port }))
        ≡ size_of (record { ip = ip; port = port })
  length-sockaddr little (v4 octets) port valid =
      omega (arith, length-append octets (replicate 8 0), valid.0)
  length-sockaddr big (v4 octets) port valid =
      omega (arith, length-append octets (replicate 8 0), valid.0)
  length-sockaddr little (v6 octets) port valid = omega (arith, v6_size octets valid)
  length-sockaddr big (v6 octets) port valid = omega (arith, v6_size octets valid)

  -- The control message by which the kernel tells the address, with what follows it in the buffer.
  abbrev pub original : Endian → SocketAddr → List ℕ → ControlMessage
  original e a more = elim a.ip [
    | v4 _ ↦ record {
      cmsg_level = sol_ip;
      cmsg_type = ip_origdstaddr;
      from_data = sockaddr e flow scope a ++ more;
    }
    | v6 _ ↦ record {
      cmsg_level = sol_ipv6;
      cmsg_type = ipv6_recvorigdstaddr;
      from_data = sockaddr e flow scope a ++ more;
    }
  ]

  found :
      (e : Endian) (ip : IpAddr) (port : ℕ) (more : List ℕ) (after : List ControlMessage)
      → IpAddrIsValid ip
      → original_destination_addr (original e (record { ip = ip; port = port }) more ∷ after)
        ≡ some (
            sockaddr e flow scope (record { ip = ip; port = port })
            ++ replicate (size_of_storage - size_of (record { ip = ip; port = port })) 0)
  unfolding original_destination_addr copy_len copied
  found e (v4 octets) port more after valid =
      ap (λ l. some (l ++ replicate 112 0))
        (take-length 16 (sockaddr e flow scope (record { ip = v4 octets; port = port })) more
          (length-sockaddr e (v4 octets) port valid))
  found e (v6 octets) port more after valid =
      ap (λ l. some (l ++ replicate 100 0))
        (take-length 28 (sockaddr e flow scope (record { ip = v6 octets; port = port })) more
          (length-sockaddr e (v6 octets) port valid))

-- A control message that tells no destination.
abbrev pub IsOther : ControlMessage → Type 0
IsOther m = copy_len m ≡ none

skipped :
    (before rest : List ControlMessage)
    → All IsOther before
    → original_destination_addr (before ++ rest) ≡ original_destination_addr rest
unfolding original_destination_addr
skipped [] rest h = refl
skipped (m ∷ ms) rest h = rw (original_destination_addr, h.0) (skipped ms rest h.1)

module _ (e : Endian) (flow scope : List ℕ) (flow_size : length flow ≡ 4)
    (scope_size : length scope ≡ 4) (len : ℕ) (padding more : List ℕ)
    (before after : List ControlMessage) where
  received :
      (peer fallback destination : SocketAddr) (control : List ControlMessage)
      → SocketAddrIsValid peer
      → destination_of e (original_destination_addr control) fallback ≡ ok destination
      → recv_udp_original_dst_raw e
          (ok (record {
            len = len;
            source = sockaddr e flow scope peer ++ padding;
            control = control;
          }))
          fallback
        ≡ ok (len, peer, destination)
  unfolding recv_udp_original_dst_raw
  received peer fallback destination control valid h =
      rw (h, decoded flow scope flow_size scope_size e peer.ip peer.port padding valid.0 valid.1)
        refl

  told :
      (local fallback : SocketAddr)
      → SocketAddrIsValid local
      → All IsOther before
      → destination_of e
          (original_destination_addr
            (before ++ original flow scope flow_size scope_size e local more ∷ after))
          fallback
        ≡ ok local
  unfolding destination_of
  told local fallback valid others =
      rw
        (
          skipped before (original flow scope flow_size scope_size e local more ∷ after) others,
          found flow scope flow_size scope_size e local.ip local.port more after valid.0,
        )
        (decoded flow scope flow_size scope_size e local.ip local.port
          (replicate (size_of_storage - size_of local) 0) valid.0 valid.1)

  untold :
      (fallback : SocketAddr) (control : List ControlMessage)
      → All IsOther control
      → destination_of e (original_destination_addr control) fallback ≡ ok fallback
  unfolding destination_of original_destination_addr
  untold fallback [] others = refl
  untold fallback (m ∷ ms) others =
      rw (original_destination_addr, others.0) (untold fallback ms others.1)

  -- Whatever other control messages there are, where the kernel tells the original destination of a
  -- datagram it is returned with the sender, both as they were encoded; where there are only others,
  -- the destination is the fallback. Addresses are valid, of either family.
  pub recv-original :
      (peer local fallback : SocketAddr)
      → SocketAddrIsValid peer
      → SocketAddrIsValid local
      → All IsOther before
      → (recv_udp_original_dst_raw e
            (ok (record {
              len = len;
              source = sockaddr e flow scope peer ++ padding;
              control = before ++ original flow scope flow_size scope_size e local more ∷ after;
            }))
            fallback
          ≡ ok (len, peer, local))
        × (recv_udp_original_dst_raw e
              (ok (record {
                len = len;
                source = sockaddr e flow scope peer ++ padding;
                control = before;
              }))
              fallback
            ≡ ok (len, peer, fallback))
  recv-original peer local fallback valid_peer valid others = (
    received peer fallback local
        (before ++ original flow scope flow_size scope_size e local more ∷ after) valid_peer
        (told local fallback valid others),
    received peer fallback fallback before valid_peer (untold fallback before others),
  )
