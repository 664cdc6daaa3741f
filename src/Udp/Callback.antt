-- ===== src/Udp/Callback.antt =====
-- `dispatch_socket_only_packets` of src/core/udp.rs: the dispatcher behind the sockets that callbacks
-- receive from. What chooses the worker of a packet is an argument, as in the source: the hash of the
-- addresses for UDP, the connection id for QUIC.
mod Tests
use mathlib.Core.Path.{subst}
use sfo_reuseport.Prelude.{
  ℕ, ◌≡◌, refl, ap, sym, ◌∙◌, take, inl, inr, Bool, true, false, List, [], ◌∷◌, ◌++◌, Option, none,
  some, get_elem?, set, replicate, All, All-append, All-replicate, All-get_elem?,
  get_elem?-set_cases, if◌then◌else◌,
}
use sfo_reuseport.Error.{Error, IoError, Result, ok, err}
use sfo_reuseport.Net.{SocketAddr, PacketMeta}
use sfo_reuseport.Dispatch.{Datagram, payload, Flow, next, stop, state_of, go_on, run}
use sfo_reuseport.Udp.Routed.{RoutedPacket}

-- What one round meets: the server's flag at its head, what the socket answers, the flag after an
-- error, and whether the channel that the round sends to still has its receiver.
pub record CallbackRound : Type 0 where
  pub at_head : Bool
  pub received : Result Error Datagram
  pub after_error : Bool
  pub open_ : Bool

-- One of the rounds has received the datagram.
pub data Received : List CallbackRound → Datagram → Type 0 where
  now :
      {r : CallbackRound} {rounds : List CallbackRound} {d : Datagram}
      → r.received ≡ ok d
      → Received (r ∷ rounds) d
  later :
      {r : CallbackRound} {rounds : List CallbackRound} {d : Datagram}
      → Received rounds d
      → Received (r ∷ rounds) d

-- What was sent to each worker, oldest first.
abbrev pub Queues : Type 0
Queues = List (List RoutedPacket)

module _ (route_packet : List ℕ → PacketMeta → ℕ → Option ℕ) (fallback_local_addr : SocketAddr)
    (worker_count : ℕ) (transparent_receive : Bool) where
  abbrev meta_of : Datagram → PacketMeta
  meta_of d = record {
    peer_addr = some d.peer_addr;
    local_addr = some (if transparent_receive then d.local_addr else fallback_local_addr);
  }

  abbrev packet_of : Datagram → RoutedPacket
  packet_of d = record { payload = payload d; peer_addr = d.peer_addr }

  -- The packet to the channel `senders.get(worker_id)`.
  send : ℕ → Datagram → Bool → Option (List RoutedPacket) → Queues → Flow Queues
  send w d true (some queue) s = next (set s w (queue ++ packet_of d ∷ []))
  send w d true none s = stop s
  send w d false queue s = stop s

  -- The round, once the packet has been routed.
  routed : Datagram → Bool → Option ℕ → Queues → Flow Queues
  unfolding send
  routed d open_ none s = next s
  routed d open_ (some w) s = send w d open_ (get_elem? s w) s

  -- The round, once the socket has answered.
  answered : CallbackRound → Result Error Datagram → Queues → Flow Queues
  unfolding routed
  answered r (err _) s = if r.after_error then next s else stop s
  answered r (ok d) s = routed d r.open_ (route_packet (payload d) (meta_of d) worker_count) s

  callback_round : CallbackRound → Queues → Flow Queues
  unfolding answered
  callback_round r s = if r.at_head then answered r r.received s else stop s

  unfoldable pub dispatch_socket_only_packets : List CallbackRound → Queues → Flow Queues
  unfolding run callback_round
  dispatch_socket_only_packets = run callback_round

  -- The local address that the packet is routed by.
  abbrev pub told : Bool → SocketAddr → SocketAddr
  told true local = local
  told false local = fallback_local_addr

  meta_told :
      (d : Datagram)
      → meta_of d ≡ record {
        peer_addr = some d.peer_addr;
        local_addr = some (told transparent_receive d.local_addr);
      }
  meta_told d =
      elim transparent_receive
        as (λ b.
          record {
            peer_addr = some d.peer_addr;
            local_addr = some (if b then d.local_addr else fallback_local_addr);
          }
          ≡ record { peer_addr = some d.peer_addr; local_addr = some (told b d.local_addr) }) [
            | true ↦ refl
            | false ↦ refl
          ]

  module _ (Got : Datagram → Type 0) where
    -- The packet is that of a datagram that was got, which is routed to worker `w` by its own bytes and
    -- peer and by its own local address, or by the fallback where the receive is not transparent.
    abbrev pub RoutesTo : ℕ → RoutedPacket → Type 0
    RoutesTo w p =
        (d : Datagram) × Got d
        × (p ≡ record { payload = take d.len d.buffer; peer_addr = d.peer_addr })
        × (route_packet (take d.len d.buffer)
              (record {
                peer_addr = some d.peer_addr;
                local_addr = some (told transparent_receive d.local_addr);
              })
              worker_count
            ≡ some w)

    abbrev pub AllRouted : Queues → Type 0
    AllRouted s =
        (w : ℕ) (queue : List RoutedPacket) → get_elem? s w ≡ some queue → All (RoutesTo w) queue

    send-AllRouted :
        (w : ℕ) (d : Datagram) (open_ : Bool) (o : Option (List RoutedPacket)) (s : Queues)
        → RoutesTo w (packet_of d)
        → get_elem? s w ≡ o
        → AllRouted s
        → AllRouted (state_of (send w d open_ o s))
    unfolding send
    send-AllRouted w d true (some queue) s r e h v q g =
        elim (get_elem?-set_cases s w v (queue ++ packet_of d ∷ []) q g) [
          | inl (there, same) ↦
              subst (λ u. All (RoutesTo u) q) there
                (subst (All (RoutesTo w)) same
                  (All-append (RoutesTo w) queue (packet_of d ∷ []) (h w queue e) (r, tt)))
          | inr (other, before) ↦ h v q before
        ]
    send-AllRouted w d true none s r e h v q g = h v q g
    send-AllRouted w d false o s r e h v q g = h v q g

    routed-AllRouted :
        (d : Datagram) (open_ : Bool) (o : Option ℕ) (s : Queues)
        → Got d
        → route_packet (payload d) (meta_of d) worker_count ≡ o
        → AllRouted s
        → AllRouted (state_of (routed d open_ o s))
    unfolding routed
    routed-AllRouted d open_ none s got e h = h
    routed-AllRouted d open_ (some w) s got e h =
        send-AllRouted w d open_ (get_elem? s w) s
          (d, got, refl, sym (ap (λ m. route_packet (payload d) m worker_count) (meta_told d)) ∙ e)
          refl h

    answered-AllRouted :
        (r : CallbackRound) (a : Result Error Datagram) (s : Queues)
        → ((d : Datagram) → a ≡ ok d → Got d)
        → AllRouted s
        → AllRouted (state_of (answered r a s))
    unfolding answered
    answered-AllRouted r (err e) s got h =
        elim r.after_error as (λ b. AllRouted (state_of (if b then next s else stop s))) [
          | true ↦ h
          | false ↦ h
        ]
    answered-AllRouted r (ok d) s got h = routed-AllRouted d r.open_ _ s (got d refl) refl h

    round-AllRouted :
        (r : CallbackRound) (s : Queues)
        → ((d : Datagram) → r.received ≡ ok d → Got d)
        → AllRouted s
        → AllRouted (state_of (callback_round r s))
    unfolding callback_round
    round-AllRouted r s got h =
        elim r.at_head
          as (λ b. AllRouted (state_of (if b then answered r r.received s else stop s))) [
            | true ↦ answered-AllRouted r r.received s got h
            | false ↦ h
          ]

    rounds-AllRouted :
        (rounds : List CallbackRound) (f : Flow Queues)
        → ((d : Datagram) → Received rounds d → Got d)
        → AllRouted (state_of f)
        → AllRouted (state_of (go_on callback_round rounds f))
    unfolding go_on
    rounds-AllRouted rounds (stop s) got h = h
    rounds-AllRouted [] (next s) got h = h
    rounds-AllRouted (r ∷ rounds) (next s) got h =
        rounds-AllRouted rounds (callback_round r s) (λ d g. got d (later g))
          (round-AllRouted r s (λ d e. got d (now e)) h)

  -- Whatever the environment does, each packet that is sent to a worker has the bytes and the peer of a
  -- datagram received in one of the rounds, which is routed to that worker by these and by its own local
  -- address, or by the fallback address where the receive is not transparent.
  pub dispatch-AllRouted :
      (rounds : List CallbackRound)
      → AllRouted
          (Received rounds)
          (state_of (dispatch_socket_only_packets rounds (replicate worker_count [])))
  unfolding dispatch_socket_only_packets run
  dispatch-AllRouted rounds =
      rounds-AllRouted (Received rounds) rounds (next (replicate worker_count [])) (λ d g. g)
        (λ w queue e.
          All-get_elem? (All (RoutesTo (Received rounds) w)) (replicate worker_count []) w queue
            (All-replicate (All (RoutesTo (Received rounds) w)) worker_count [] tt) e)
