-- ===== src/Platform/Linux/Quic/Own.antt =====
-- What is called to get the sockets of the workers behind a kernel program, where the workers get them.
use mathlib.Core.List.{append_assoc, append-nil}
use sfo_reuseport.Prelude.{
  ℕ, zero, suc, ◌≡◌, refl, ap, sym, ◌∙◌, ◌&&◌, ◌||◌, Bool, true, false, List, [], ◌∷◌, ◌++◌, Option,
  none, some, length, if◌then◌else◌,
}
use sfo_reuseport.Error.{Error, IoError, from_io, Result, ok, err, map_err}
use sfo_reuseport.Net.{SocketAddr}
use sfo_reuseport.Config.Socket.{SocketConfig}
use sfo_reuseport.System.{
  Event, event, dgram, local_addr, Oracle, World, Action, pure, continue, dropped, logged, ◌>>=◌,
}
use sfo_reuseport.Server.Setup.Own.{Openings, all_opened, next_opened}
use sfo_reuseport.Platform.Options.{linux}
use sfo_reuseport.Platform.Binding.{for_address, bind_udp}
use sfo_reuseport.Platform.Binding.Script.{bind_steps, Opening, Opens}
use sfo_reuseport.Platform.Binding.Laws.{bind_udp-Opens}
use sfo_reuseport.Platform.Linux.Quic.{
  add_socket, bind_rest, selected, with_first, bind_quic_udp_reuseport_workers,
}

-- The calls open a UDP socket of this configuration on Linux.
abbrev OpensUdp : {F J : Type 0} → SocketConfig F → ℕ → List (Event F J) → Type 0
OpensUdp c fd calls =
    Opening (for_address c.bind_addr.ip) dgram (bind_steps dgram linux c) calls (ok fd)

abbrev OpensAll : {F J : Type 0} → SocketConfig F → List ℕ → List (Event F J) → Type 0
OpensAll c fds calls =
    Openings (for_address c.bind_addr.ip) dgram (bind_steps dgram linux c) fds calls

module _ {F J : Type 0} (attach_ebpf attach_cbpf : ℕ → ℕ → Bool)
    (routes_probe : List ℕ → SocketAddr → Bool) where
  -- The calls open these sockets one after another, the first at the address of the configuration and
  -- the rest at the address that the first one has; a program was attached to the first, for as many
  -- workers as there are sockets; and the probe has been routed over exactly these sockets.
  pub record BehindProgram (c : SocketConfig F) (workers : ℕ) (sockets : List ℕ)
      (calls : List (Event F J)) : Type 0 where
    pub first : ℕ
    pub rest : List ℕ
    pub bind_addr : SocketAddr
    pub first_calls : List (Event F J)
    pub rest_calls : List (Event F J)
    pub are_sockets : sockets ≡ first ∷ rest
    pub one_each : length sockets ≡ workers
    pub are_all : calls ≡ first_calls ++ event (local_addr first) (ok bind_addr) ∷ rest_calls
    pub first_opened : OpensUdp c first first_calls
    pub rest_opened : OpensAll (record c { bind_addr = bind_addr }) rest rest_calls
    pub is_attached : (attach_ebpf first workers || attach_cbpf first workers) ≡ true
    pub is_routed : routes_probe sockets bind_addr ≡ true

  module _ {S : Type 0} where
    -- The calls up to a result, where it has the sockets.
    abbrev RestTrail :
        SocketConfig F → ℕ → World F J S → Result Error (Option (List ℕ)) × World F J S → Type 0
    RestTrail c n w (ok (some fds), v) =
        (es : List (Event F J)) × (v.log ≡ w.log ++ es) × (length fds ≡ n) × OpensAll c fds es
    RestTrail c n w (ok none, v) = Unit
    RestTrail c n w (err e, v) = Unit

    abbrev pub ProgramTrail :
        SocketConfig F → ℕ → World F J S → Result Error (Option (List ℕ)) × World F J S → Type 0
    ProgramTrail c n w (ok (some fds), v) =
        (es : List (Event F J)) × (v.log ≡ w.log ++ es) × BehindProgram c n fds es
    ProgramTrail c n w (ok none, v) = Unit
    ProgramTrail c n w (err e, v) = Unit

    module _ (system : Oracle F J) where
      abbrev UdpOpens : SocketConfig F → World F J S → Result Error ℕ × World F J S → Type 0
      UdpOpens c w r = Opens (for_address c.bind_addr.ip) dgram (bind_steps dgram linux c) w r

      added-RestTrail :
          (c : SocketConfig F) (n fd : ℕ) (w v : World F J S)
          → UdpOpens c w (ok fd, v)
          → (q : Result Error (Option (List ℕ)) × World F J S) → RestTrail c n v q
          → RestTrail c
              (suc n)
              w
              (continue (λ sockets. pure (elim sockets [ none ↦ none | some l ↦ some (fd ∷ l) ])) q)
      added-RestTrail c n fd w v o (ok (some fds), u) (es, l, e, os) = (
        o.calls ++ es,
        l ∙ ap (λ x. x ++ es) o.are_logged ∙ append_assoc w.log o.calls es,
        ap suc e,
        next_opened o.opening os,
      )
      added-RestTrail c n fd w v o (ok none, u) t = tt
      added-RestTrail c n fd w v o (err e, u) t = tt

      next-RestTrail :
          (c : SocketConfig F) (n : ℕ) (rest : Action F J S (Option (List ℕ)))
          → ((v : World F J S) → RestTrail c n v (rest v))
          → (w : World F J S) (r : Result Error ℕ × World F J S) → UdpOpens c w r
          → RestTrail c (suc n) w (
              continue
                (λ socket. add_socket system attach_ebpf attach_cbpf routes_probe socket rest)
                (dropped r))
      unfolding add_socket
      next-RestTrail c n rest h w (ok fd, v) o = added-RestTrail c n fd w v o (rest v) (h v)
      next-RestTrail c n rest h w (err e, v) o = tt

      bind_rest-RestTrail :
          (c : SocketConfig F) (n : ℕ) (w : World F J S)
          → RestTrail c n w (bind_rest system attach_ebpf attach_cbpf routes_probe c n w)
      unfolding bind_rest
      bind_rest-RestTrail c zero w = ([], sym (append-nil w.log), refl, all_opened)
      bind_rest-RestTrail c (suc n) w =
          next-RestTrail c n _ (bind_rest-RestTrail c n) w (bind_udp system linux c w)
            (bind_udp-Opens system linux c w)

      module _ (c : SocketConfig F) (n first : ℕ) (bind_addr : SocketAddr) (w v : World F J S)
          (o : UdpOpens c w (ok first, v)) where
        abbrev asked : World F J S
        asked = logged (local_addr first) (ok bind_addr) v

        tested-ProgramTrail :
            (rest : List ℕ) (u : World F J S)
            → RestTrail (record c { bind_addr = bind_addr }) n asked (ok (some rest), u)
            → (attached probed : Bool)
            → (attach_ebpf first (suc n) || attach_cbpf first (suc n)) ≡ attached
            → routes_probe (first ∷ rest) bind_addr ≡ probed
            → ProgramTrail c
                (suc n)
                w
                ((if attached && probed then pure (some (first ∷ rest)) else pure none) u)
        tested-ProgramTrail rest u (es, l, e, os) true true a b = (
          o.calls ++ event (local_addr first) (ok bind_addr) ∷ es,
          l
              ∙ append_assoc v.log (event (local_addr first) (ok bind_addr) ∷ []) es
              ∙ ap (λ x. x ++ event (local_addr first) (ok bind_addr) ∷ es) o.are_logged
              ∙ append_assoc w.log o.calls (event (local_addr first) (ok bind_addr) ∷ es),
          record {
            first = first;
            rest = rest;
            bind_addr = bind_addr;
            first_calls = o.calls;
            rest_calls = es;
            are_sockets = refl;
            one_each = ap suc e;
            are_all = refl;
            first_opened = o.opening;
            rest_opened = os;
            is_attached = a;
            is_routed = b;
          },
        )
        tested-ProgramTrail rest u t true false a b = tt
        tested-ProgramTrail rest u t false probed a b = tt

        selected-ProgramTrail :
            (q : Result Error (Option (List ℕ)) × World F J S)
            → RestTrail (record c { bind_addr = bind_addr }) n asked q
            → ProgramTrail c (suc n) w (
                continue
                  (selected system attach_ebpf attach_cbpf routes_probe first bind_addr (suc n))
                  q)
        unfolding selected
        selected-ProgramTrail (ok (some rest), u) t = tested-ProgramTrail rest u t _ _ refl refl
        selected-ProgramTrail (ok none, u) t = tt
        selected-ProgramTrail (err e, u) t = tt

      answered-ProgramTrail :
          (c : SocketConfig F) (n first : ℕ) (w v : World F J S)
          → UdpOpens c w (ok first, v)
          → (a : Result IoError SocketAddr)
          → ProgramTrail c (suc n) w (
              continue
                (λ bind_addr.
                  bind_rest system attach_ebpf attach_cbpf routes_probe
                    (record c { bind_addr = bind_addr })
                    n
                  >>= selected system attach_ebpf attach_cbpf routes_probe first bind_addr (suc n))
                (map_err from_io a, logged (local_addr first) a v))
      answered-ProgramTrail c n first w v o (ok addr) =
          selected-ProgramTrail c n first addr w v o _
            (bind_rest-RestTrail (record c { bind_addr = addr }) n _)
      answered-ProgramTrail c n first w v o (err e) = tt

      with_first-ProgramTrail :
          (c : SocketConfig F) (n : ℕ) (w : World F J S) (r : Result Error ℕ × World F J S)
          → UdpOpens c w r
          → ProgramTrail c
              (suc n)
              w
              (continue (with_first system attach_ebpf attach_cbpf routes_probe c n) (dropped r))
      unfolding with_first
      with_first-ProgramTrail c n w (ok first, v) o =
          answered-ProgramTrail c n first w v o (system v.log (local_addr first))
      with_first-ProgramTrail c n w (err e, v) o = tt

      pub bind-ProgramTrail :
          (disabled : Bool) (c : SocketConfig F) (workers : ℕ) (w : World F J S)
          → ProgramTrail c workers w (
              bind_quic_udp_reuseport_workers system attach_ebpf attach_cbpf routes_probe disabled c
                workers w)
      unfolding bind_quic_udp_reuseport_workers
      bind-ProgramTrail true c workers w = tt
      bind-ProgramTrail false c zero w = tt
      bind-ProgramTrail false c (suc n) w =
          with_first-ProgramTrail c n w (bind_udp system linux c w)
            (bind_udp-Opens system linux c w)
