-- ===== src/Platform/Linux/Quic/Laws.antt =====
-- What the sockets behind a kernel program have where the workers get them.
use mathlib.Core.Path.{subst}
use sfo_reuseport.Prelude.{
  ℕ, zero, suc, ◌≡◌, refl, ap, sym, ◌∙◌, ◌&&◌, ◌||◌, Bool, true, false, List, [], ◌∷◌, ◌++◌, Option,
  none, some, length, if◌then◌else◌,
}
use sfo_reuseport.Error.{ok}
use sfo_reuseport.Net.{SocketAddr}
use sfo_reuseport.Config.Socket.{SocketConfig}
use sfo_reuseport.System.{Event, local_addr, Oracle, Action, pure}
use sfo_reuseport.System.Spawned.{Spawned, spawned}
use sfo_reuseport.System.Registered.{Keeps, idle-Kept, bind-Keeps, bind_with-Keeps, raise-Keeps}
use sfo_reuseport.Server.Setup.Laws.{then-Keeps, asked-Keeps}
use sfo_reuseport.Platform.Options.{linux}
use sfo_reuseport.Platform.Binding.Quiet.{optional_udp-Keeps}
use sfo_reuseport.Platform.Linux.Quic.{
  add_socket, bind_rest, selected, with_first, bind_quic_udp_reuseport_workers,
}

-- What the sockets have where the workers get them: there is one for each worker; the system has
-- answered the first one's address, and the probe has been routed over exactly these sockets there.
pub data Bound {F J : Type 0} (system : Oracle F J) (routes_probe : List ℕ → SocketAddr → Bool)
    (workers : ℕ) : Option (List ℕ) → Type 0 where
  unbound : Bound system routes_probe workers none
  behind_program :
      (first : ℕ) (rest : List ℕ) (bind_addr : SocketAddr) (before : List (Event F J))
      → length (first ∷ rest) ≡ workers
      → system before (local_addr first) ≡ ok bind_addr
      → routes_probe (first ∷ rest) bind_addr ≡ true
      → Bound system routes_probe workers (some (first ∷ rest))

-- So many sockets, where there are any.
abbrev HasLength : ℕ → Option (List ℕ) → Type 0
HasLength n none = Unit
HasLength n (some sockets) = length sockets ≡ n

abbrev Counted : {J : Type 0} → ℕ → Option (List ℕ) → List (Spawned J) → Type 0
Counted n o js = HasLength n o × (js ≡ [])

abbrev add : ℕ → Option (List ℕ) → Option (List ℕ)
add socket sockets = elim sockets [ none ↦ none | some l ↦ some (socket ∷ l) ]

add-HasLength :
    (socket n : ℕ) (o : Option (List ℕ)) → HasLength n o → HasLength (suc n) (add socket o)
add-HasLength socket n none h = tt
add-HasLength socket n (some l) h = ap suc h

module _ {F J S : Type 0} (Holds : S → List (Spawned J) → Type 0) (system : Oracle F J) where
  module _ (attach_ebpf attach_cbpf : ℕ → ℕ → Bool)
      (routes_probe : List ℕ → SocketAddr → Bool) where
    add_socket-Keeps :
        (n : ℕ) (o : Option ℕ) (rest : Action F J S (Option (List ℕ)))
        → Keeps Holds rest (Counted n)
        → Keeps Holds
            (add_socket system attach_ebpf attach_cbpf routes_probe o rest)
            (Counted (suc n))
    unfolding add_socket spawned
    add_socket-Keeps n none rest h = λ w. idle-Kept Holds (Counted (suc n)) w (ok none) (tt, refl)
    add_socket-Keeps n (some socket) rest h =
        bind-Keeps Holds (Counted (suc n)) h
          (λ o w.
            idle-Kept Holds (λ p js. (p ≡ add socket o) × (js ≡ [])) w (ok (add socket o))
              (refl, refl))
          (λ o p js ks c e. (
            subst (HasLength (suc n)) (sym e.0) (add-HasLength socket n o c.0),
            ap (λ l. l ++ ks) c.1 ∙ e.1,
          ))

    bind_rest-Keeps :
        (c : SocketConfig F) (n : ℕ)
        → Keeps Holds (bind_rest system attach_ebpf attach_cbpf routes_probe c n) (Counted n)
    unfolding bind_rest spawned
    bind_rest-Keeps c zero = λ w. idle-Kept Holds (Counted 0) w (ok (some [])) (refl, refl)
    bind_rest-Keeps c (suc n) =
        then-Keeps Holds (optional_udp-Keeps Holds system linux c)
          (λ o. add_socket-Keeps n o _ (bind_rest-Keeps c n))

    tested-Bound :
        (attached probed : Bool) (first : ℕ) (rest : List ℕ) (bind_addr : SocketAddr) (n : ℕ)
        (before : List (Event F J))
        → length rest ≡ n
        → system before (local_addr first) ≡ ok bind_addr
        → routes_probe (first ∷ rest) bind_addr ≡ probed
        → Keeps {F = F} Holds
            (if attached && probed then pure (some (first ∷ rest)) else pure none)
            (λ o js. Bound system routes_probe (suc n) o × (js ≡ []))
    unfolding spawned
    tested-Bound true true first rest bind_addr n before l e p w =
        idle-Kept Holds (λ o js. Bound system routes_probe (suc n) o × (js ≡ [])) w (ok _)
          (behind_program first rest bind_addr before (ap suc l) e p, refl)
    tested-Bound true false first rest bind_addr n before l e p w =
        idle-Kept Holds (λ o js. Bound system routes_probe (suc n) o × (js ≡ [])) w (ok _)
          (unbound, refl)
    tested-Bound false probed first rest bind_addr n before l e p w =
        idle-Kept Holds (λ o js. Bound system routes_probe (suc n) o × (js ≡ [])) w (ok _)
          (unbound, refl)

    selected-Keeps :
        (first n : ℕ) (bind_addr : SocketAddr) (before : List (Event F J)) (o : Option (List ℕ))
        → HasLength n o
        → system before (local_addr first) ≡ ok bind_addr
        → Keeps Holds
            (selected system attach_ebpf attach_cbpf routes_probe first bind_addr (suc n) o)
            (λ o js. Bound system routes_probe (suc n) o × (js ≡ []))
    unfolding selected spawned
    selected-Keeps first n bind_addr before none h e = λ w.
        idle-Kept Holds (λ o js. Bound system routes_probe (suc n) o × (js ≡ [])) w (ok _)
          (unbound, refl)
    selected-Keeps first n bind_addr before (some rest) h e =
        tested-Bound (attach_ebpf first (suc n) || attach_cbpf first (suc n)) _ first rest bind_addr
          n before h e refl

    with_first-Keeps :
        (c : SocketConfig F) (n : ℕ) (o : Option ℕ)
        → Keeps Holds
            (with_first system attach_ebpf attach_cbpf routes_probe c n o)
            (λ o js. Bound system routes_probe (suc n) o × (js ≡ []))
    unfolding with_first spawned
    with_first-Keeps c n none = λ w.
        idle-Kept Holds (λ o js. Bound system routes_probe (suc n) o × (js ≡ [])) w (ok _)
          (unbound, refl)
    with_first-Keeps c n (some first) =
        bind_with-Keeps Holds (λ o js. Bound system routes_probe (suc n) o × (js ≡ []))
          (asked-Keeps Holds system (local_addr first) refl)
          (λ addr _ p.
            bind_with-Keeps Holds (λ o js. Bound system routes_probe (suc n) o × (js ≡ []))
              (bind_rest-Keeps (record c { bind_addr = addr }) n)
              (λ rest _ h. selected-Keeps first n addr p.0 rest h.0 p.1)
              (λ _ _ _ ks h q. (q.0, ap (λ l. l ++ ks) h.1 ∙ q.1)))
          (λ _ _ _ ks p q. (q.0, ap (λ l. l ++ ks) p.2 ∙ q.1))

    -- Binding the sockets of the workers behind a kernel program, on any system: it spawns no task
    -- and leaves the state alone; where the workers get sockets there is one for each worker, and the
    -- probe has been routed over exactly these sockets at the address of the first.
    pub bind-Bound :
        (disabled : Bool) (c : SocketConfig F) (workers : ℕ)
        → Keeps Holds
            (bind_quic_udp_reuseport_workers system attach_ebpf attach_cbpf routes_probe disabled c
              workers)
            (λ o js. Bound system routes_probe workers o × (js ≡ []))
    unfolding bind_quic_udp_reuseport_workers spawned
    bind-Bound true c workers = λ w.
        idle-Kept Holds (λ o js. Bound system routes_probe workers o × (js ≡ [])) w (ok _)
          (unbound, refl)
    bind-Bound false c zero = raise-Keeps Holds _ _
    bind-Bound false c (suc n) =
        then-Keeps Holds (optional_udp-Keeps Holds system linux c) (with_first-Keeps c n)
