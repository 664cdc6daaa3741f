-- ===== src/Platform/Binding/Quiet.antt =====
-- Binding sockets spawns no task and leaves the server's state alone; and how many sockets there are.
use mathlib.Core.List.{append-nil}
use mathlib.Core.Path.{subst}
use sfo_reuseport.Prelude.{
  ℕ, zero, suc, ◌≡◌, refl, ap, sym, ◌∙◌, Bool, true, false, List, [], ◌∷◌, ◌++◌, All, Option, none,
  some, length, if◌then◌else◌,
}
use sfo_reuseport.Error.{Error, Result, ok, err}
use sfo_reuseport.Net.{is_ipv4, is_ipv6}
use sfo_reuseport.Config.{TransparentMode, disabled, required, best_effort}
use sfo_reuseport.Config.Socket.{SocketConfig}
use sfo_reuseport.System.{
  SocketType, stream, dgram, Domain, set_reuse_address, set_reuse_address, Call, Event, Oracle,
  World, Action, optional, dropped,
}
use sfo_reuseport.System.Script.{Step, must}
use sfo_reuseport.System.Spawned.{Spawned, spawned, Quiet, Matches-none, Fails-none}
use sfo_reuseport.System.Registered.{Gives, Kept, Keeps, idle-Kept, bind-Keeps}
use sfo_reuseport.Platform.Options.{Platform, linux, bsd, windows, capabilities}
use sfo_reuseport.Platform.Binding.{for_address, collect, bind_workers, bind_tcp, bind_udp}
use sfo_reuseport.Platform.Binding.Script.{
  mode_steps, transparent_steps, reuse_steps, callback_steps, start_steps, bind_steps, Opening,
  not_created, opened, failed, Opens,
}
use sfo_reuseport.Platform.Binding.Laws.{bind_tcp-Opens, bind_udp-Opens}

module _ {F J : Type 0} where
  append-Quiet : (l k : List (Step F J)) → All Quiet l → All Quiet k → All Quiet (l ++ k)
  append-Quiet [] k h g = g
  append-Quiet (s ∷ l) k (h, hs) g = (h, append-Quiet l k hs g)

  -- The calls of a mode, however it takes them.
  mode_steps-Quiet :
      (m : TransparentMode) (fits : Bool) (e : Error) (a b c : Call F J)
      → All Quiet (mode_steps best_effort true e (a ∷ b ∷ c ∷ []))
      → All Quiet (mode_steps m fits e (a ∷ b ∷ c ∷ []))
  unfolding mode_steps
  mode_steps-Quiet disabled fits e a b c h = tt
  mode_steps-Quiet best_effort false e a b c h = tt
  mode_steps-Quiet best_effort true e a b c h = h
  mode_steps-Quiet required false e a b c h = (tt, tt)
  mode_steps-Quiet required true e a b c h = h

  if-Quiet : (b : Bool) (s : Step F J) → Quiet s → All Quiet (if b then s ∷ [] else [])
  if-Quiet true s h = (h, tt)
  if-Quiet false s h = tt

module _ (F J : Type 0) where
  transparent-Quiet :
      (p : Platform) (c : SocketConfig F) (fd : ℕ) → All Quiet (transparent_steps {J = J} p c fd)
  unfolding transparent_steps mode_steps
  transparent-Quiet linux c fd =
      append-Quiet _ _
        (mode_steps-Quiet c.socket_options.ipv4_transparent (is_ipv4 c.bind_addr) _ _ _ _
          (refl, (refl, (refl, tt))))
        (mode_steps-Quiet c.socket_options.ipv6_transparent (is_ipv6 c.bind_addr) _ _ _ _
          (refl, (refl, (refl, tt))))
  transparent-Quiet bsd c fd = if-Quiet _ _ tt
  transparent-Quiet windows c fd = if-Quiet _ _ tt

  reuse-Quiet : (p : Platform) (fd : ℕ) → All Quiet (reuse_steps {F = F} {J = J} p fd)
  unfolding reuse_steps
  reuse-Quiet linux fd = (refl, tt)
  reuse-Quiet bsd fd = (refl, tt)
  reuse-Quiet windows fd = tt

  callback-Quiet : (callback : Option F) (fd : ℕ) → All Quiet (callback_steps {J = J} callback fd)
  unfolding callback_steps
  callback-Quiet none fd = tt
  callback-Quiet (some f) fd = (refl, tt)

  start-Quiet :
      (k : SocketType) (c : SocketConfig F) (fd : ℕ)
      → All Quiet (start_steps {F = F} {J = J} k c.bind_addr fd)
  unfolding start_steps
  start-Quiet stream c fd = (refl, (refl, (refl, tt)))
  start-Quiet dgram c fd = (refl, (refl, tt))

  abbrev common_steps : Platform → SocketConfig F → ℕ → List (Step F J)
  common_steps p c fd =
      (must (set_reuse_address fd c.socket_options.reuse_address) ∷ reuse_steps p fd)
      ++ transparent_steps p c fd

  common-Quiet : (p : Platform) (c : SocketConfig F) (fd : ℕ) → All Quiet (common_steps p c fd)
  common-Quiet p c fd =
      (refl, append-Quiet (reuse_steps p fd) _ (reuse-Quiet p fd) (transparent-Quiet p c fd))

  bind_steps-Quiet :
      (k : SocketType) (p : Platform) (c : SocketConfig F) (fd : ℕ)
      → All Quiet (bind_steps {J = J} k p c fd)
  unfolding bind_steps
  bind_steps-Quiet k p c fd =
      append-Quiet (callback_steps c.socket_init_callback fd) _
        (callback-Quiet c.socket_init_callback fd)
        (append-Quiet (common_steps p c fd) _ (common-Quiet p c fd) (start-Quiet k c fd))

module _ {F J : Type 0} (d : Domain) (k : SocketType) (script : ℕ → List (Step F J))
    (quiet : (fd : ℕ) → All Quiet (script fd)) where
  none_spawned :
      (es : List (Event F J)) (r : Result Error ℕ) → Opening d k script es r → spawned es ≡ []
  unfolding spawned
  none_spawned es r (not_created e) = refl
  none_spawned es r (opened fd m) = Matches-none m (quiet fd)
  none_spawned es r (failed fd m) = Fails-none m (quiet fd)

pub gives_none :
    {A J : Type 0} (js : List (Spawned J)) (r : Result Error A)
    → js ≡ []
    → Gives (λ _ ks. ks ≡ []) js r
gives_none js (ok fd) e = e
gives_none js (err x) e = tt

-- `n` sockets, and no task.
abbrev pub Sockets : {J : Type 0} → ℕ → List ℕ → List (Spawned J) → Type 0
Sockets n fds js = (length fds ≡ n) × (js ≡ [])

module _ {F J S : Type 0} (Holds : S → List (Spawned J) → Type 0) where
  pub Opens-Kept :
      (d : Domain) (k : SocketType) (script : ℕ → List (Step F J))
      → ((fd : ℕ) → All Quiet (script fd))
      → (w : World F J S) (r : Result Error ℕ × World F J S) → Opens d k script w r
      → Kept Holds (λ _ js. js ≡ []) w r
  Opens-Kept d k script quiet w r o =
      let none_ = none_spawned d k script quiet o.calls r.0 o.opening in
      record {
        calls = o.calls;
        are_logged = o.are_logged;
        registered = λ js h.
            subst (λ s. Holds s (js ++ spawned o.calls)) (sym o.same_state)
              (subst (Holds w.state) (sym (append-nil js) ∙ ap (λ l. js ++ l) (sym none_)) h);
        value = gives_none (spawned o.calls) r.0 none_;
      }

  optional-Kept :
      (w : World F J S) (r : Result Error ℕ × World F J S)
      → (k : Kept Holds (λ _ js. js ≡ []) w r) → spawned k.calls ≡ []
      → Kept Holds (λ _ js. js ≡ []) w (dropped r)
  optional-Kept w (ok fd, v) k e = record {
    calls = k.calls;
    are_logged = k.are_logged;
    registered = k.registered;
    value = e;
  }
  optional-Kept w (err x, v) k e = record {
    calls = k.calls;
    are_logged = k.are_logged;
    registered = k.registered;
    value = e;
  }

  -- One socket after another.
  pub collect-Keeps :
      (one : Action F J S ℕ)
      → Keeps Holds one (λ _ js. js ≡ [])
      → (n : ℕ) → Keeps Holds (collect one n) (Sockets n)
  unfolding collect spawned
  collect-Keeps one h zero = λ w. idle-Kept Holds (Sockets 0) w (ok []) (refl, refl)
  collect-Keeps one h (suc n) =
      bind-Keeps Holds (Sockets (suc n)) h
        (λ fd.
          bind-Keeps Holds (Sockets (suc n)) (collect-Keeps one h n)
            (λ rest w.
              idle-Kept Holds (λ fds js. (fds ≡ fd ∷ rest) × (js ≡ [])) w (ok (fd ∷ rest))
                (refl, refl))
            (λ rest fds js ks s e. (ap length e.0 ∙ ap suc s.0, ap (λ l. l ++ ks) s.1 ∙ e.1)))
        (λ fd fds js ks e s. (s.0, ap (λ l. l ++ ks) e ∙ s.1))

  pub bind_workers-Keeps :
      (p : Platform) (one : Action F J S ℕ)
      → Keeps Holds one (λ _ js. js ≡ [])
      → (workers : ℕ) → (capabilities p).reuse_port_balancing ≡ true
      → Keeps Holds (bind_workers p one workers) (Sockets workers)
  unfolding bind_workers
  bind_workers-Keeps p one h workers balanced w = rw balanced (collect-Keeps one h workers w)

  module _ (system : Oracle F J) (p : Platform) (c : SocketConfig F) where
    pub bind_tcp-Keeps : Keeps Holds (bind_tcp system p c) (λ _ js. js ≡ [])
    bind_tcp-Keeps w =
        Opens-Kept (for_address c.bind_addr.ip) stream (bind_steps stream p c)
          (bind_steps-Quiet F J stream p c) w _ (bind_tcp-Opens system p c w)

    pub bind_udp-Keeps : Keeps Holds (bind_udp system p c) (λ _ js. js ≡ [])
    bind_udp-Keeps w =
        Opens-Kept (for_address c.bind_addr.ip) dgram (bind_steps dgram p c)
          (bind_steps-Quiet F J dgram p c) w _ (bind_udp-Opens system p c w)

    -- Where a failure is dropped.
    pub optional_udp-Keeps : Keeps Holds (optional (bind_udp system p c)) (λ _ js. js ≡ [])
    unfolding Opens-Kept
    optional_udp-Keeps w =
        let o = bind_udp-Opens system p c w in
        optional-Kept w _
          (Opens-Kept (for_address c.bind_addr.ip) dgram (bind_steps dgram p c)
            (bind_steps-Quiet F J dgram p c) w _ o)
          (none_spawned (for_address c.bind_addr.ip) dgram (bind_steps dgram p c)
            (bind_steps-Quiet F J dgram p c) o.calls (bind_udp system p c w).0 o.opening)
