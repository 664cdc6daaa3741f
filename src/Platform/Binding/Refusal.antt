-- ===== src/Platform/Binding/Refusal.antt =====
-- A transparent mode that is required where it cannot be had: no socket is bound.
use sfo_reuseport.Prelude.{
  ℕ, ◌≡◌, refl, ap, ◌∙◌, Bool, true, false, not, ◌&&◌, ◌||◌, List, [], ◌∷◌, ◌++◌, All, Option, none,
  some, if◌then◌else◌, arith,
}
use sfo_reuseport.Error.{Error, from_io, Result, err}
use sfo_reuseport.Net.{is_ipv4, is_ipv6}
use sfo_reuseport.Config.{TransparentMode, disabled, required, best_effort}
use sfo_reuseport.Config.Socket.{SocketConfig}
use sfo_reuseport.System.{
  SocketType, stream, dgram, Domain, Call, Event, event, set_reuse_address, set_ip_transparent_v4,
  set_ip_transparent_v6, setsockopt, ip_origdstaddr, ip_freebind, ipv6_recvorigdstaddr,
  ipv6_freebind, bind, Oracle, World,
}
use sfo_reuseport.System.Script.{
  Step, must, may, refuse, Matches, finished, met, tried, Fails, unmet, refused, after_met,
  after_tried,
}
use sfo_reuseport.Platform.Options.{Platform, linux, bsd, windows, is_required}
use sfo_reuseport.Platform.Binding.{for_address, bind_tcp, bind_udp}
use sfo_reuseport.Platform.Binding.Script.{
  mode_steps, transparent_steps, reuse_steps, callback_steps, start_steps, bind_steps, Opening,
  not_created, opened, failed, Opens,
}
use sfo_reuseport.Platform.Binding.Laws.{bind_tcp-Opens, bind_udp-Opens}

-- A required mode that the platform does not have, or that is not of the address's family.
abbrev pub is_unfit : {F : Type 0} → Platform → SocketConfig F → Bool
is_unfit linux c =
    is_required c.socket_options.ipv4_transparent && not (is_ipv4 c.bind_addr)
    || is_required c.socket_options.ipv6_transparent && not (is_ipv6 c.bind_addr)
is_unfit _ c =
    is_required c.socket_options.ipv4_transparent || is_required c.socket_options.ipv6_transparent

abbrev pub is_bind : {F J : Type 0} → Call F J → Bool
is_bind (bind _ _) = true
is_bind _ = false

abbrev pub NotBind : {F J : Type 0} → Event F J → Type 0
NotBind (event c _) = is_bind c ≡ false

-- A script refuses before it binds.
guarded : {F J : Type 0} → List (Step F J) → Bool
guarded [] = false
guarded (refuse _ ∷ l) = true
guarded (must c ∷ l) = not (is_bind c) && guarded l
guarded (may c ∷ l) = not (is_bind c) && guarded l

unguarded : (x b : Bool) → not x && b ≡ true → (x ≡ false) × (b ≡ true)
unguarded true b e = absurd (ground arith)
unguarded false b e = (refl, e)

module _ {F J : Type 0} where
  -- Such a script is never followed to its end, and no socket is bound before it fails.
  Matches-unguarded :
      {l : List (Step F J)} {es : List (Event F J)} → Matches l es → guarded l ≡ true → ⊥
  unfolding guarded
  Matches-unguarded finished g = absurd (ground arith)
  Matches-unguarded (met {c = c} v m) g = Matches-unguarded m (unguarded (is_bind c) _ g).1
  Matches-unguarded (tried {c = c} r m) g = Matches-unguarded m (unguarded (is_bind c) _ g).1

  Fails-NotBind :
      {l : List (Step F J)} {es : List (Event F J)} {e : Error}
      → Fails l es e
      → guarded l ≡ true
      → All NotBind es
  unfolding guarded
  Fails-NotBind (unmet {c = c} e) g = ((unguarded (is_bind c) _ g).0, tt)
  Fails-NotBind refused g = tt
  Fails-NotBind (after_met {c = c} v m) g =
      let (b, h) = unguarded (is_bind c) _ g in (b, Fails-NotBind m h)
  Fails-NotBind (after_tried {c = c} r m) g =
      let (b, h) = unguarded (is_bind c) _ g in (b, Fails-NotBind m h)

  guarded-append : (l k : List (Step F J)) → guarded l ≡ true → guarded (l ++ k) ≡ true
  unfolding guarded
  guarded-append [] k g = absurd (ground arith)
  guarded-append (refuse e ∷ l) k g = refl
  guarded-append (must c ∷ l) k g =
      let (b, h) = unguarded (is_bind c) (guarded l) g in rw (b, guarded-append l k h) refl
  guarded-append (may c ∷ l) k g =
      let (b, h) = unguarded (is_bind c) (guarded l) g in rw (b, guarded-append l k h) refl

  abbrev v4_calls : ℕ → List (Call F J)
  v4_calls fd =
      set_ip_transparent_v4 fd true
      ∷ setsockopt fd ip_origdstaddr 1
      ∷ setsockopt fd ip_freebind 1
      ∷ []

  abbrev v6_calls : ℕ → List (Call F J)
  v6_calls fd =
      set_ip_transparent_v6 fd true
      ∷ setsockopt fd ipv6_recvorigdstaddr 1
      ∷ setsockopt fd ipv6_freebind 1
      ∷ []

  guarded-v4 :
      (m : TransparentMode) (fits : Bool) (e : Error) (fd : ℕ) (k : List (Step F J))
      → guarded (mode_steps m fits e (v4_calls fd) ++ k) ≡ (is_required m && not fits) || guarded k
  unfolding guarded mode_steps
  guarded-v4 disabled fits e fd k = refl
  guarded-v4 best_effort false e fd k = refl
  guarded-v4 best_effort true e fd k = refl
  guarded-v4 required false e fd k = refl
  guarded-v4 required true e fd k = refl

  guarded-callback :
      (callback : Option F) (fd : ℕ) (k : List (Step F J))
      → guarded (callback_steps callback fd ++ k) ≡ guarded k
  unfolding guarded callback_steps
  guarded-callback none fd k = refl
  guarded-callback (some f) fd k = refl

  guarded-reuse :
      (p : Platform) (fd : ℕ) (b : Bool) (k : List (Step F J))
      → guarded ((must (set_reuse_address fd b) ∷ reuse_steps p fd) ++ k) ≡ guarded k
  unfolding guarded reuse_steps
  guarded-reuse linux fd b k = refl
  guarded-reuse bsd fd b k = refl
  guarded-reuse windows fd b k = refl

module _ (F J : Type 0) where
  guarded-v6 :
      (m : TransparentMode) (fits : Bool) (e : Error) (fd : ℕ)
      → guarded {F = F} {J = J} (mode_steps m fits e (v6_calls fd)) ≡ is_required m && not fits
  unfolding guarded mode_steps
  guarded-v6 disabled fits e fd = refl
  guarded-v6 best_effort false e fd = refl
  guarded-v6 best_effort true e fd = refl
  guarded-v6 required false e fd = refl
  guarded-v6 required true e fd = refl

  guarded-if :
      (b : Bool) (e : Error) → guarded {F = F} {J = J} (if b then refuse e ∷ [] else []) ≡ b
  unfolding guarded
  guarded-if true e = refl
  guarded-if false e = refl

  guarded-transparent :
      (p : Platform) (c : SocketConfig F) (fd : ℕ)
      → guarded {J = J} (transparent_steps p c fd) ≡ is_unfit p c
  unfolding transparent_steps
  guarded-transparent linux c fd =
      guarded-v4 c.socket_options.ipv4_transparent (is_ipv4 c.bind_addr) _ fd _
      ∙ ap (λ g. is_required c.socket_options.ipv4_transparent && not (is_ipv4 c.bind_addr) || g)
          (guarded-v6 c.socket_options.ipv6_transparent (is_ipv6 c.bind_addr) _ fd)
  guarded-transparent bsd c fd = guarded-if _ _
  guarded-transparent windows c fd = guarded-if _ _

  guarded-bind :
      (k : SocketType) (p : Platform) (c : SocketConfig F) (fd : ℕ)
      → is_unfit p c ≡ true
      → guarded {J = J} (bind_steps k p c fd) ≡ true
  unfolding bind_steps
  guarded-bind k p c fd unfit =
      guarded-callback c.socket_init_callback fd _
      ∙ guarded-append _ (start_steps k c.bind_addr fd)
          (guarded-reuse p fd c.socket_options.reuse_address _ ∙ guarded-transparent p c fd ∙ unfit)

-- From a world to a result: an error, and none of the calls made since binds a socket.
pub record NeverBound {F J S : Type 0} (w : World F J S) (r : Result Error ℕ × World F J S)
    : Type 0 where
  pub error : Error
  pub is_error : r.0 ≡ err error
  pub calls : List (Event F J)
  pub are_logged : r.1.log ≡ w.log ++ calls
  pub no_bind : All NotBind calls

module _ {F J : Type 0} where
  abbrev FailedWith : Result Error ℕ → List (Event F J) → Type 0
  FailedWith r es = (e : Error) × (r ≡ err e) × All NotBind es

  failed_first :
      (d : Domain) (k : SocketType) (script : ℕ → List (Step F J)) (es : List (Event F J))
      (r : Result Error ℕ)
      → ((fd : ℕ) → guarded (script fd) ≡ true)
      → Opening d k script es r
      → FailedWith r es
  failed_first d k script es r g (not_created e) = (from_io e, refl, (refl, tt))
  failed_first d k script es r g (opened fd m) = absurd (Matches-unguarded m (g fd))
  failed_first d k script es r g (failed fd {e = e} m) = (e, refl, (refl, Fails-NotBind m (g fd)))

module _ {F J S : Type 0} where
  Opens-NeverBound :
      (d : Domain) (k : SocketType) (script : ℕ → List (Step F J)) (w : World F J S)
      (r : Result Error ℕ × World F J S)
      → ((fd : ℕ) → guarded (script fd) ≡ true)
      → Opens d k script w r
      → NeverBound w r
  Opens-NeverBound d k script w r g o =
      let f = failed_first d k script o.calls r.0 g o.opening in
      record {
        error = f.0;
        is_error = f.1;
        calls = o.calls;
        are_logged = o.are_logged;
        no_bind = f.2;
      }

-- Where a transparent mode is required that the platform does not have, or that is not of the
-- address's family, opening a TCP listener and opening a UDP socket both return an error, whatever
-- the system answers, and neither makes a call that binds a socket.
pub bind-NeverBound :
    {F J S : Type 0} (system : Oracle F J) (p : Platform) (c : SocketConfig F) (w : World F J S)
    → is_unfit p c ≡ true
    → NeverBound w (bind_tcp system p c w) × NeverBound w (bind_udp system p c w)
bind-NeverBound system p c w unfit = (
  Opens-NeverBound (for_address c.bind_addr.ip) stream (bind_steps stream p c) w _
      (λ fd. guarded-bind _ _ stream p c fd unfit) (bind_tcp-Opens system p c w),
  Opens-NeverBound (for_address c.bind_addr.ip) dgram (bind_steps dgram p c) w _
      (λ fd. guarded-bind _ _ dgram p c fd unfit) (bind_udp-Opens system p c w),
)
