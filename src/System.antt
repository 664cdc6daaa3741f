-- ===== src/System.antt =====
-- What the functions that set a server up ask of the operating system and of the workers' executors,
-- and the order in which they ask. A call and its answer are written to a log; the answer may depend
-- on all that was logged before. A socket, an executor and a task are numbers. `F` is the type of
-- the user's callbacks on a new socket, `J` that of the tasks that are spawned.
pub mod Registered
pub mod Sample
pub mod Script
pub mod Spawned
pub mod Submitted
use sfo_reuseport.Prelude.{ℕ, ◌+◌, Bool, List, [], ◌∷◌, ◌++◌, Option, none, some, replicate}
use sfo_reuseport.Error.{
  Error, socket_init_callback, fmt, IoError, from_io, Result, ok, err, map_err,
}
use sfo_reuseport.Net.{SocketAddr}

-- `socket2::Type`, with the protocol that goes with it.
pub data SocketType : Type 0 where
  stream dgram : SocketType

-- `socket2::Domain`.
pub data Domain : Type 0 where
  ipv4 ipv6 : Domain

-- The level and the name of an option of `setsockopt`.
pub data SocketOption : Type 0 where
  ip_origdstaddr ip_freebind ipv6_recvorigdstaddr ipv6_freebind : SocketOption

pub data Call (F J : Type 0) : Type 0 where
  socket : Domain → SocketType → Call F J
  init_callback : F → ℕ → Call F J
  set_reuse_address set_reuse_port set_ip_transparent_v4 : ℕ → Bool → Call F J
  set_ip_transparent_v6 set_nonblocking : ℕ → Bool → Call F J
  setsockopt : ℕ → SocketOption → ℕ → Call F J
  bind : ℕ → SocketAddr → Call F J
  listen : ℕ → ℕ → Call F J
  local_addr try_clone : ℕ → Call F J
  -- A task for an executor, answered by the task's handle.
  spawn : ℕ → J → Call F J

-- What a call returns where it succeeds.
abbrev pub Reply : {F J : Type 0} → Call F J → Type 0
Reply (socket _ _) = ℕ
Reply (try_clone _) = ℕ
Reply (spawn _ _) = ℕ
Reply (local_addr _) = SocketAddr
Reply _ = Unit

-- How a call fails: a callback with an error of the crate, any other with one of the system.
abbrev pub Failure : {F J : Type 0} → Call F J → Type 0
Failure (init_callback _ _) = Error
Failure _ = IoError

-- The error that is passed on. Of a callback it is `Error::SocketInitCallback(error.to_string())`, and
-- otherwise `Error::from(error)`.
abbrev pub failed : {F J : Type 0} → (c : Call F J) → Failure c → Error
failed (init_callback _ _) e = socket_init_callback (fmt e)
failed _ e = from_io e

pub data Event (F J : Type 0) : Type 0 where
  event : (c : Call F J) → Result (Failure c) (Reply c) → Event F J

-- The system: its answer to a call, after what was logged.
abbrev pub Oracle : Type 0 → Type 0 → Type 0
Oracle F J = List (Event F J) → (c : Call F J) → Result (Failure c) (Reply c)

-- The log, and the state of the server that is set up.
pub record World (F J S : Type 0) : Type 0 where
  pub log : List (Event F J)
  pub state : S

-- A function that makes calls, and can fail: what it has done before a failure stays done.
abbrev pub Action : Type 0 → Type 0 → Type 0 → Type 0 → Type 0
Action F J S A = World F J S → Result Error A × World F J S

module _ {F J S : Type 0} where
  abbrev pub pure : {A : Type 0} → A → Action F J S A
  pure a w = (ok a, w)

  -- `return Err(e)`, or `Err(e)?`.
  abbrev pub raise : {A : Type 0} → Error → Action F J S A
  raise e w = (err e, w)

  abbrev pub lift : {A : Type 0} → Result Error A → Action F J S A
  lift r w = (r, w)

  abbrev pub continue :
      {A B : Type 0}
      → (A → Action F J S B)
      → Result Error A × World F J S
      → Result Error B × World F J S
  continue k (ok a, w) = k a w
  continue k (err e, w) = (err e, w)

  infixl 5 ◌>>=◌ ◌>>◌
  abbrev pub ◌>>=◌ : {A B : Type 0} → Action F J S A → (A → Action F J S B) → Action F J S B
  ◌>>=◌ m k w = continue k (m w)

  abbrev pub ◌>>◌ : {A B : Type 0} → Action F J S A → Action F J S B → Action F J S B
  m >> k = m >>= λ _. k

  abbrev pub logged : (c : Call F J) → Result (Failure c) (Reply c) → World F J S → World F J S
  logged c r w = record w { log = w.log ++ event c r ∷ [] }

  -- `match result { Ok(a) => .., Err(_) => .. }`, which drops the error.
  abbrev pub dropped :
      {A : Type 0} → Result Error A × World F J S → Result Error (Option A) × World F J S
  dropped (ok a, w) = (ok (some a), w)
  dropped (err _, w) = (ok none, w)

  abbrev pub optional : {A : Type 0} → Action F J S A → Action F J S (Option A)
  optional m w = dropped (m w)

  abbrev pub updated : Result Error S → World F J S → Result Error (Unit {0}) × World F J S
  updated (ok s) w = (ok tt, record w { state = s })
  updated (err e) w = (err e, w)

  -- An operation on the server's state.
  abbrev pub update : (S → Result Error S) → Action F J S (Unit {0})
  update f w = updated (f w.state) w

  module _ (system : Oracle F J) where
    -- A call, whose error is converted and passed on by `?`.
    abbrev pub ask : (c : Call F J) → Action F J S (Reply c)
    ask c w = (map_err (failed c) (system w.log c), logged c (system w.log c) w)

    -- `let _ = call`: the result is dropped.
    abbrev pub attempt : (c : Call F J) → Action F J S (Unit {0})
    attempt c w = (ok tt, logged c (system w.log c) w)

  -- `for (id, x) in xs.into_iter().enumerate()`, from the number `id` on.
  unfoldable pub for_each :
      {A : Type 0} → (ℕ → A → Action F J S (Unit {0})) → ℕ → List A → Action F J S (Unit {0})
  for_each body id [] = pure tt
  for_each body id (x ∷ xs) = body id x >> for_each body (id + 1) xs

-- `for id in 0..count`.
unfoldable pub for_range :
    {F J S : Type 0} → (ℕ → Action F J S (Unit {0})) → ℕ → Action F J S (Unit {0})
unfolding for_each
for_range body count = for_each (λ id _. body id) 0 (replicate count tt)
