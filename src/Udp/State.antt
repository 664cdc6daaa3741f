-- ===== src/Udp/State.antt =====
-- `UdpServerState` of src/core/udp.rs: the flag, the tasks and the sockets of a UDP server. A socket
-- is a number, its descriptor; so are a task and a thread. What the operating system answers to a
-- call is an argument of the operation that makes the call.
pub mod Laws
mod Tests
use sfo_reuseport.Prelude.{
  ℕ, suc, ◌+◌, ◌%◌, ◌^◌, ◌==◌, ◌&&◌, Bool, true, false, not, bit_xor, List, [], ◌∷◌, ◌++◌, map,
  Option, none, some, length, get_elem?, if◌then◌else◌,
}
use sfo_reuseport.Error.{Error, runtime, IoError, from_io, text, Result, ok, err, map_err, ◌>>=◌}
use sfo_reuseport.Net.{IpAddr, v4, v6, SocketAddr, is_unspecified, v4_localhost, v6_localhost}

-- `Mutex<T>`: `lock` fails once a thread has panicked with the lock held.
pub record Mutex (T : Type 0) : Type 0 where
  pub poisoned : Bool
  pub value : T

abbrev pub locked : {T : Type 0} → T → Mutex T
locked value = record { poisoned = false; value = value }

-- `.lock().map_err(..)?`
abbrev pub lock : {T : Type 0} → Error → Mutex T → Result Error T
lock e m = if m.poisoned then err e else ok m.value

abbrev pub registry_poisoned : Error
registry_poisoned = runtime (text "server socket registry lock poisoned")

pub record UdpServerState : Type 0 where
  pub active : Bool
  pub tasks : Mutex (List ℕ)
  pub callback_tasks : Mutex (List ℕ)
  pub sockets : Mutex (List ℕ)
  pub close_sockets : Mutex (List ℕ)
  pub thread_sockets : Mutex (List (ℕ × ℕ))
  pub next_socket : ℕ

unfoldable pub new : UdpServerState
new = record {
  active = true;
  tasks = locked [];
  callback_tasks = locked [];
  sockets = locked [];
  close_sockets = locked [];
  thread_sockets = locked [];
  next_socket = 0;
}

-- The map of the threads' sockets: `get` and `insert` of a `HashMap`.
unfoldable pub get : ℕ → List (ℕ × ℕ) → Option ℕ
get thread [] = none
get thread ((key, socket) ∷ rest) =
    let other = get thread rest in if key == thread then some socket else other

unfoldable pub insert : ℕ → ℕ → List (ℕ × ℕ) → List (ℕ × ℕ)
insert thread socket [] = (thread, socket) ∷ []
insert thread socket ((key, old) ∷ rest) =
    let other = insert thread socket rest in
    if key == thread then (key, socket) ∷ rest else (key, old) ∷ other

-- What `close` makes the system do.
pub data Effect : Type 0 where
  wake shutdown cancel : ℕ → Effect

-- `if let Ok(mut sockets) = lock() { wake each; shut each down, taking it out }`
abbrev pub close_all : Mutex (List ℕ) → Mutex (List ℕ) × List Effect
close_all m =
    if m.poisoned
    then (m, [])
    else (record m { value = [] }, map wake m.value ++ map shutdown m.value)

abbrev pub cancel_all : Mutex (List ℕ) → Mutex (List ℕ) × List Effect
cancel_all m = if m.poisoned then (m, []) else (record m { value = [] }, map cancel m.value)

abbrev clear : {T : Type 0} → Mutex (List T) → Mutex (List T)
clear m = if m.poisoned then m else record m { value = [] }

unfoldable pub close : UdpServerState → UdpServerState × List Effect
close s =
    let (sockets, e₁) = close_all s.sockets in
    let (close_sockets, e₂) = close_all s.close_sockets in
    let (tasks, e₃) = cancel_all s.tasks in
    (
      record s {
        active = false;
        sockets = sockets;
        close_sockets = close_sockets;
        thread_sockets = clear s.thread_sockets;
        tasks = tasks;
        callback_tasks = clear s.callback_tasks;
      },
      e₁ ++ (e₂ ++ e₃),
    )

unfoldable pub register_task : ℕ → UdpServerState → Result Error UdpServerState
register_task task s = lock (runtime (text "udp task registry lock poisoned")) s.tasks >>= λ tasks.
    ok (record s { tasks = locked (tasks ++ task ∷ []) })

unfoldable pub register_callback_task : ℕ → UdpServerState → Result Error UdpServerState
register_callback_task task s =
    lock (runtime (text "udp callback task registry lock poisoned")) s.callback_tasks >>= λ tasks.
    ok (record s { callback_tasks = locked (tasks ++ task ∷ []) })

-- `thread_clone` and `pool_clone` are the answers to the two `try_clone`. A failure at the second
-- lock leaves the first insertion done.
unfoldable pub register_listener_socket :
    ℕ
    → Result IoError ℕ
    → Result IoError ℕ
    → UdpServerState
    → UdpServerState × Result Error (Unit {0})
unfolding insert
register_listener_socket thread (err e) pool_clone s = (s, err (from_io e))
register_listener_socket thread (ok thread_socket) (err e) s = (s, err (from_io e))
register_listener_socket thread (ok thread_socket) (ok pool_socket) s =
    if s.thread_sockets.poisoned
    then (s, err registry_poisoned)
    else let t : UdpServerState = record s {
      thread_sockets = locked (insert thread thread_socket s.thread_sockets.value);
    } in
      if s.sockets.poisoned
      then (t, err registry_poisoned)
      else (record t { sockets = locked (s.sockets.value ++ pool_socket ∷ []) }, ok tt)

-- The lock is taken before the socket is cloned.
unfoldable pub register_close_socket :
    Result IoError ℕ → UdpServerState → Result Error UdpServerState
register_close_socket clone s = lock registry_poisoned s.close_sockets >>= λ sockets.
    map_err from_io clone >>= λ socket.
    ok (record s { close_sockets = locked (sockets ++ socket ∷ []) })

module _
    -- The answers to `try_clone` and to the runtime's conversion of a socket.
    (try_clone from_std : ℕ → Result IoError ℕ) where
  pub open_socket : ℕ → Result Error ℕ
  open_socket socket = map_err from_io (try_clone socket >>= from_std)

  -- From the pool: one of the sockets, by a counter mixed with the time. The index is in range, so the
  -- case of `none` does not arise.
  unfoldable pub pool_socket : ℕ → UdpServerState → UdpServerState × Result Error ℕ
  unfolding open_socket
  pool_socket time_seed s =
      if s.sockets.poisoned then (s, err registry_poisoned) else elim s.sockets.value [
        | [] ↦ (s, err (runtime (text "server has no listener socket")))
        | x ∷ xs ↦ (
          record s { next_socket = (s.next_socket + 1) % 2 ^ 64 },
          elim (get_elem? (x ∷ xs) (bit_xor s.next_socket time_seed % suc (length xs))) [
            | none ↦ open_socket x
            | some socket ↦ open_socket socket
          ],
        )
      ]

  unfoldable pub listener_socket : ℕ → ℕ → UdpServerState → UdpServerState × Result Error ℕ
  unfolding get open_socket pool_socket
  listener_socket thread time_seed s =
      if not s.active
      then (s, err (runtime (text "server is closed")))
      else if s.thread_sockets.poisoned
      then (s, err registry_poisoned)
      else elim (get thread s.thread_sockets.value) [
        | some socket ↦ (s, open_socket socket)
        | none ↦ pool_socket time_seed s
      ]
