-- ===== src/Udp/State/Laws.antt =====
-- What the socket registry of a UDP server returns, and what closing leaves.
use sfo_reuseport.Prelude.{
  ℕ, suc, ◌%◌, ◌<◌, ◌≡◌, ◌≢◌, refl, Bool, true, false, bit_xor, List, [], ◌∷◌, none, some, length,
  get_elem?, get_elem?-lt, arith,
}
use sfo_reuseport.Error.{runtime, IoError, text, Result, ok, err}
use sfo_reuseport.Udp.State.{
  locked, UdpServerState, get, insert, close_all, cancel_all, clear, close,
  register_listener_socket, open_socket, pool_socket, listener_socket,
}

get-insert_same :
    (thread socket : ℕ) (m : List (ℕ × ℕ)) → get thread (insert thread socket m) ≡ some socket
unfolding get insert
get-insert_same thread socket [] = ground arith
get-insert_same thread socket ((key, old) ∷ rest) =
    ground (arith, get-insert_same thread socket rest)

get-insert_other :
    (thread other socket : ℕ) (m : List (ℕ × ℕ))
    → thread ≢ other
    → get other (insert thread socket m) ≡ get other m
unfolding get insert
get-insert_other thread other socket [] h = ground (arith, h)
get-insert_other thread other socket ((key, old) ∷ rest) h =
    ground (arith, h, get-insert_other thread other socket rest h)

-- An open server, whose locks are not poisoned.
abbrev pub opened : List ℕ → List ℕ → List ℕ → List ℕ → List (ℕ × ℕ) → ℕ → UdpServerState
opened tasks callback_tasks sockets close_sockets thread_sockets next_socket = record {
  active = true;
  tasks = locked tasks;
  callback_tasks = locked callback_tasks;
  sockets = locked sockets;
  close_sockets = locked close_sockets;
  thread_sockets = locked thread_sockets;
  next_socket = next_socket;
}

module _ (try_clone from_std : ℕ → Result IoError ℕ)
    (tasks callback_tasks sockets close_sockets : List ℕ) (thread_sockets : List (ℕ × ℕ))
    (next_socket : ℕ) where
  abbrev pub server : UdpServerState
  server = opened tasks callback_tasks sockets close_sockets thread_sockets next_socket

  -- With an open server, `listener_socket` returns the socket that its thread has registered last,
  -- whatever was registered before; a registration on another thread changes nothing for a thread
  -- that has a socket.
  pub listener_socket-register :
      (thread t p seed : ℕ)
      → ((listener_socket try_clone from_std thread seed
            (register_listener_socket thread (ok t) (ok p) server).0).1
          ≡ open_socket try_clone from_std t)
        × ((other o : ℕ)
            → thread ≢ other
            → get other thread_sockets ≡ some o
            → (listener_socket try_clone from_std other seed
                (register_listener_socket thread (ok t) (ok p) server).0).1
              ≡ open_socket try_clone from_std o)
  unfolding register_listener_socket listener_socket
  listener_socket-register thread t p seed = (
    rw (get-insert_same thread t thread_sockets) refl,
    λ other o h e. rw (get-insert_other thread other t thread_sockets h, e) refl,
  )

-- A thread without a socket of its own gets one of the pool, if there is one, whatever the counter
-- and the clock say.
pub listener_socket-pool :
    (try_clone from_std : ℕ → Result IoError ℕ)
    (tasks callback_tasks sockets close_sockets : List ℕ) (thread_sockets : List (ℕ × ℕ))
    (next_socket thread seed : ℕ)
    → get thread thread_sockets ≡ none
    → 0 < length sockets
    → (i socket : ℕ) × (get_elem? sockets i ≡ some socket)
      × ((listener_socket try_clone from_std thread seed
            (opened tasks callback_tasks sockets close_sockets thread_sockets next_socket)).1
          ≡ open_socket try_clone from_std socket)
unfolding listener_socket pool_socket
listener_socket-pool try_clone from_std tasks callback_tasks [] close_sockets thread_sockets
      next_socket thread seed e pos =
    absurd (omega (arith, pos))
listener_socket-pool try_clone from_std tasks callback_tasks (x ∷ xs) close_sockets thread_sockets
      next_socket thread seed e pos =
    let i = bit_xor next_socket seed % suc (length xs) in
    let (socket, f) = get_elem?-lt (x ∷ xs) i (omega arith) in (i, socket, f, rw (e, f) refl)

module _ (p : Bool) (v : List ℕ) where
  close_all_again :
      close_all (close_all (record { poisoned = p; value = v })).0
      ≡ ((close_all (record { poisoned = p; value = v })).0, [])
  close_all_again =
      elim p
        as (λ b.
          close_all (close_all (record { poisoned = b; value = v })).0
          ≡ ((close_all (record { poisoned = b; value = v })).0, [])) [ true ↦ refl | false ↦ refl ]

  cancel_all_again :
      cancel_all (cancel_all (record { poisoned = p; value = v })).0
      ≡ ((cancel_all (record { poisoned = p; value = v })).0, [])
  cancel_all_again =
      elim p
        as (λ b.
          cancel_all (cancel_all (record { poisoned = b; value = v })).0
          ≡ ((cancel_all (record { poisoned = b; value = v })).0, [])) [
            | true ↦ refl
            | false ↦ refl
          ]

clear_again :
    {T : Type 0} (p : Bool) (v : List T)
    → clear (clear (record { poisoned = p; value = v }))
      ≡ clear (record { poisoned = p; value = v })
clear_again true v = refl
clear_again false v = refl

-- Closing is final and done once: whatever is poisoned, a second `close` changes nothing and wakes,
-- shuts down and cancels nothing, and a closed server gives no socket to any thread.
pub close-close :
    (s : UdpServerState)
    → (close (close s).0 ≡ ((close s).0, []))
      × ((try_clone from_std : ℕ → Result IoError ℕ) (thread seed : ℕ)
          → listener_socket try_clone from_std thread seed (close s).0
            ≡ ((close s).0, err (runtime (text "server is closed"))))
unfolding close listener_socket
close-close s = (
  rw
      (
        close_all_again s.sockets.poisoned s.sockets.value,
        close_all_again s.close_sockets.poisoned s.close_sockets.value,
        cancel_all_again s.tasks.poisoned s.tasks.value,
        clear_again s.thread_sockets.poisoned s.thread_sockets.value,
        clear_again s.callback_tasks.poisoned s.callback_tasks.value,
      )
      refl,
  λ try_clone from_std thread seed. refl,
)
