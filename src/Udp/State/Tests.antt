-- ===== src/Udp/State/Tests.antt =====
-- Registrations at a UDP server, and the theorems on its registry there.
use sfo_reuseport.Prelude.{ℕ, ◌+◌, ◌≡◌, ◌≢◌, refl, [], ◌∷◌, none, some}
use sfo_reuseport.Error.{IoError, Result, ok}
use sfo_reuseport.Udp.State.{
  UdpServerState, get, register_listener_socket, open_socket, listener_socket, new,
}
use sfo_reuseport.Udp.State.Laws.{opened, listener_socket-register}

-- A clone of a socket, and the runtime's socket made of it.
abbrev try_clone : ℕ → Result IoError ℕ
try_clone socket = ok (socket + 100)

abbrev from_std : ℕ → Result IoError ℕ
from_std socket = ok socket

abbrev one_socket : UdpServerState
one_socket = opened [] [] (4 ∷ []) [] ((1, 3) ∷ []) 0

registered : (register_listener_socket 1 (ok 3) (ok 4) new).0 ≡ one_socket
unfolding register_listener_socket new
registered = refl

listener_socket-register_example :
    ((listener_socket try_clone from_std 2 7
        (register_listener_socket 2 (ok 5) (ok 6) one_socket).0).1
      ≡ open_socket try_clone from_std 5)
    × ((other o : ℕ)
        → 2 ≢ other
        → get other ((1, 3) ∷ []) ≡ some o
        → (listener_socket try_clone from_std other 7
            (register_listener_socket 2 (ok 5) (ok 6) one_socket).0).1
          ≡ open_socket try_clone from_std o)
listener_socket-register_example =
    listener_socket-register try_clone from_std [] [] (4 ∷ []) [] ((1, 3) ∷ []) 0 2 5 6 7

unknown : get 9 ((1, 3) ∷ []) ≡ none
unfolding get
unknown = refl
