-- ===== src/Examples/HyperStatic/Request.antt =====
-- `read_request`: the head of a request, read from a connection. A read returns at most as many bytes as
-- the buffer of 1024 has, and none at the end of the connection.
pub mod Chunks
pub mod Laws
mod Tests
use sfo_reuseport.Prelude.{
  ℕ, ◌≤◌, ◌==◌, leb, ◌&&◌, ◌||◌, Bool, true, false, List, [], ◌∷◌, ◌++◌, Option, none, some, length,
  if◌then◌else◌,
}
use sfo_reuseport.Error.{Error, handler, IoError, from_io, text, Result, ok, err}

abbrev pub largest : ℕ
largest = 8192

abbrev pub buffer_size : ℕ
buffer_size = 1024

-- Whether the bytes begin with an empty line.
abbrev pub ends_head : List ℕ → Bool
ends_head (a ∷ b ∷ c ∷ d ∷ bytes) = a == b'\r' && b == b'\n' && c == b'\r' && d == b'\n'
ends_head (a ∷ b ∷ c ∷ []) = false
ends_head (a ∷ b ∷ []) = false
ends_head (a ∷ []) = false
ends_head [] = false

-- `request.windows(4).any(|window| window == b"\r\n\r\n")`
unfoldable pub is_complete : List ℕ → Bool
is_complete [] = false
is_complete (b ∷ bytes) = ends_head (b ∷ bytes) || is_complete bytes

abbrev pub incomplete : Error
incomplete = handler (text "http request headers were not complete")

-- The loop, with what has been read. `none` waits for another read.
unfoldable pub read_from : List ℕ → List (Result IoError (List ℕ)) → Option (Result Error (List ℕ))
unfolding is_complete
read_from request [] = if leb (length request) largest then none else some (err incomplete)
read_from request (err e ∷ reads) =
    if leb (length request) largest then some (err (from_io e)) else some (err incomplete)
read_from request (ok [] ∷ reads) =
    if leb (length request) largest then some (ok []) else some (err incomplete)
read_from request (ok (b ∷ bytes) ∷ reads) =
    let read = request ++ b ∷ bytes in
    let next = read_from read reads in
    if leb (length request) largest
    then if is_complete read then some (ok read) else next
    else some (err incomplete)

unfoldable pub read_request : List (Result IoError (List ℕ)) → Option (Result Error (List ℕ))
unfolding read_from
read_request reads = read_from [] reads
