-- ===== src/Examples/HyperStatic/Plain.antt =====
-- The server as it is built for async-std: `serve_plain_connection`, `plain_response_for_request`,
-- `plain_response` and `write_response`.
pub mod Connection
pub mod Laws
pub mod Parts
pub mod Words
pub mod Reader
mod Tests
use sfo_reuseport.Prelude.{
  ℕ, zero, suc, ◌+◌, ◌/◌, ◌%◌, ◌==◌, ltb, ◌&&◌, ◌||◌, String, Bool, true, false, List, [], ◌∷◌,
  ◌++◌, Option, none, some, length, if◌then◌else◌,
}
use sfo_reuseport.Error.{Error, IoError, ErrorKind, from_io, Result, ok, err, map_err}
use sfo_reuseport.Examples.HyperStatic.{
  ResolveError, forbidden, not_found, Text, FilePath, FileSystem,
}
use sfo_reuseport.Examples.HyperStatic.Plain.Words.{from_utf8_lossy, first_line, split_whitespace}
use sfo_reuseport.Examples.HyperStatic.Request.{read_request}
use sfo_reuseport.Examples.HyperStatic.Resolve.{text_eq, resolve_path}
use sfo_reuseport.Examples.HyperStatic.Respond.{codes, content_type_str}

-- A number below `10 ^ n`, in decimal digits.
unfoldable pub decimal : ℕ → ℕ → Text
decimal zero m = []
decimal (suc n) m =
    let before = decimal n (m / 10) in
    if ltb m 10 then (b'0' + m) ∷ [] else before ++ (b'0' + m % 10) ∷ []

-- A line, its end, and what follows.
abbrev pub line : Text → List ℕ → List ℕ
line text rest = text ++ b'\r' ∷ b'\n' ∷ rest

-- A status and a length are `usize` at most, which has at most twenty digits.
unfoldable pub to_decimal : ℕ → Text
unfolding decimal
to_decimal m = decimal 20 m

unfoldable pub plain_response : ℕ → String → String → List ℕ → List ℕ
plain_response status reason content_type body =
    codes "HTTP/1.1 "
    ++ (to_decimal status
        ++ (b' '
            ∷ line (codes reason) (
                codes "Content-Length: "
                ++ line (to_decimal (length body)) (
                    codes "Content-Type: "
                    ++ line (codes content_type)
                        (line (codes "Connection: close") (line [] body))))))

abbrev pub plain_text : String
plain_text = "text/plain; charset=utf-8"

-- `parts.next().unwrap_or_default()`, and the parts that are left.
abbrev pub next_part : List Text → Text × List Text
next_part [] = ([], [])
next_part (part ∷ parts) = (part, parts)

-- The path before the first question mark.
unfoldable pub before_query : Text → Text
before_query [] = []
before_query (c ∷ cs) = let path = before_query cs in if c == b'?' then [] else c ∷ path

abbrev pub not_read : ErrorKind → List ℕ
not_read ErrorKind.not_found = plain_response 404 "Not Found" plain_text (codes "not found")
not_read _ = plain_response 500 "Internal Server Error" plain_text (codes "internal server error")

abbrev pub for_read : FilePath → Bool → Result IoError (List ℕ) → List ℕ
for_read path headers_only (err e) = not_read e.kind
for_read path headers_only (ok bytes) =
    plain_response 200 "OK" (content_type_str path) (if headers_only then [] else bytes)

abbrev pub for_resolved : FileSystem → Bool → Result ResolveError FilePath → List ℕ
for_resolved fs headers_only (err forbidden) =
    plain_response 403 "Forbidden" plain_text (codes "forbidden")
for_resolved fs headers_only (err not_found) =
    plain_response 404 "Not Found" plain_text (codes "not found")
for_resolved fs headers_only (ok path) = for_read path headers_only (fs.read path)

unfoldable pub for_parts : FileSystem → FilePath → Text → Text → List ℕ
unfolding plain_response before_query resolve_path content_type_str text_eq
for_parts fs root method path =
    if text_eq method (codes "GET") || text_eq method (codes "HEAD")
    then for_resolved fs (text_eq method (codes "HEAD")) (resolve_path fs root (before_query path))
    else plain_response 405 "Method Not Allowed" plain_text (codes "method not allowed")

abbrev pub for_split : FileSystem → FilePath → List Text → List ℕ
for_split fs root parts =
    let (method, after_method) = next_part parts in
    let (path, _) = next_part after_method in for_parts fs root method path

abbrev pub for_line : FileSystem → FilePath → Option Text → List ℕ
for_line fs root none = plain_response 400 "Bad Request" plain_text (codes "bad request")
for_line fs root (some request_line) = for_split fs root (split_whitespace request_line)

unfoldable pub plain_response_for_request : FileSystem → FilePath → List ℕ → List ℕ
unfolding from_utf8_lossy first_line split_whitespace for_parts plain_response
plain_response_for_request fs root request = for_line fs root (first_line (from_utf8_lossy request))

-- `write_all` of the stream is a parameter.
unfoldable pub write_response :
    (List ℕ → Result IoError (Unit {0})) → List ℕ → Result Error (Unit {0})
write_response write_all response = map_err from_io (write_all response)

abbrev pub respond_to :
    FileSystem → FilePath → (List ℕ → Result IoError (Unit {0})) → List ℕ → Result Error (Unit {0})
respond_to fs root write_all [] = ok tt
respond_to fs root write_all (b ∷ bytes) =
    write_response write_all (plain_response_for_request fs root (b ∷ bytes))

abbrev pub requested :
    FileSystem
    → FilePath
    → (List ℕ → Result IoError (Unit {0}))
    → Option (Result Error (List ℕ))
    → Option (Result Error (Unit {0}))
requested fs root write_all none = none
requested fs root write_all (some (err e)) = some (err e)
requested fs root write_all (some (ok request)) = some (respond_to fs root write_all request)

-- `none` waits for another read.
unfoldable pub serve_plain_connection :
    FileSystem
    → FilePath
    → (List ℕ → Result IoError (Unit {0}))
    → List (Result IoError (List ℕ))
    → Option (Result Error (Unit {0}))
unfolding read_request plain_response_for_request write_response
serve_plain_connection fs root write_all reads = requested fs root write_all (read_request reads)
