-- ===== src/Examples/HyperStatic/Plain/Connection.antt =====
-- A connection from its reads to its response, where the server is built for async-std.
use sfo_reuseport.Prelude.{
  ℕ, ◌≡◌, ◌==◌, leb, ◌&&◌, ◌||◌, refl, ap, Bool, true, false, List, [], ◌∷◌, ◌++◌, Option, none,
  some, All, arith,
}
use sfo_reuseport.Error.{IoError, from_io, Result, map_err}
use sfo_reuseport.Examples.HyperStatic.{Text, FilePath, FileSystem}
use sfo_reuseport.Examples.HyperStatic.Plain.{before_query, serve_plain_connection}
use sfo_reuseport.Examples.HyperStatic.Plain.Laws.{received}
use sfo_reuseport.Examples.HyperStatic.Plain.Reader.{read_response}
use sfo_reuseport.Examples.HyperStatic.Request.Chunks.{reads}
use sfo_reuseport.Examples.HyperStatic.Respond.{Response}

-- The characters of a path (RFC 3986): letters, digits, and `! $ % & ' ( ) * + , - . / : ; = @ _ ~`.
abbrev pub path_char : ℕ → Bool
path_char c =
    c == 33
    || (leb 36 c && leb c 59)
    || c == 61
    || (leb 64 c && leb c 90)
    || c == 95
    || (leb 97 c && leb c 122)
    || c == 126

-- Those of a query, among which is the question mark.
abbrev pub query_char : ℕ → Bool
query_char c = c == b'?' || path_char c

abbrev pub letter : ℕ → Bool
letter c = (leb 65 c && leb c 90) || (leb 97 c && leb c 122)

abbrev pub IsAll : (ℕ → Bool) → Text → Type 0
IsAll f t = All (λ c. f c ≡ true) t

abbrev pub IsMethod : Text → Type 0
IsMethod [] = ⊥
IsMethod (c ∷ cs) = IsAll letter (c ∷ cs)

abbrev pub IsPath : Text → Type 0
IsPath [] = ⊥
IsPath (c ∷ cs) = (c ≡ b'/') × IsAll path_char cs

abbrev pub IsQuery : Option Text → Type 0
IsQuery none = Unit
IsQuery (some query) = IsAll query_char query

-- A target in origin form: a path, and perhaps a query.
abbrev pub request_target : Text → Option Text → Text
request_target path none = path
request_target path (some query) = path ++ b'?' ∷ query

-- What hyper documents of the path of a target in origin form.
abbrev pub TakesPath : (Text → Text) → Type 0
TakesPath uri_path =
    (path : Text) (query : Option Text)
    → IsPath path
    → IsQuery query
    → uri_path (request_target path query) ≡ path

before_query-none : (cs : Text) → IsAll path_char cs → before_query cs ≡ cs
unfolding before_query
before_query-none [] p = refl
before_query-none (c ∷ cs) (h, p) =
    let apart : (c == b'?') ≡ false = ground (arith, h) in
    rw apart (ap (λ l. c ∷ l) (before_query-none cs p))

before_query-some : (cs query : Text) → IsAll path_char cs → before_query (cs ++ b'?' ∷ query) ≡ cs
unfolding before_query
before_query-some [] query p = refl
before_query-some (c ∷ cs) query (h, p) =
    let apart : (c == b'?') ≡ false = ground (arith, h) in
    rw apart (ap (λ l. c ∷ l) (before_query-some cs query p))

path-IsAll : (path : Text) → IsPath path → IsAll path_char path
path-IsAll [] p = absurd p
path-IsAll (c ∷ cs) (e, p) = (rw e refl, p)

pub before_query-request_target :
    (path : Text) (query : Option Text)
    → IsPath path
    → before_query (request_target path query) ≡ path
before_query-request_target path none p = before_query-none path (path-IsAll path p)
before_query-request_target path (some query) p = before_query-some path query (path-IsAll path p)

module _ (uri_path : Text → Text) (takes : TakesPath uri_path) (fs : FileSystem)
    (root : FilePath) where
  module _ (write_all : List ℕ → Result IoError (Unit {0})) where
    -- The connection writes these bytes, and ends as the write does.
    abbrev pub Writes : List (List ℕ) → Response → Type 0
    Writes pieces response =
        (bytes : List ℕ) × (serve_plain_connection fs root write_all (reads pieces)
          ≡ some (map_err from_io (write_all bytes)))
        × (read_response bytes ≡ some (received response))
