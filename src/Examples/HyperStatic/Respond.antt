-- ===== src/Examples/HyperStatic/Respond.antt =====
-- `serve_request`, `response_for_path`, `text_response` and `content_type_str`.
pub mod Laws
mod Tests
use Prim.Native.Char.{code}
use sfo_reuseport.Prelude.{
  ℕ, String, ◌==◌, Bool, true, false, List, [], ◌∷◌, Option, none, some, if◌then◌else◌,
}
use sfo_reuseport.Error.{IoError, ErrorKind, Result, ok, err}
use sfo_reuseport.Examples.HyperStatic.{
  ResolveError, forbidden, not_found, Text, FilePath, FileSystem,
}
use sfo_reuseport.Examples.HyperStatic.Percent.{is_utf8}
use sfo_reuseport.Examples.HyperStatic.Resolve.{dot, text_eq, resolve_path}

-- The bytes of a text that is ASCII.
abbrev pub codes : String → Text
codes String.[] = []
codes (String.◌∷◌ c s) = code c ∷ codes s

pub data Method : Type 0 where
  get head other_method : Method

pub record Response : Type 0 where
  pub status : ℕ
  pub content_type : String
  pub body : List ℕ

unfoldable pub after_last_dot : Text → Option Text
after_last_dot [] = none
after_last_dot (c ∷ cs) =
    let later = after_last_dot cs in
    elim later [ some e ↦ some e | none ↦ if c == dot then some cs else none ]

-- `Path::extension` of the last component: what follows its last dot, unless that is its first byte.
unfoldable pub extension : FilePath → Option Text
unfolding after_last_dot
extension [] = none
extension ([] ∷ []) = none
extension ((c ∷ cs) ∷ []) = if text_eq (c ∷ cs) (dot ∷ dot ∷ []) then none else after_last_dot cs
extension (first ∷ second ∷ path) = extension (second ∷ path)

-- The arms of the match, in order.
abbrev pub content_types : List (String × String)
content_types =
    ("html", "text/html; charset=utf-8")
    ∷ ("htm", "text/html; charset=utf-8")
    ∷ ("css", "text/css; charset=utf-8")
    ∷ ("js", "application/javascript")
    ∷ ("json", "application/json")
    ∷ ("png", "image/png")
    ∷ ("jpg", "image/jpeg")
    ∷ ("jpeg", "image/jpeg")
    ∷ ("gif", "image/gif")
    ∷ ("svg", "image/svg+xml")
    ∷ ("txt", "text/plain; charset=utf-8")
    ∷ ("toml", "text/plain; charset=utf-8")
    ∷ ("md", "text/plain; charset=utf-8")
    ∷ ("yaml", "text/plain; charset=utf-8")
    ∷ ("bat", "text/plain; charset=utf-8")
    ∷ ("sh", "text/plain; charset=utf-8")
    ∷ []

unfoldable pub type_of : Text → List (String × String) → String
unfolding text_eq
type_of ext [] = "application/octet-stream"
type_of ext ((name, content_type) ∷ types) =
    let later = type_of ext types in if text_eq ext (codes name) then content_type else later

-- `to_str` has nothing where the extension is no UTF-8.
abbrev pub type_or_none : Option Text → String
type_or_none none = "application/octet-stream"
type_or_none (some ext) =
    if is_utf8 ext then type_of ext content_types else "application/octet-stream"

unfoldable pub content_type_str : FilePath → String
unfolding extension type_of is_utf8
content_type_str path = type_or_none (extension path)

abbrev pub text_response : ℕ → String → Response
text_response status message = record {
  status = status;
  content_type = "text/plain; charset=utf-8";
  body = codes message;
}

abbrev pub read_failed : ErrorKind → Response
read_failed ErrorKind.not_found = text_response 404 "not found"
read_failed _ = text_response 500 "internal server error"

abbrev pub response_for_read : FilePath → Bool → Result IoError (List ℕ) → Response
response_for_read path headers_only (err e) = read_failed e.kind
response_for_read path headers_only (ok bytes) = record {
  status = 200;
  content_type = content_type_str path;
  body = if headers_only then [] else bytes;
}

abbrev pub response_for_resolved : FileSystem → Bool → Result ResolveError FilePath → Response
response_for_resolved fs headers_only (err forbidden) = text_response 403 "forbidden"
response_for_resolved fs headers_only (err not_found) = text_response 404 "not found"
response_for_resolved fs headers_only (ok path) = response_for_read path headers_only (fs.read path)

unfoldable pub response_for_path : FileSystem → FilePath → Text → Bool → Response
unfolding resolve_path content_type_str
response_for_path fs root uri_path headers_only =
    response_for_resolved fs headers_only (resolve_path fs root uri_path)

-- `request.uri().path()` of hyper is a function of the request's target, a parameter.
unfoldable pub serve_request : (Text → Text) → FileSystem → FilePath → Method → Text → Response
unfolding response_for_path
serve_request uri_path fs root get target = response_for_path fs root (uri_path target) false
serve_request uri_path fs root head target = response_for_path fs root (uri_path target) true
serve_request uri_path fs root other_method target = text_response 405 "method not allowed"
