-- ===== src/Examples/HyperStatic/Plain/Laws.antt =====
-- The server answers alike in both of its builds.
use sfo_reuseport.Prelude.{
  ℕ, ◌^◌, ◌<◌, ◌≡◌, refl, ap, ◌∙◌, ◌&&◌, ◌||◌, String, Bool, true, false, List, [], ◌∷◌, Option,
  none, some, length, if◌then◌else◌, arith,
}
use sfo_reuseport.Error.{IoError, ErrorKind, Result, ok, err}
use sfo_reuseport.Examples.HyperStatic.{
  ResolveError, forbidden, not_found, Text, FilePath, FileSystem,
}
use sfo_reuseport.Examples.HyperStatic.Percent.{is_utf8}
use sfo_reuseport.Examples.HyperStatic.Plain.{
  plain_response, plain_text, before_query, not_read, for_read, for_resolved, for_parts,
  plain_response_for_request,
}
use sfo_reuseport.Examples.HyperStatic.Plain.Parts.{IsWord, request_of, request-for_parts}
use sfo_reuseport.Examples.HyperStatic.Plain.Reader.{
  Received, read_response, clean, read-plain_response,
}
use sfo_reuseport.Examples.HyperStatic.Resolve.{text_eq, resolve_path}
use sfo_reuseport.Examples.HyperStatic.Resolve.Laws.{text_eq_sound}
use sfo_reuseport.Examples.HyperStatic.Respond.{
  codes, Method, get, head, other_method, Response, extension, content_types, type_of, type_or_none,
  content_type_str, read_failed, response_for_read, response_for_resolved, response_for_path,
  serve_request, text_response,
}

-- What a client learns of a response.
abbrev pub received : Response → Received
received r = record { status = r.status; content_type = codes r.content_type; body = r.body }

abbrev all_clean : List (String × String) → Bool
unfolding clean
all_clean [] = true
all_clean ((name, content_type) ∷ types) = clean (codes content_type) && all_clean types

if-clean :
    (b : Bool) (s t : String)
    → clean (codes s) ≡ true
    → clean (codes t) ≡ true
    → clean (codes (if b then s else t)) ≡ true
if-clean true s t hs ht = hs
if-clean false s t hs ht = ht

type_of-clean :
    (ext : Text) (types : List (String × String))
    → all_clean types ≡ true
    → clean (codes (type_of ext types)) ≡ true
unfolding type_of clean
type_of-clean ext [] h = refl
type_of-clean ext ((name, content_type) ∷ types) h =
    let (first, rest) = and-true (clean (codes content_type)) (all_clean types) h in
    if-clean (text_eq ext (codes name)) content_type (type_of ext types) first
      (type_of-clean ext types rest)
  where
    and-true : (a b : Bool) → (a && b) ≡ true → (a ≡ true) × (b ≡ true)
    and-true true b h = (refl, h)
    and-true false b h = cc

types-clean : (ext : Option Text) → clean (codes (type_or_none ext)) ≡ true
unfolding clean
types-clean none = refl
types-clean (some ext) =
    if-clean (is_utf8 ext) (type_of ext content_types) "application/octet-stream"
      (type_of-clean ext content_types refl) refl

content_type_str-clean : (path : FilePath) → clean (codes (content_type_str path)) ≡ true
unfolding content_type_str
content_type_str-clean path = types-clean (extension path)

-- The method that a word names.
abbrev pub method_of : Text → Method
method_of method =
    if text_eq method (codes "GET")
    then get
    else if text_eq method (codes "HEAD")
    then head
    else other_method

-- The answers that are texts.
message_received :
    (status : ℕ) (reason message : String)
    → status < 10 ^ 20
    → length (codes message) < 10 ^ 20
    → clean (codes reason) ≡ true
    → read_response (plain_response status reason plain_text (codes message))
      ≡ some (received (text_response status message))
unfolding clean
message_received status reason message hs hm hr =
    read-plain_response status reason plain_text (codes message) hs hm hr refl

not_found_received :
    read_response (plain_response 404 "Not Found" plain_text (codes "not found"))
    ≡ some (received (text_response 404 "not found"))
unfolding clean
not_found_received = message_received 404 "Not Found" "not found" (omega arith) (omega arith) refl

failed_received :
    read_response
      (plain_response 500 "Internal Server Error" plain_text (codes "internal server error"))
    ≡ some (received (text_response 500 "internal server error"))
unfolding clean
failed_received =
    message_received 500 "Internal Server Error" "internal server error" (omega arith) (omega arith)
      refl

forbidden_received :
    read_response (plain_response 403 "Forbidden" plain_text (codes "forbidden"))
    ≡ some (received (text_response 403 "forbidden"))
unfolding clean
forbidden_received = message_received 403 "Forbidden" "forbidden" (omega arith) (omega arith) refl

refused_received :
    read_response (plain_response 405 "Method Not Allowed" plain_text (codes "method not allowed"))
    ≡ some (received (text_response 405 "method not allowed"))
unfolding clean
refused_received =
    message_received 405 "Method Not Allowed" "method not allowed" (omega arith) (omega arith) refl

ok-clean : clean (codes "OK") ≡ true
unfolding clean
ok-clean = refl

not_read_received : (k : ErrorKind) → read_response (not_read k) ≡ some (received (read_failed k))
not_read_received ErrorKind.not_found = not_found_received
not_read_received ErrorKind.permission_denied = failed_received
not_read_received ErrorKind.would_block = failed_received
not_read_received ErrorKind.timed_out = failed_received
not_read_received ErrorKind.invalid_data = failed_received
not_read_received ErrorKind.invalid_input = failed_received
not_read_received ErrorKind.unexpected_eof = failed_received
not_read_received ErrorKind.unsupported = failed_received
not_read_received ErrorKind.broken_pipe = failed_received
not_read_received (ErrorKind.other n) = failed_received

get_apart :
    (method : Text) → text_eq method (codes "GET") ≡ true → text_eq method (codes "HEAD") ≡ false
unfolding text_eq
get_apart method e = rw (text_eq_sound method (codes "GET") e) refl

module _ (fs : FileSystem) where
  read_received :
      (path : FilePath) (headers_only : Bool) (content : Result IoError (List ℕ))
      → length (response_for_read path headers_only content).body < 10 ^ 20
      → read_response (for_read path headers_only content)
        ≡ some (received (response_for_read path headers_only content))
  read_received path headers_only (err e) h = not_read_received e.kind
  read_received path headers_only (ok bytes) h =
      read-plain_response 200 "OK" (content_type_str path) (if headers_only then [] else bytes)
        (omega arith) h ok-clean (content_type_str-clean path)

  resolved_received :
      (headers_only : Bool) (r : Result ResolveError FilePath)
      → length (response_for_resolved fs headers_only r).body < 10 ^ 20
      → read_response (for_resolved fs headers_only r)
        ≡ some (received (response_for_resolved fs headers_only r))
  resolved_received headers_only (err forbidden) h = forbidden_received
  resolved_received headers_only (err not_found) h = not_found_received
  resolved_received headers_only (ok path) h = read_received path headers_only (fs.read path) h

  module _ (root : FilePath) where
    by_tests :
        (target : Text) (is_get is_head : Bool)
        → (is_get ≡ true → is_head ≡ false)
        → length
            (serve_request before_query fs root
              (if is_get then get else if is_head then head else other_method)
              target).body
          < 10 ^ 20
        → read_response (
            if is_get || is_head
            then for_resolved fs is_head (resolve_path fs root (before_query target))
            else plain_response 405 "Method Not Allowed" plain_text (codes "method not allowed"))
          ≡ some (
              received (
                serve_request before_query fs root
                  (if is_get then get else if is_head then head else other_method)
                  target))
    unfolding serve_request response_for_path
    by_tests target true true apart h = let e : true ≡ false = apart refl in cc
    by_tests target true false apart h =
        resolved_received false (resolve_path fs root (before_query target)) h
    by_tests target false true apart h =
        resolved_received true (resolve_path fs root (before_query target)) h
    by_tests target false false apart h = refused_received

    parts_received :
        (method target : Text)
        → length (serve_request before_query fs root (method_of method) target).body < 10 ^ 20
        → read_response (for_parts fs root method target)
          ≡ some (received (serve_request before_query fs root (method_of method) target))
    unfolding for_parts
    parts_received method target h =
        by_tests target (text_eq method (codes "GET")) (text_eq method (codes "HEAD"))
          (get_apart method) h

    -- A request of a method and a target, words of visible ASCII: what is sent back is read as the
    -- answer for the method and the target up to its first question mark.
    pub plain_response-serve_request :
        (method target : Text) (headers : List ℕ)
        → IsWord method
        → IsWord target
        → length (serve_request before_query fs root (method_of method) target).body < 10 ^ 20
        → read_response (plain_response_for_request fs root (request_of method target headers))
          ≡ some (received (serve_request before_query fs root (method_of method) target))
    plain_response-serve_request method target headers hm ht h =
        ap read_response (request-for_parts fs root method target headers hm ht)
        ∙ parts_received method target h
