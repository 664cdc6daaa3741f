-- ===== src/Examples/HyperStatic/Resolve.antt =====
-- `resolve_path`: the file that the path of a request names.
pub mod Forbidden
pub mod Laws
pub mod Served
mod Tests
use sfo_reuseport.Prelude.{
  ℕ, ◌==◌, ◌&&◌, ◌||◌, not, Bool, true, false, List, [], ◌∷◌, ◌++◌, is_empty, if◌then◌else◌,
}
use sfo_reuseport.Error.{IoError, ErrorKind, Result, ok, err, ◌>>=◌}
use sfo_reuseport.Examples.HyperStatic.{
  ResolveError, forbidden, not_found, Text, FilePath, FileSystem,
}
use sfo_reuseport.Examples.HyperStatic.Percent.{percent_decode}

abbrev pub slash : ℕ
slash = b'/'

abbrev pub backslash : ℕ
backslash = b'\\'

abbrev pub dot : ℕ
dot = b'.'

-- "index.html"
abbrev pub index_html : Text
index_html = b'i' ∷ b'n' ∷ b'd' ∷ b'e' ∷ b'x' ∷ b'.' ∷ b'h' ∷ b't' ∷ b'm' ∷ b'l' ∷ []

-- A character put before the first piece.
abbrev pub before_first : ℕ → List Text → List Text
before_first c [] = (c ∷ []) ∷ []
before_first c (piece ∷ pieces) = (c ∷ piece) ∷ pieces

-- `split('/')`
unfoldable pub split : Text → List Text
split [] = [] ∷ []
split (c ∷ cs) = let pieces = split cs in if c == slash then [] ∷ pieces else before_first c pieces

-- `ends_with('/')`
unfoldable pub ends_with_slash : Text → Bool
ends_with_slash [] = false
ends_with_slash (c ∷ []) = c == slash
ends_with_slash (c ∷ d ∷ cs) = ends_with_slash (d ∷ cs)

unfoldable pub contains : ℕ → Text → Bool
contains b [] = false
contains b (c ∷ cs) = c == b || contains b cs

unfoldable pub text_eq : Text → Text → Bool
text_eq [] [] = true
text_eq [] (d ∷ ds) = false
text_eq (c ∷ cs) [] = false
text_eq (c ∷ cs) (d ∷ ds) = c == d && text_eq cs ds

-- Whether `PathBuf::from(segment)` has a root; on Unix no path has a prefix.
unfoldable pub has_root : Text → Bool
has_root [] = false
has_root (c ∷ cs) = c == slash

unfoldable pub is_forbidden : Text → Bool
unfolding contains text_eq has_root
is_forbidden segment =
    text_eq segment (dot ∷ dot ∷ [])
    || contains 0 segment
    || contains slash segment
    || contains backslash segment
    || has_root segment

-- The loop over the segments that are left.
unfoldable pub push_segments : List Text → FilePath → Result ResolveError FilePath
unfolding percent_decode text_eq is_forbidden
push_segments [] candidate = ok candidate
push_segments (raw_segment ∷ rest) candidate =
    let skipped = push_segments rest candidate in
    let taken : Result ResolveError FilePath = percent_decode raw_segment >>= λ segment.
    let pushed = push_segments rest (candidate ++ segment ∷ []) in
    if text_eq segment (dot ∷ [])
    then skipped
    else if is_forbidden segment
    then err forbidden
    else pushed in
    if is_empty raw_segment then skipped else taken

-- `starts_with`, component by component.
unfoldable pub starts_with : FilePath → FilePath → Bool
unfolding text_eq
starts_with path [] = true
starts_with [] (r ∷ root) = false
starts_with (p ∷ path) (r ∷ root) = text_eq p r && starts_with path root

abbrev is_not_found : ErrorKind → Bool
is_not_found ErrorKind.not_found = true
is_not_found _ = false

abbrev canonical_or : Result IoError FilePath → Result ResolveError FilePath
canonical_or (ok path) = ok path
canonical_or (err e) = if is_not_found e.kind then err not_found else err forbidden

module _ (fs : FileSystem) where
  unfoldable pub with_index : FilePath → Text → FilePath
  unfolding ends_with_slash
  with_index candidate uri_path =
      if fs.is_dir candidate || ends_with_slash uri_path
      then candidate ++ index_html ∷ []
      else candidate

  -- The checks of the canonical path.
  unfoldable pub checked : FilePath → FilePath → Result ResolveError FilePath
  unfolding starts_with
  checked root canonical =
      if not (starts_with canonical root)
      then err forbidden
      else if not (fs.is_file canonical)
      then err not_found
      else ok canonical

  unfoldable pub resolve_path : FilePath → Text → Result ResolveError FilePath
  unfolding split push_segments with_index checked
  resolve_path root uri_path = do
    candidate ← push_segments (split uri_path) root
    canonical ← canonical_or (fs.canonicalize (with_index candidate uri_path))
    checked root canonical
