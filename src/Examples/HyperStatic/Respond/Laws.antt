-- ===== src/Examples/HyperStatic/Respond/Laws.antt =====
-- What a response tells, and that HEAD tells the same.
use sfo_reuseport.Prelude.{ℕ, ◌≡◌, refl, true, false, List, [], arith}
use sfo_reuseport.Error.{IoError, ErrorKind, Result, ok, err}
use sfo_reuseport.Examples.HyperStatic.{
  ResolveError, forbidden, not_found, Text, FilePath, FileSystem,
}
use sfo_reuseport.Examples.HyperStatic.Resolve.Served.{IsServed, resolve_path-IsServed}
use sfo_reuseport.Examples.HyperStatic.Resolve.{resolve_path}
use sfo_reuseport.Examples.HyperStatic.Respond.{
  get, head, Response, read_failed, response_for_read, response_for_resolved, content_type_str,
  response_for_path, serve_request,
}

-- A file below the root, with the type of its name; HEAD answers the same without the content.
abbrev pub AnswersWith : FileSystem → FilePath → Response → Response → Type 0
AnswersWith fs root to_get to_head =
    (path : FilePath) × IsServed fs root path
    × (fs.read path ≡ ok to_get.body)
    × (to_get.content_type ≡ content_type_str path)
    × (to_head ≡ record to_get { body = [] })

failed-status : (k : ErrorKind) → (read_failed k).status ≡ 200 → ⊥
failed-status ErrorKind.permission_denied h = omega (arith, h)
failed-status ErrorKind.would_block h = omega (arith, h)
failed-status ErrorKind.timed_out h = omega (arith, h)
failed-status ErrorKind.invalid_data h = omega (arith, h)
failed-status ErrorKind.invalid_input h = omega (arith, h)
failed-status ErrorKind.unexpected_eof h = omega (arith, h)
failed-status ErrorKind.unsupported h = omega (arith, h)
failed-status ErrorKind.broken_pipe h = omega (arith, h)
failed-status ErrorKind.not_found h = omega (arith, h)
failed-status (ErrorKind.other n) h = omega (arith, h)

module _ (fs : FileSystem) (root : FilePath) where
  read_answers :
      (path : FilePath) (content : Result IoError (List ℕ))
      → IsServed fs root path
      → fs.read path ≡ content
      → (response_for_read path false content).status ≡ 200
      → AnswersWith fs root
          (response_for_read path false content)
          (response_for_read path true content)
  read_answers path (err e) served r h = absurd (failed-status e.kind h)
  read_answers path (ok bytes) served r h = (path, served, r, refl, refl)

  resolved_answers :
      (uri : Text) (r : Result ResolveError FilePath)
      → resolve_path fs root uri ≡ r
      → (response_for_resolved fs false r).status ≡ 200
      → AnswersWith fs root (response_for_resolved fs false r) (response_for_resolved fs true r)
  resolved_answers uri (err forbidden) e h = absurd (omega (arith, h))
  resolved_answers uri (err not_found) e h = absurd (omega (arith, h))
  resolved_answers uri (ok path) e h =
      read_answers path (fs.read path) (resolve_path-IsServed fs root uri path e) refl h

  -- However hyper takes the path from a target: a GET request that succeeds is answered with the content
  -- of a file below the root and the type of its name, and a HEAD request for the same target with the
  -- same status and type and no body.
  pub serve_request-AnswersWith :
      (uri_path : Text → Text) (target : Text)
      → (serve_request uri_path fs root get target).status ≡ 200
      → AnswersWith fs root
          (serve_request uri_path fs root get target)
          (serve_request uri_path fs root head target)
  unfolding serve_request response_for_path
  serve_request-AnswersWith uri_path target h =
      resolved_answers (uri_path target) (resolve_path fs root (uri_path target)) refl h
