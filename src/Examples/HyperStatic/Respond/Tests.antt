-- ===== src/Examples/HyperStatic/Respond/Tests.antt =====
-- Responses for files of a small file system.
use sfo_reuseport.Prelude.{◌≡◌, refl, [], ◌∷◌}
use sfo_reuseport.Error.{ok}
use sfo_reuseport.Examples.HyperStatic.{FilePath, FileSystem}
use sfo_reuseport.Examples.HyperStatic.Resolve.{starts_with}
use sfo_reuseport.Examples.HyperStatic.Respond.{get, head, content_type_str, codes, serve_request}
use sfo_reuseport.Examples.HyperStatic.Respond.Laws.{AnswersWith, serve_request-AnswersWith}

abbrev root : FilePath
root = codes "srv" ∷ []

abbrev fs : FileSystem
unfolding starts_with
fs = record {
  is_dir = λ path. starts_with root path;
  is_file = λ path. starts_with path root;
  canonicalize = λ path. ok path;
  read = λ path. ok (1 ∷ 2 ∷ []);
}

last_dot : content_type_str (codes "a.html" ∷ codes "b.min.js" ∷ []) ≡ "application/javascript"
unfolding content_type_str
last_dot = refl

hidden : content_type_str (codes ".html" ∷ []) ≡ "application/octet-stream"
unfolding content_type_str
hidden = refl

serve_request-AnswersWith_example :
    AnswersWith fs root
      (serve_request (λ t. t) fs root get (codes "/a.css"))
      (serve_request (λ t. t) fs root head (codes "/a.css"))
unfolding serve_request fs
serve_request-AnswersWith_example = serve_request-AnswersWith fs root (λ t. t) (codes "/a.css") refl
