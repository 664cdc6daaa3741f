-- ===== src/Examples/HyperStatic/Resolve/Tests.antt =====
-- Paths of requests to a small file system.
use sfo_reuseport.Prelude.{◌≡◌, refl, [], ◌∷◌, ◌++◌}
use sfo_reuseport.Error.{ok, err}
use sfo_reuseport.Examples.HyperStatic.{forbidden, Text, FilePath, FileSystem}
use sfo_reuseport.Examples.HyperStatic.Percent.{percent_decode}
use sfo_reuseport.Examples.HyperStatic.Resolve.{dot, split, index_html, starts_with, resolve_path}
use sfo_reuseport.Examples.HyperStatic.Resolve.Forbidden.{resolve_path_forbidden}

-- "w"
abbrev root : FilePath
root = (119 ∷ []) ∷ []

-- The root is a directory, and every path is canonical. The files are those below the root.
abbrev fs : FileSystem
unfolding starts_with
fs = record {
  is_dir = λ path. starts_with root path;
  is_file = λ path. starts_with path root;
  canonicalize = λ path. ok path;
  read = λ path. ok (1 ∷ 2 ∷ []);
}

-- "/"
root_index : resolve_path fs root (47 ∷ []) ≡ ok (root ++ index_html ∷ [])
unfolding resolve_path fs
root_index = refl

-- "/%2e/a" names "a".
current_directory :
    resolve_path fs root (47 ∷ 37 ∷ 50 ∷ 101 ∷ 47 ∷ 97 ∷ []) ≡ ok (root ++ (97 ∷ []) ∷ [])
unfolding resolve_path fs
current_directory = refl

-- "a/%2e%2e/b"
abbrev climbing : Text
climbing = 97 ∷ 47 ∷ 37 ∷ 50 ∷ 101 ∷ 37 ∷ 50 ∷ 101 ∷ 47 ∷ 98 ∷ []

resolve_path_forbidden_example : resolve_path fs root climbing ≡ err forbidden
unfolding split percent_decode
resolve_path_forbidden_example =
    resolve_path_forbidden fs root climbing ((97 ∷ []) ∷ []) ((98 ∷ []) ∷ [])
      (37 ∷ 50 ∷ 101 ∷ 37 ∷ 50 ∷ 101 ∷ []) (dot ∷ dot ∷ []) refl refl (λ n. n.not_parent refl)
