-- ===== src/Examples/HyperStatic.antt =====
-- examples/hyper_static.rs: a static file server. Text is the list of its bytes in UTF-8. A path of a
-- Unix system is the list of its components below the root directory, and the file system is a
-- parameter.
pub mod Percent
pub mod Plain
pub mod Request
pub mod Resolve
pub mod Respond
use sfo_reuseport.Prelude.{ℕ, Bool, List}
use sfo_reuseport.Error.{IoError, Result}

pub data ResolveError : Type 0 where
  forbidden not_found : ResolveError

abbrev pub Text : Type 0
Text = List ℕ

abbrev pub FilePath : Type 0
FilePath = List Text

-- What the program asks of the file system.
pub record FileSystem : Type 0 where
  pub is_dir : FilePath → Bool
  pub is_file : FilePath → Bool
  pub canonicalize : FilePath → Result IoError FilePath
  pub read : FilePath → Result IoError (List ℕ)
