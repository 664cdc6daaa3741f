-- ===== src/Examples/HyperStatic/Plain/Tests.antt =====
-- Runs of the responder, and its theorem on a request that arrives in two pieces.
use sfo_reuseport.Prelude.{◌≡◌, refl, [], ◌∷◌, ◌++◌, Option, some}
use sfo_reuseport.Error.{ok}
use sfo_reuseport.Examples.HyperStatic.{Text, FilePath, FileSystem}
use sfo_reuseport.Examples.HyperStatic.Plain.{decimal}
use sfo_reuseport.Examples.HyperStatic.Plain.Words.{from_utf8_lossy, first_line, split_whitespace}
use sfo_reuseport.Examples.HyperStatic.Resolve.{starts_with}
use sfo_reuseport.Examples.HyperStatic.Respond.{codes}

numbers : decimal 20 65535 ≡ codes "65535"
unfolding decimal
numbers = refl

invalid :
    from_utf8_lossy (65 ∷ 0xe2 ∷ 0x82 ∷ 66 ∷ 0xff ∷ 0xc3 ∷ [])
    ≡ 65 ∷ 0xef ∷ 0xbf ∷ 0xbd ∷ 66 ∷ 0xef ∷ 0xbf ∷ 0xbd ∷ 0xef ∷ 0xbf ∷ 0xbd ∷ []
unfolding from_utf8_lossy
invalid = refl

lines : first_line (codes "ab\r\r\ncd") ≡ some (codes "ab\r")
unfolding first_line
lines = refl

words :
    split_whitespace (codes " GET\t" ++ 0xe2 ∷ 0x80 ∷ 0x83 ∷ codes "/x ")
    ≡ codes "GET" ∷ codes "/x" ∷ []
unfolding split_whitespace
words = refl

abbrev root : FilePath
root = codes "srv" ∷ []

abbrev fs : FileSystem
unfolding starts_with
fs = record {
  is_dir = λ path. starts_with root path;
  is_file = λ path. starts_with path root;
  canonicalize = λ path. ok path;
  read = λ path. ok (1 ∷ 2 ∷ []);
}

abbrev method : Text
method = codes "GET"

abbrev path : Text
path = codes "/a.css"

abbrev query : Option Text
query = some (codes "v=1")

abbrev headers : Text
headers = codes "Host: a\r\n\r\n"

abbrev first : Text
first = codes "GET /a.css?v=1 HTTP"

abbrev last : Text
last = codes "/1.1\r\nHost: a\r\n\r\n"
