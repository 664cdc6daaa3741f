-- ===== src/Examples/HyperStatic/Plain/Parts.antt =====
-- The parts of a request's first line, for words of visible ASCII.
use sfo_reuseport.Prelude.{
  ℕ, ◌≤◌, ◌<◌, ◌≡◌, refl, ap, ◌∙◌, ◌==◌, leb, lt→ltb, ◌&&◌, false, List, [], ◌∷◌, ◌++◌, some, All,
  All-append, arith,
}
use sfo_reuseport.Examples.HyperStatic.{Text, FilePath, FileSystem}
use sfo_reuseport.Examples.HyperStatic.Plain.{
  line, for_parts, for_line, for_split, plain_response_for_request,
}
use sfo_reuseport.Examples.HyperStatic.Plain.Words.{
  from_utf8_lossy, line_of, first_line, white, split_white, nonempty, split_whitespace,
}
use sfo_reuseport.Examples.HyperStatic.Resolve.{before_first}
use sfo_reuseport.Examples.HyperStatic.Respond.{codes}

abbrev IsPrinted : ℕ → Type 0
IsPrinted c = (32 ≤ c) × (c < 127)

abbrev pub IsVisible : ℕ → Type 0
IsVisible c = (33 ≤ c) × (c < 127)

-- A word of visible ASCII.
abbrev pub IsWord : Text → Type 0
IsWord [] = ⊥
IsWord (c ∷ cs) = IsVisible c × All IsVisible cs

visible-IsPrinted : (cs : Text) → All IsVisible cs → All IsPrinted cs
visible-IsPrinted [] tt = tt
visible-IsPrinted (c ∷ cs) (h, hs) = ((omega (arith, h.0), h.1), visible-IsPrinted cs hs)

lossy_ascii :
    (b : ℕ) (rest : List ℕ) → b < 128 → from_utf8_lossy (b ∷ rest) ≡ b ∷ from_utf8_lossy rest
unfolding from_utf8_lossy
lossy_ascii b rest h = rw (lt→ltb b 128 h) refl

lossy-append :
    (bytes rest : List ℕ)
    → All IsPrinted bytes
    → from_utf8_lossy (bytes ++ rest) ≡ bytes ++ from_utf8_lossy rest
lossy-append [] rest tt = refl
lossy-append (b ∷ bytes) rest (h, hs) =
    lossy_ascii b (bytes ++ rest) (omega (arith, h.1))
    ∙ ap (λ bs. b ∷ bs) (lossy-append bytes rest hs)

lossy-line :
    (text rest : List ℕ)
    → All IsPrinted text
    → from_utf8_lossy (line text rest) ≡ line text (from_utf8_lossy rest)
lossy-line text rest h =
    lossy-append text (b'\r' ∷ b'\n' ∷ rest) h
    ∙ ap (λ bs. text ++ bs)
        (lossy_ascii b'\r' (b'\n' ∷ rest) (omega arith)
          ∙ ap (λ bs. b'\r' ∷ bs) (lossy_ascii b'\n' rest (omega arith)))

line_of-line : (text rest : List ℕ) → All IsPrinted text → line_of (line text rest) ≡ text
unfolding line_of
line_of-line [] rest tt = refl
line_of-line (c ∷ cs) rest (h, hs) =
    let newline : (c == b'\n') ≡ false = ground (arith, h) in
    let return : (c == b'\r') ≡ false = ground (arith, h) in
    rw (newline, return) (ap (λ bs. c ∷ bs) (line_of-line cs rest hs))

white_none : (c : ℕ) (cs : Text) → IsVisible c → white (c ∷ cs) ≡ 0
unfolding white
white_none c cs (lo, hi) =
    let blank : (c == 32) ≡ false = ground (arith, lo) in
    let control : (leb 9 c && leb c 13) ≡ false = ground (arith, lo) in
    rw (blank, control, lt→ltb c 128 (omega (arith, hi))) refl

split-word :
    (word rest : Text)
    → All IsVisible word
    → split_white 0 (word ++ b' ' ∷ rest) ≡ word ∷ split_white 0 rest
unfolding split_white
split-word [] rest tt = refl
split-word (c ∷ cs) rest (h, hs) =
    rw (white_none c (cs ++ b' ' ∷ rest) h) (ap (before_first c) (split-word cs rest hs))

-- The method and the target, and the version.
abbrev request_line : Text → Text → Text
request_line method target = method ++ b' ' ∷ (target ++ b' ' ∷ codes "HTTP/1.1")

abbrev pub request_of : Text → Text → List ℕ → List ℕ
request_of method target headers = line (request_line method target) headers

version-IsPrinted : All IsPrinted (b' ' ∷ codes "HTTP/1.1")
version-IsPrinted = ground arith

split_parts :
    (method target : Text)
    → IsWord method
    → IsWord target
    → split_whitespace (request_line method target) ≡ method ∷ target ∷ codes "HTTP/1.1" ∷ []
unfolding split_whitespace
split_parts [] target hm ht = absurd hm
split_parts (m ∷ ms) [] hm ht = absurd ht
split_parts (m ∷ ms) (t ∷ ts) hm ht = ap nonempty (
    split-word (m ∷ ms) ((t ∷ ts) ++ b' ' ∷ codes "HTTP/1.1") hm
    ∙ ap (λ parts. (m ∷ ms) ∷ parts) (split-word (t ∷ ts) (codes "HTTP/1.1") ht))

request_line-IsPrinted :
    (method target : Text)
    → IsWord method
    → IsWord target
    → All IsPrinted (request_line method target)
request_line-IsPrinted [] target hm ht = absurd hm
request_line-IsPrinted (m ∷ ms) [] hm ht = absurd ht
request_line-IsPrinted (m ∷ ms) (t ∷ ts) hm ht =
    All-append IsPrinted (m ∷ ms) _ (visible-IsPrinted (m ∷ ms) hm) (
      (omega arith, omega arith),
      All-append IsPrinted (t ∷ ts) _ (visible-IsPrinted (t ∷ ts) ht) version-IsPrinted,
    )

first_line-line :
    (c : ℕ) (cs rest : Text)
    → All IsPrinted (c ∷ cs)
    → first_line (line (c ∷ cs) rest) ≡ some (c ∷ cs)
unfolding first_line
first_line-line c cs rest h = ap some (line_of-line (c ∷ cs) rest h)

pub request-for_parts :
    (fs : FileSystem) (root : FilePath) (method target : Text) (headers : List ℕ)
    → IsWord method
    → IsWord target
    → plain_response_for_request fs root (request_of method target headers)
      ≡ for_parts fs root method target
unfolding plain_response_for_request
request-for_parts fs root [] target headers hm ht = absurd hm
request-for_parts fs root (m ∷ ms) target headers hm ht =
    let printed = request_line-IsPrinted (m ∷ ms) target hm ht in
    ap (for_line fs root) (
      ap first_line (lossy-line (request_line (m ∷ ms) target) headers printed)
      ∙ first_line-line m (ms ++ b' ' ∷ (target ++ b' ' ∷ codes "HTTP/1.1"))
          (from_utf8_lossy headers) printed)
    ∙ ap (for_split fs root) (split_parts (m ∷ ms) target hm ht)
