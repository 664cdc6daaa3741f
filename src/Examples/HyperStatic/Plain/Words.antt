-- ===== src/Examples/HyperStatic/Plain/Words.antt =====
-- What the responder takes a request apart with: `String::from_utf8_lossy`, the first of `lines()`, and
-- `split_whitespace()`, on text in UTF-8.
use sfo_reuseport.Prelude.{
  ℕ, zero, suc, ◌-◌, ◌==◌, ltb, leb, ◌&&◌, ◌||◌, Bool, false, List, [], ◌∷◌, ◌++◌, Option, none,
  some, is_empty, if◌then◌else◌,
}
use sfo_reuseport.Examples.HyperStatic.{Text}
use sfo_reuseport.Examples.HyperStatic.Percent.{Expected, nothing_more, first_byte, next_byte}
use sfo_reuseport.Examples.HyperStatic.Resolve.{before_first}

-- U+FFFD
abbrev replacement : Text
replacement = 0xef ∷ 0xbf ∷ 0xbd ∷ []

-- A character that has begun: what must follow, and its bytes so far.
abbrev Begun : Type 0
Begun = Expected × List ℕ

abbrev pub fresh : Begun
fresh = (nothing_more, [])

-- A byte that continues a character, which may end it.
abbrev continued : List ℕ → Expected → Text × Begun
continued bytes e = if e.more == 0 then (bytes, fresh) else ([], (e, bytes))

-- A byte that begins a character, or never can.
abbrev begins : ℕ → Option Expected → Text × Begun
begins b none = (replacement, fresh)
begins b (some e) = continued (b ∷ []) e

-- A byte that does not fit ends the character that has begun, which is replaced.
abbrev unfit : Begun → ℕ → Text × Begun
unfit (e, bytes) b =
    let (out, begun) = begins b (first_byte b) in
    if e.more == 0 then (out, begun) else (replacement ++ out, begun)

abbrev byte_of : Begun → ℕ → Option Expected → Text × Begun
byte_of (e, bytes) b none = unfit (e, bytes) b
byte_of (e, bytes) b (some next) = continued (bytes ++ b ∷ []) next

unfoldable pub next_lossy : Begun → ℕ → Text × Begun
unfolding next_byte first_byte
next_lossy (e, bytes) b = byte_of (e, bytes) b (next_byte e b)

unfoldable pub lossy_from : Begun → List ℕ → Text
unfolding next_lossy
lossy_from (e, bytes) [] = if e.more == 0 then [] else replacement
lossy_from begun (b ∷ rest) = let (out, next) = next_lossy begun b in out ++ lossy_from next rest

unfoldable pub from_utf8_lossy : List ℕ → Text
unfolding lossy_from
from_utf8_lossy bytes = lossy_from fresh bytes

abbrev begins_newline : Text → Bool
begins_newline [] = false
begins_newline (c ∷ cs) = c == b'\n'

-- Up to the first line feed, and a carriage return before it.
unfoldable pub line_of : Text → Text
line_of [] = []
line_of (c ∷ cs) =
    let rest = line_of cs in
    if c == b'\n' || (c == b'\r' && begins_newline cs) then [] else c ∷ rest

unfoldable pub first_line : Text → Option Text
unfolding line_of
first_line [] = none
first_line (c ∷ cs) = some (line_of (c ∷ cs))

-- The characters of several bytes that are white space: U+85, U+A0, U+1680, U+2000 to U+200A, U+2028,
-- U+2029, U+202F, U+205F and U+3000.
abbrev two_white : ℕ → ℕ → Bool
two_white a b = a == 0xc2 && (b == 0x85 || b == 0xa0)

abbrev three_white : ℕ → ℕ → ℕ → Bool
three_white a b c =
    (a == 0xe1 && b == 0x9a && c == 0x80)
    || (a == 0xe2
        && b == 0x80
        && ((leb 0x80 c && leb c 0x8a) || c == 0xa8 || c == 0xa9 || c == 0xaf))
    || (a == 0xe2 && b == 0x81 && c == 0x9f)
    || (a == 0xe3 && b == 0x80 && c == 0x80)

abbrev wide_white : Text → ℕ
wide_white [] = 0
wide_white (a ∷ []) = 0
wide_white (a ∷ b ∷ []) = if two_white a b then 2 else 0
wide_white (a ∷ b ∷ c ∷ cs) = if two_white a b then 2 else if three_white a b c then 3 else 0

-- How many bytes the character at the front has, if it is white space, and otherwise zero.
unfoldable pub white : Text → ℕ
white [] = 0
white (c ∷ cs) =
    let wide = wide_white (c ∷ cs) in
    if (leb 9 c && leb c 13) || c == 32 then 1 else if ltb c 0x80 then 0 else wide

-- `split(char::is_whitespace)`, after so many bytes of a character that is white space.
unfoldable pub split_white : ℕ → Text → List Text
unfolding white
split_white n [] = [] ∷ []
split_white (suc n) (c ∷ cs) = split_white n cs
split_white zero (c ∷ cs) =
    let size = white (c ∷ cs) in
    let pieces = split_white (size - 1) cs in
    if size == 0 then before_first c pieces else [] ∷ pieces

unfoldable pub nonempty : List Text → List Text
nonempty [] = []
nonempty (piece ∷ pieces) =
    let rest = nonempty pieces in if is_empty piece then rest else piece ∷ rest

unfoldable pub split_whitespace : Text → List Text
unfolding split_white nonempty
split_whitespace text = nonempty (split_white 0 text)
