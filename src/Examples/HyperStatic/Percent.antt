-- ===== src/Examples/HyperStatic/Percent.antt =====
-- `percent_decode` and `from_hex`, and the check of `String::from_utf8`.
pub mod Laws
pub mod Refuses
mod Tests
use sfo_reuseport.Prelude.{
  ℕ, ◌+◌, ◌-◌, ◌*◌, ◌==◌, leb, ltb, ◌&&◌, ◌||◌, Bool, true, false, List, [], ◌∷◌, Option, none,
  some, if◌then◌else◌,
}
use sfo_reuseport.Error.{Result, ok, err, ◌>>=◌}
use sfo_reuseport.Examples.HyperStatic.{ResolveError, forbidden, Text}

abbrev between : ℕ → ℕ → ℕ → Bool
between lo hi b = leb lo b && leb b hi

unfoldable pub from_hex : ℕ → Result ResolveError ℕ
from_hex byte =
    if between b'0' b'9' byte
    then ok (byte - b'0')
    else if between b'a' b'f' byte
    then ok (byte - b'a' + 10)
    else if between b'A' b'F' byte
    then ok (byte - b'A' + 10)
    else err forbidden

-- How many bytes must follow, and the range of the next.
pub record Expected : Type 0 where
  pub more : ℕ
  pub lo : ℕ
  pub hi : ℕ

abbrev pub nothing_more : Expected
nothing_more = record { more = 0; lo = 0x80; hi = 0xbf }

abbrev following : ℕ → ℕ → ℕ → Option Expected
following more lo hi = some (record { more = more; lo = lo; hi = hi })

-- The first byte of a character, by the table of well-formed sequences.
unfoldable pub first_byte : ℕ → Option Expected
first_byte b =
    if ltb b 0x80
    then some nothing_more
    else if between 0xc2 0xdf b
    then following 1 0x80 0xbf
    else if b == 0xe0
    then following 2 0xa0 0xbf
    else if b == 0xed
    then following 2 0x80 0x9f
    else if between 0xe1 0xef b
    then following 2 0x80 0xbf
    else if b == 0xf0
    then following 3 0x90 0xbf
    else if between 0xf1 0xf3 b
    then following 3 0x80 0xbf
    else if b == 0xf4
    then following 3 0x80 0x8f
    else none

unfoldable pub next_byte : Expected → ℕ → Option Expected
unfolding first_byte
next_byte e b =
    if e.more == 0
    then first_byte b
    else if between e.lo e.hi b
    then some (record nothing_more { more = e.more - 1 })
    else none

unfoldable pub is_utf8_from : Option Expected → List ℕ → Bool
unfolding next_byte
is_utf8_from none bytes = false
is_utf8_from (some e) [] = e.more == 0
is_utf8_from (some e) (b ∷ bytes) = is_utf8_from (next_byte e b) bytes

-- Whether `String::from_utf8` accepts the bytes.
unfoldable pub is_utf8 : List ℕ → Bool
unfolding is_utf8_from
is_utf8 bytes = is_utf8_from (some nothing_more) bytes

abbrev pub percent : ℕ
percent = b'%'

-- `decoded.push((high << 4) | low)`, before what the loop decodes of the rest.
abbrev escaped : ℕ → ℕ → Result ResolveError (List ℕ) → Result ResolveError (List ℕ)
escaped h l rest = do
  high ← from_hex h
  low ← from_hex l
  decoded ← rest
  ok ((high * 16 + low) ∷ decoded)

abbrev literal : ℕ → Result ResolveError (List ℕ) → Result ResolveError (List ℕ)
literal c rest = do decoded ← rest; ok (c ∷ decoded)

-- The loop, from the rest of the bytes. A percent sign with fewer than two bytes after it is an error.
unfoldable pub decode_bytes : List ℕ → Result ResolveError (List ℕ)
unfolding from_hex
decode_bytes [] = ok []
decode_bytes (c ∷ []) = if c == percent then err forbidden else ok (c ∷ [])
decode_bytes (c ∷ d ∷ []) =
    let rest = literal c (decode_bytes (d ∷ [])) in if c == percent then err forbidden else rest
decode_bytes (c ∷ h ∷ l ∷ bytes) =
    let after_escape = escaped h l (decode_bytes bytes) in
    let after_literal = literal c (decode_bytes (h ∷ l ∷ bytes)) in
    if c == percent then after_escape else after_literal

-- `String::from_utf8(decoded).map_err(..)`
abbrev from_utf8 : List ℕ → Result ResolveError Text
from_utf8 decoded = if is_utf8 decoded then ok decoded else err forbidden

unfoldable pub percent_decode : Text → Result ResolveError Text
unfolding decode_bytes is_utf8
percent_decode segment = do decoded ← decode_bytes segment; from_utf8 decoded
