-- ===== src/Examples/HyperStatic/Percent/Laws.antt =====
-- Percent encoding, of any of the bytes and in either case, is undone.
use sfo_reuseport.Prelude.{
  ℕ, ◌+◌, ◌-◌, ◌*◌, ◌/◌, ◌%◌, ◌<◌, ◌≡◌, refl, ap, ◌∙◌, ◌==◌, ltb, Bool, Bool-cases, true, false,
  inl, inr, List, [], ◌∷◌, All, if◌then◌else◌, arith,
}
use sfo_reuseport.Error.{ok, err}
use sfo_reuseport.Net.{IsByte}
use sfo_reuseport.Examples.HyperStatic.{forbidden}
use sfo_reuseport.Examples.HyperStatic.Percent.{
  from_hex, percent, decode_bytes, is_utf8, percent_decode, escaped, literal,
}

-- A hexadecimal digit, by whether it is upper case.
abbrev to_hex : Bool → ℕ → ℕ
to_hex upper d = if ltb d 10 then b'0' + d else (if upper then b'A' + (d - 10) else b'a' + (d - 10))

-- How a byte is encoded: as itself, or as an escape with digits of either case.
pub data Choice : Type 0 where
  plain : Choice
  escape : Bool → Bool → Choice

-- The encoding by the choices, `plain` where they have run out. A percent sign is always escaped.
abbrev encode_byte : Choice → ℕ → List ℕ → List ℕ
encode_byte plain c rest = if c == percent then percent ∷ b'2' ∷ b'5' ∷ rest else c ∷ rest
encode_byte (escape u v) c rest = percent ∷ to_hex u (c / 16) ∷ to_hex v (c % 16) ∷ rest

abbrev choice_of : List Choice → Choice
choice_of [] = plain
choice_of (c ∷ cs) = c

abbrev choices_after : List Choice → List Choice
choices_after [] = []
choices_after (c ∷ cs) = cs

unfoldable pub percent_encode : List Choice → List ℕ → List ℕ
percent_encode choices [] = []
percent_encode choices (c ∷ cs) =
    encode_byte (choice_of choices) c (percent_encode (choices_after choices) cs)

from_hex-to_hex : (upper : Bool) (d : ℕ) → d < 16 → from_hex (to_hex upper d) ≡ ok d
unfolding from_hex
from_hex-to_hex true d h = ground arith
from_hex-to_hex false d h = ground arith

-- An escape, and a byte that is none, before any rest.
decode_escape :
    (h l : ℕ) (bytes : List ℕ)
    → decode_bytes (percent ∷ h ∷ l ∷ bytes) ≡ escaped h l (decode_bytes bytes)
unfolding decode_bytes
decode_escape h l bytes = refl

decode_literal :
    (c : ℕ) (bytes : List ℕ)
    → (c == percent) ≡ false
    → decode_bytes (c ∷ bytes) ≡ literal c (decode_bytes bytes)
unfolding decode_bytes
decode_literal c [] e = rw e refl
decode_literal c (d ∷ []) e = rw e refl
decode_literal c (h ∷ l ∷ bytes) e = rw e refl

decode_escaped :
    (u v : Bool) (c : ℕ) (bytes decoded : List ℕ)
    → c < 256
    → decode_bytes bytes ≡ ok decoded
    → decode_bytes (percent ∷ to_hex u (c / 16) ∷ to_hex v (c % 16) ∷ bytes) ≡ ok (c ∷ decoded)
decode_escaped u v c bytes decoded h e =
    let whole : c / 16 * 16 + c % 16 ≡ c = omega arith in
    decode_escape (to_hex u (c / 16)) (to_hex v (c % 16)) bytes
    ∙ rw
        (
          from_hex-to_hex u (c / 16) (omega (arith, h)),
          from_hex-to_hex v (c % 16) (omega arith),
          e,
          whole,
        )
        refl

decode-encode_byte :
    (choice : Choice) (c : ℕ) (bytes decoded : List ℕ)
    → c < 256
    → decode_bytes bytes ≡ ok decoded
    → decode_bytes (encode_byte choice c bytes) ≡ ok (c ∷ decoded)
decode-encode_byte (escape u v) c bytes decoded h e = decode_escaped u v c bytes decoded h e
decode-encode_byte plain c bytes decoded h e = elim (Bool-cases (c == percent)) [
  | inl is_percent ↦
      let same : percent ≡ c = ground (arith, is_percent) in
      rw is_percent (
        decode_escaped true true percent bytes decoded (omega arith) e
        ∙ ap (λ x. ok (x ∷ decoded)) same)
  | inr other ↦ rw other (decode_literal c bytes other ∙ rw e refl)
]

decode-encode :
    (choices : List Choice) (bytes : List ℕ)
    → All IsByte bytes
    → decode_bytes (percent_encode choices bytes) ≡ ok bytes
unfolding percent_encode decode_bytes
decode-encode choices [] h = refl
decode-encode choices (c ∷ cs) h =
    decode-encode_byte (choice_of choices) c (percent_encode (choices_after choices) cs) cs h.0
      (decode-encode (choices_after choices) cs h.1)

-- Whichever of the bytes of a segment are percent-encoded, with digits of either case, so long as a
-- percent sign is, decoding gives the bytes back if they are UTF-8, and otherwise is forbidden.
pub percent_decode-encode :
    (choices : List Choice) (bytes : List ℕ)
    → All IsByte bytes
    → percent_decode (percent_encode choices bytes)
      ≡ (if is_utf8 bytes then ok bytes else err forbidden)
unfolding percent_decode
percent_decode-encode choices bytes h = rw (decode-encode choices bytes h) refl
