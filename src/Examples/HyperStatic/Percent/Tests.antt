-- ===== src/Examples/HyperStatic/Percent/Tests.antt =====
-- Segments of a request's path.
use sfo_reuseport.Prelude.{◌≡◌, refl, true, false, [], ◌∷◌, if◌then◌else◌, arith}
use sfo_reuseport.Error.{ok, err}
use sfo_reuseport.Examples.HyperStatic.{forbidden}
use sfo_reuseport.Examples.HyperStatic.Percent.{percent_decode, is_utf8}
use sfo_reuseport.Examples.HyperStatic.Percent.Laws.{
  plain, escape, percent_encode, percent_decode-encode,
}

-- "%2e%2E"
dots : percent_decode (37 ∷ 50 ∷ 101 ∷ 37 ∷ 50 ∷ 69 ∷ []) ≡ ok (46 ∷ 46 ∷ [])
unfolding percent_decode
dots = refl

cut_off : percent_decode (97 ∷ 37 ∷ 50 ∷ []) ≡ err forbidden
unfolding percent_decode
cut_off = refl

-- A surrogate is no character.
surrogate : is_utf8 (0xed ∷ 0xa0 ∷ 0x80 ∷ []) ≡ false
unfolding is_utf8
surrogate = refl

euro : is_utf8 (0xe2 ∷ 0x82 ∷ 0xac ∷ []) ≡ true
unfolding is_utf8
euro = refl

percent_decode-encode_example :
    percent_decode (percent_encode (plain ∷ escape true false ∷ []) (97 ∷ 47 ∷ 37 ∷ []))
    ≡ (if is_utf8 (97 ∷ 47 ∷ 37 ∷ []) then ok (97 ∷ 47 ∷ 37 ∷ []) else err forbidden)
percent_decode-encode_example =
    percent_decode-encode (plain ∷ escape true false ∷ []) (97 ∷ 47 ∷ 37 ∷ []) (omega arith)
