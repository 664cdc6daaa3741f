-- ===== src/Examples/HyperStatic/Percent/Refuses.antt =====
-- The only error of decoding.
use sfo_reuseport.Prelude.{ℕ, ◌+◌, ◌-◌, ◌==◌, Bool, true, false, List, [], ◌∷◌, if◌then◌else◌}
use sfo_reuseport.Error.{Result, ok, err, ◌>>=◌}
use sfo_reuseport.Examples.HyperStatic.{ResolveError, forbidden, Text}
use sfo_reuseport.Examples.HyperStatic.Percent.{
  percent_decode, from_hex, percent, decode_bytes, between, escaped, literal, is_utf8,
}

-- The only error is that the request is forbidden.
pub data Refuses {A : Type 0} : Result ResolveError A → Type 0 where
  succeeds : {a : A} → Refuses (ok a)
  refuses : Refuses (err forbidden)

pub bind-Refuses :
    {A B : Type 0} (m : Result ResolveError A) (f : A → Result ResolveError B)
    → Refuses m
    → ((a : A) → Refuses (f a))
    → Refuses (m >>= f)
bind-Refuses _ f (succeeds {a = a}) g = g a
bind-Refuses _ f refuses g = refuses

pub if-Refuses :
    {A : Type 0} (b : Bool) (x y : Result ResolveError A)
    → Refuses x
    → Refuses y
    → Refuses (if b then x else y)
if-Refuses true x y hx hy = hx
if-Refuses false x y hx hy = hy

from_hex-Refuses : (b : ℕ) → Refuses (from_hex b)
unfolding from_hex
from_hex-Refuses b = if-Refuses (between b'0' b'9' b) _ _ (succeeds {a = b - b'0'}) (
    if-Refuses (between b'a' b'f' b) _ _ (succeeds {a = b - b'a' + 10})
      (if-Refuses (between b'A' b'F' b) _ _ (succeeds {a = b - b'A' + 10}) refuses))

escaped-Refuses :
    (h l : ℕ) (rest : Result ResolveError (List ℕ)) → Refuses rest → Refuses (escaped h l rest)
escaped-Refuses h l rest r = bind-Refuses (from_hex h) _ (from_hex-Refuses h) (λ high.
    bind-Refuses (from_hex l) _ (from_hex-Refuses l)
      (λ low. bind-Refuses rest _ r (λ decoded. succeeds)))

literal-Refuses :
    (c : ℕ) (rest : Result ResolveError (List ℕ)) → Refuses rest → Refuses (literal c rest)
literal-Refuses c rest r = bind-Refuses rest _ r (λ decoded. succeeds)

decode-Refuses : (bytes : List ℕ) → Refuses (decode_bytes bytes)
unfolding decode_bytes
decode-Refuses [] = succeeds
decode-Refuses (c ∷ []) = if-Refuses (c == percent) _ _ refuses succeeds
decode-Refuses (c ∷ d ∷ []) =
    if-Refuses (c == percent) _ _ refuses
      (literal-Refuses c (decode_bytes (d ∷ [])) (decode-Refuses (d ∷ [])))
decode-Refuses (c ∷ h ∷ l ∷ bytes) =
    if-Refuses (c == percent) _ _ (escaped-Refuses h l (decode_bytes bytes) (decode-Refuses bytes))
      (literal-Refuses c (decode_bytes (h ∷ l ∷ bytes)) (decode-Refuses (h ∷ l ∷ bytes)))

pub percent_decode-Refuses : (segment : Text) → Refuses (percent_decode segment)
unfolding percent_decode
percent_decode-Refuses segment =
    bind-Refuses (decode_bytes segment) _ (decode-Refuses segment)
      (λ decoded. if-Refuses (is_utf8 decoded) _ _ succeeds refuses)
