-- ===== src/Examples/HyperStatic/Plain/Reader.antt =====
-- A reader of responses, by the grammar of HTTP/1.1: the length of the body is what the header tells.
use Prim.Native.Nat.{zero, suc}
use mathlib.Core.List.{append_assoc}
use native.Mathlib.Numerals.{unary_clauses}
use sfo_reuseport.Prelude.{
  ℕ, ◌+◌, ◌-◌, ◌*◌, ◌/◌, ◌%◌, ◌^◌, ◌<◌, ◌≡◌, refl, ap, ◌∙◌, ◌==◌, ltb, leb, ◌&&◌, not, String, Bool,
  Bool-cases, ==_iff, ltb→lt, true, false, inl, inr, List, [], ◌∷◌, ◌++◌, Option, none, some,
  length, if◌then◌else◌, arith,
}
use sfo_reuseport.Examples.HyperStatic.{Text}
use sfo_reuseport.Examples.HyperStatic.Plain.{decimal, to_decimal, line, plain_response}
use sfo_reuseport.Examples.HyperStatic.Respond.{codes}

infixl 5 ◌>>=◌
abbrev ◌>>=◌ : {A B : Type 0} → Option A → (A → Option B) → Option B
none >>= f = none
some a >>= f = f a

abbrev digit : ℕ → Bool
digit c = leb b'0' c && leb c b'9'

-- The digits at the front, after those that have been read, and the rest.
unfoldable number_from : ℕ → List ℕ → ℕ × List ℕ
number_from n [] = (n, [])
number_from n (c ∷ cs) =
    let read = number_from (n * 10 + (c - b'0')) cs in if digit c then read else (n, c ∷ cs)

abbrev with_byte : ℕ → Option (Text × List ℕ) → Option (Text × List ℕ)
with_byte c none = none
with_byte c (some (text, rest)) = some (c ∷ text, rest)

-- Up to the first end of a line, and after it.
unfoldable take_line : List ℕ → Option (Text × List ℕ)
take_line [] = none
take_line (c ∷ []) = none
take_line (c ∷ d ∷ cs) =
    let later = with_byte c (take_line (d ∷ cs)) in
    if c == b'\r' && d == b'\n' then some ([], cs) else later

unfoldable strip : Text → List ℕ → Option (List ℕ)
strip [] bytes = some bytes
strip (p ∷ prefix) [] = none
strip (p ∷ prefix) (c ∷ cs) = let rest = strip prefix cs in if p == c then rest else none

pub record Received : Type 0 where
  pub status : ℕ
  pub content_type : Text
  pub body : List ℕ

-- The header fields are read in the order in which they are sent.
abbrev of_size : ℕ → Received → Option Received
of_size size r = if length r.body == size then some r else none

unfoldable with_body : ℕ → ℕ → Text → Option (List ℕ) → Option Received
with_body status size content_type rest = do
  body ← rest
  of_size size (record { status = status; content_type = content_type; body = body })

unfoldable with_type : ℕ → ℕ → Option (Text × List ℕ) → Option Received
with_type status size taken = do
  (content_type, rest) ← taken
  with_body status size content_type (strip (line (codes "Connection: close") (line [] [])) rest)

unfoldable with_length : ℕ → ℕ × List ℕ → Option Received
with_length status (size, rest) = do
  at_type ← strip (line [] (codes "Content-Type: ")) rest
  with_type status size (take_line at_type)

unfoldable with_reason : ℕ → Option (Text × List ℕ) → Option Received
with_reason status taken = do
  (reason, headers) ← taken
  at_length ← strip (codes "Content-Length: ") headers
  with_length status (number_from 0 at_length)

unfoldable with_status : ℕ × List ℕ → Option Received
with_status (status, rest) = with_reason status (take_line rest)

unfoldable pub read_response : List ℕ → Option Received
unfolding number_from strip take_line with_status with_reason with_length with_type with_body
read_response bytes = do
  at_status ← strip (codes "HTTP/1.1 ") bytes
  with_status (number_from 0 at_status)

-- No carriage return is in the text.
unfoldable pub clean : Text → Bool
clean [] = true
clean (c ∷ cs) = not (c == b'\r') && clean cs

clean-head : (c : ℕ) (cs : Text) → clean (c ∷ cs) ≡ true → (c == b'\r') ≡ false
unfolding clean
clean-head c cs h = ground (arith, h)

clean-tail : (c : ℕ) (cs : Text) → clean (c ∷ cs) ≡ true → clean cs ≡ true
unfolding clean
clean-tail c cs h = ground (arith, h)

take_line-append :
    (text : Text) (rest : List ℕ)
    → clean text ≡ true
    → take_line (line text rest) ≡ some (text, rest)
unfolding take_line
take_line-append [] rest h = refl
take_line-append (c ∷ []) rest h = rw (clean-head c [] h) refl
take_line-append (c ∷ d ∷ cs) rest h =
    rw (clean-head c (d ∷ cs) h, take_line-append (d ∷ cs) rest (clean-tail c (d ∷ cs) h)) refl

strip-append : (prefix : Text) (rest : List ℕ) → strip prefix (prefix ++ rest) ≡ some rest
unfolding strip
strip-append [] rest = refl
strip-append (p ∷ prefix) rest = rw ((==_iff p p).1 refl) (strip-append prefix rest)

number_digit :
    (n d : ℕ) (rest : List ℕ)
    → d < 10
    → number_from n ((b'0' + d) ∷ rest) ≡ number_from (n * 10 + d) rest
unfolding number_from
number_digit n d rest h = ground arith

power : (k m : ℕ) → m < 10 ^ suc k → m / 10 < 10 ^ k
power k m h = let le = simp unary_clauses at h in omega (arith, le)

number-decimal :
    (k m : ℕ) (rest : List ℕ)
    → m < 10 ^ k
    → number_from 0 (decimal k m ++ rest) ≡ number_from m rest
unfolding decimal
number-decimal zero m rest h = ap (λ n. number_from n rest) (omega (arith, h))
number-decimal (suc k) m rest h = elim (Bool-cases (ltb m 10)) [
  | inl e ↦
      rw e (number_digit 0 m rest (ltb→lt m 10 e) ∙ ap (λ n. number_from n rest) (omega arith))
  | inr e ↦
      rw (e, append_assoc (decimal k (m / 10)) ((b'0' + m % 10) ∷ []) rest)
        (number-decimal k (m / 10) ((b'0' + m % 10) ∷ rest) (power k m h)
          ∙ number_digit (m / 10) (m % 10) rest (omega arith)
          ∙ ap (λ n. number_from n rest) (omega arith))
]

number-to_decimal :
    (m : ℕ) (rest : List ℕ)
    → m < 10 ^ 20
    → number_from 0 (to_decimal m ++ rest) ≡ number_from m rest
unfolding to_decimal
number-to_decimal m rest h = number-decimal 20 m rest h

-- What follows the type, the length and the status.
abbrev after_type : List ℕ → List ℕ
after_type body = line (codes "Connection: close") (line [] body)

abbrev after_length : Text → List ℕ → List ℕ
after_length content_type body =
    line [] (codes "Content-Type: " ++ line content_type (after_type body))

abbrev after_reason : Text → List ℕ → List ℕ
after_reason content_type body =
    codes "Content-Length: " ++ (to_decimal (length body) ++ after_length content_type body)

read_body :
    (status : ℕ) (content_type : Text) (body : List ℕ)
    → with_body status (length body) content_type (some body)
      ≡ some (record { status = status; content_type = content_type; body = body })
unfolding with_body
read_body status content_type body = rw ((==_iff (length body) (length body)).1 refl) refl

module _ (status : ℕ) (content_type : Text) (body : List ℕ) (hb : length body < 10 ^ 20)
    (ht : clean content_type ≡ true) where
  abbrev whole : Option Received
  whole = some (record { status = status; content_type = content_type; body = body })

  read_type :
      with_type status (length body) (take_line (line content_type (after_type body))) ≡ whole
  unfolding with_type
  read_type =
      ap (with_type status (length body)) (take_line-append content_type (after_type body) ht)
      ∙ ap (with_body status (length body) content_type)
          (strip-append (line (codes "Connection: close") (line [] [])) body)
      ∙ read_body status content_type body

  read_length :
      with_length status
        (number_from 0 (to_decimal (length body) ++ after_length content_type body))
      ≡ whole
  unfolding with_length number_from
  read_length =
      ap (with_length status) (number-to_decimal (length body) (after_length content_type body) hb)
      ∙ ap (λ rest. rest >>= λ at_type. with_type status (length body) (take_line at_type))
          (strip-append (line [] (codes "Content-Type: ")) (line content_type (after_type body)))
      ∙ read_type

  read_reason :
      (reason : Text)
      → clean reason ≡ true
      → with_reason status (take_line (line reason (after_reason content_type body))) ≡ whole
  unfolding with_reason
  read_reason reason hr =
      ap (with_reason status) (take_line-append reason (after_reason content_type body) hr)
      ∙ ap (λ rest. rest >>= λ at_length. with_length status (number_from 0 at_length))
          (strip-append (codes "Content-Length: ")
            (to_decimal (length body) ++ after_length content_type body))
      ∙ read_length

-- A response is read as it was written.
pub read-plain_response :
    (status : ℕ) (reason content_type : String) (body : List ℕ)
    → status < 10 ^ 20
    → length body < 10 ^ 20
    → clean (codes reason) ≡ true
    → clean (codes content_type) ≡ true
    → read_response (plain_response status reason content_type body)
      ≡ some (record { status = status; content_type = codes content_type; body = body })
unfolding read_response plain_response clean with_status
read-plain_response status reason content_type body hs hb hr ht =
    let rest = b' ' ∷ line (codes reason) (after_reason (codes content_type) body) in
    ap (λ r. r >>= λ at_status. with_status (number_from 0 at_status))
      (strip-append (codes "HTTP/1.1 ") (to_decimal status ++ rest))
    ∙ ap with_status (number-to_decimal status rest hs)
    ∙ read_reason status (codes content_type) body hb ht (b' ' ∷ codes reason) hr
