-- ===== src/Examples/HyperStatic/Request/Laws.antt =====
-- Reading a request ends, within bounds.
use sfo_reuseport.Prelude.{
  ℕ, ◌+◌, ◌<◌, ◌≤◌, ◌≡◌, refl, leb, Bool, true, false, ◌⊎◌, inl, inr, List, [], ◌∷◌, ◌++◌, Option,
  none, some, length, length-append, All, if◌then◌else◌, arith,
}
use sfo_reuseport.Error.{Error, IoError, Result, ok, err}
use sfo_reuseport.Examples.HyperStatic.Request.{
  largest, buffer_size, is_complete, read_from, read_request,
}

-- A read that fits the buffer.
abbrev pub Fits : Result IoError (List ℕ) → Type 0
Fits (ok bytes) = length bytes ≤ buffer_size
Fits (err e) = Unit

-- An answer has come: an error, the end of the connection, or a complete head within bounds.
abbrev pub Ends : Option (Result Error (List ℕ)) → Type 0
Ends none = ⊥
Ends (some (err e)) = Unit
Ends (some (ok request)) =
    (request ≡ []) ⊎ ((is_complete request ≡ true) × (length request ≤ largest + buffer_size))

if-Ends :
    (b : Bool) (x y : Option (Result Error (List ℕ)))
    → (b ≡ true → Ends x)
    → (b ≡ false → Ends y)
    → Ends (if b then x else y)
if-Ends true x y f g = f refl
if-Ends false x y f g = g refl

read_from-Ends :
    (request : List ℕ) (reads : List (Result IoError (List ℕ)))
    → largest < length request + length reads
    → All Fits reads
    → Ends (read_from request reads)
unfolding read_from
read_from-Ends request [] enough fits =
    if-Ends (leb (length request) largest) _ _ (λ h. absurd (ground (arith, h, enough))) (λ h. tt)
read_from-Ends request (err e ∷ reads) enough fits =
    if-Ends (leb (length request) largest) _ _ (λ h. tt) (λ h. tt)
read_from-Ends request (ok [] ∷ reads) enough fits =
    if-Ends (leb (length request) largest) _ _ (λ h. inl refl) (λ h. tt)
read_from-Ends request (ok (b ∷ bytes) ∷ reads) enough (fits, others) =
    let size = length-append request (b ∷ bytes) in
    let later = read_from-Ends (request ++ b ∷ bytes) reads (omega (arith, size, enough)) others in
    if-Ends (leb (length request) largest) _ _
      (λ h.
        if-Ends (is_complete (request ++ b ∷ bytes)) _ _
          (λ e. inr (e, ground (arith, h, size, fits))) (λ e. later))
      (λ h. tt)

-- Of any 8193 reads, each of at most 1024 bytes, one ends the reading of a request: with an error, at the
-- end of the connection, or with at most 9216 bytes in which an empty line ends the head.
pub read_request-Ends :
    (reads : List (Result IoError (List ℕ)))
    → largest < length reads
    → All Fits reads
    → Ends (read_request reads)
unfolding read_request
read_request-Ends reads enough fits = read_from-Ends [] reads (omega (arith, enough)) fits
