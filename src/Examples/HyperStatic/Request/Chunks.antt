-- ===== src/Examples/HyperStatic/Request/Chunks.antt =====
-- A request is read whole in whatever pieces it arrives.
use sfo_reuseport.Prelude.{
  ℕ, ◌≤◌, ◌≡◌, refl, ◌||◌, Bool, true, false, le→leb, List, [], ◌∷◌, ◌++◌, map, some, length,
  length-append, is_empty, All, arith,
}
use sfo_reuseport.Error.{IoError, Result, ok}
use sfo_reuseport.Examples.HyperStatic.Request.{largest, ends_head, is_complete, read_from}

-- What has been read after these pieces.
unfoldable pub all_read : List ℕ → List (List ℕ) → List ℕ
all_read request [] = request
all_read request (piece ∷ pieces) = all_read (request ++ piece) pieces

abbrev pub IsPiece : List ℕ → Type 0
IsPiece piece = is_empty piece ≡ false

abbrev pub reads : List (List ℕ) → List (Result IoError (List ℕ))
reads pieces = map ok pieces

or-false : (a b : Bool) → (a || b) ≡ false → (a ≡ false) × (b ≡ false)
or-false true b h = cc
or-false false b h = (refl, h)

ends_head-append : (xs ys : List ℕ) → ends_head (xs ++ ys) ≡ false → ends_head xs ≡ false
ends_head-append [] ys h = refl
ends_head-append (a ∷ []) ys h = refl
ends_head-append (a ∷ b ∷ []) ys h = refl
ends_head-append (a ∷ b ∷ c ∷ []) ys h = refl
ends_head-append (a ∷ b ∷ c ∷ d ∷ xs) ys h = h

is_complete-append : (xs ys : List ℕ) → is_complete (xs ++ ys) ≡ false → is_complete xs ≡ false
unfolding is_complete
is_complete-append [] ys h = refl
is_complete-append (x ∷ xs) ys h =
    let (here, later) = or-false (ends_head (x ∷ xs ++ ys)) (is_complete (xs ++ ys)) h in
    rw (ends_head-append (x ∷ xs) ys here) (is_complete-append xs ys later)

all_read-incomplete :
    (request : List ℕ) (pieces : List (List ℕ))
    → is_complete (all_read request pieces) ≡ false
    → is_complete request ≡ false
unfolding all_read
all_read-incomplete request [] h = h
all_read-incomplete request (piece ∷ pieces) h =
    is_complete-append request piece (all_read-incomplete (request ++ piece) pieces h)

all_read-length :
    (request : List ℕ) (pieces : List (List ℕ)) → length request ≤ length (all_read request pieces)
unfolding all_read
all_read-length request [] = omega arith
all_read-length request (piece ∷ pieces) =
    let whole = length-append request piece in
    let rest = all_read-length (request ++ piece) pieces in omega (arith, whole, rest)

-- A request whose head ends in its last piece is read whole.
pub read_from-pieces :
    (request : List ℕ) (pieces : List (List ℕ)) (last : List ℕ)
    → All IsPiece pieces
    → IsPiece last
    → is_complete (all_read request pieces) ≡ false
    → is_complete (all_read request pieces ++ last) ≡ true
    → length (all_read request pieces) ≤ largest
    → read_from request (reads (pieces ++ last ∷ [])) ≡ some (ok (all_read request pieces ++ last))
unfolding read_from all_read
read_from-pieces request [] [] all one incomplete complete short = cc
read_from-pieces request [] (b ∷ bytes) all one incomplete complete short =
    rw (le→leb (length request) largest short, complete) refl
read_from-pieces request ([] ∷ pieces) last (p, all) one incomplete complete short = cc
read_from-pieces request ((b ∷ bytes) ∷ pieces) last (p, all) one incomplete complete short =
    let grows = all_read-length request ((b ∷ bytes) ∷ pieces) in
    rw
      (
        le→leb (length request) largest (omega (arith, grows, short)),
        all_read-incomplete (request ++ b ∷ bytes) pieces incomplete,
      )
      (read_from-pieces (request ++ b ∷ bytes) pieces last all one incomplete complete short)
