-- ===== src/Examples/HyperStatic/Request/Tests.antt =====
-- Requests in one read and in several.
use sfo_reuseport.Prelude.{
  ℕ, ◌≡◌, refl, List, [], ◌∷◌, none, some, replicate, length-replicate, All-replicate, arith,
}
use sfo_reuseport.Error.{IoError, Result, ok}
use sfo_reuseport.Examples.HyperStatic.Request.{read_request}
use sfo_reuseport.Examples.HyperStatic.Request.Laws.{Fits, Ends, read_request-Ends}

-- The empty line may be split over two reads.
split_head :
    read_request (ok (71 ∷ 13 ∷ 10 ∷ []) ∷ ok (13 ∷ 10 ∷ 7 ∷ []) ∷ [])
    ≡ some (ok (71 ∷ 13 ∷ 10 ∷ 13 ∷ 10 ∷ 7 ∷ []))
unfolding read_request
split_head = refl

waiting : read_request (ok (71 ∷ []) ∷ []) ≡ none
unfolding read_request
waiting = refl

-- A client that sends one byte at a time and never ends its head.
abbrev slowly : ℕ → List (Result IoError (List ℕ))
slowly n = replicate n (ok (71 ∷ []))

read_request-Ends_example : Ends (read_request (slowly 8193))
read_request-Ends_example =
    read_request-Ends (slowly 8193)
      (rw (length-replicate {A = Result IoError (List ℕ)} 8193 (ok (71 ∷ []))) (omega arith))
      (All-replicate Fits 8193 (ok (71 ∷ [])) (omega arith))
