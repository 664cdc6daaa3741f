-- ===== src/Dispatch/Rounds.antt =====
-- What the rounds of the three loops keep, and the rounds after which a loop goes on.
use sfo_reuseport.Prelude.{ℕ, ◌≡◌, refl, Bool, true, List, Option, none, some}
use sfo_reuseport.Dispatch.{is_active, Round, next, state_of, Router, finish_all, offer}
use sfo_reuseport.Dispatch.Laws.{
  Fits, SentTo, finish_all-Fits, finish_all-SentTo, offer-Fits, offer-SentTo,
}
use sfo_reuseport.Dispatch.Progress.{start, start-Fits, start-SentTo, offer-next}
use sfo_reuseport.Dispatch.Delivery.{forward, Below}

-- A router of `n` workers within their limits, all of whose items have the property `P` for the
-- worker that they were sent to.
abbrev pub Safe : {A : Type 0} → (ℕ → A → Type 0) → ℕ → Router A → Type 0
Safe P n r = Fits n r × SentTo P r

-- A round that finds the flags set and the channels open. The socket may answer with an error.
abbrev pub RoundIsActive : {T : Type 0} → Round T → Type 0
RoundIsActive r = (is_active r.at_head ≡ true) × (is_active r.after ≡ true) × (r.open_ ≡ true)

module _ {A : Type 0} (P : ℕ → A → Type 0) (n : ℕ) where
  pub start-Safe : (max : Option ℕ) → Safe P n (start n max)
  start-Safe max = (start-Fits A n max, start-SentTo A n max P)

  pub offer-Safe :
      (w : ℕ) (item : A) (open_ : Bool) (ws : List ℕ) (r : Router A)
      → P w item
      → Safe P n r
      → Safe P n (state_of (offer w item open_ (finish_all ws r)))
  offer-Safe w item open_ ws r i h = (
    offer-Fits n w item open_ _ (finish_all-Fits n ws r h.0),
    offer-SentTo P w item open_ _ i (finish_all-SentTo P ws r h.1),
  )

pub forward-next :
    {A : Type 0} (n : ℕ) (o : Option (ℕ × A)) (ws : List ℕ) (r : Router A)
    → Below n o
    → Fits n r
    → (t : Router A) × (forward n o ws r ≡ next t) × Fits n t
forward-next n none ws r b h = (r, refl, h)
forward-next n (some (w, item)) ws r b h = offer-next n w item _ (finish_all-Fits n ws r h) b
