-- ===== src/Dispatch/Progress.antt =====
-- The routers that a loop starts with, and the offers after which a loop goes on.
use mathlib.Core.Path.{subst}
use sfo_reuseport.Prelude.{
  ℕ, zero, suc, ◌<◌, ◌≡◌, refl, sym, ap, ◌∙◌, true, List, [], Option, none, some, get_elem?,
  replicate, All, All-replicate, All-get_elem?, length-replicate, get_elem?-lt, arith,
}
use sfo_reuseport.Concurrency.{WorkerConcurrencyLimit, ConcurrencyPermit, new, try_acquire}
use sfo_reuseport.Dispatch.{
  Flow, next, state_of, worker_limits, Router, send_with, admit, offer_at, offer,
}
use sfo_reuseport.Dispatch.Laws.{IsBounded, Fits, SentTo, offer-Fits}

new-IsBounded : (max : Option ℕ) → IsBounded (new max)
unfolding new
new-IsBounded none = tt
new-IsBounded (some zero) = ground arith
new-IsBounded (some (suc m)) = ground arith

module _ {A : Type 0} (n : ℕ) (max : Option ℕ) where
  -- The router of `n` workers before the first round.
  abbrev pub start : Router A
  start = record { limits = worker_limits n max; sent = replicate n [] }

module _ (A : Type 0) (n : ℕ) (max : Option ℕ) where
  pub start-Fits : Fits {A = A} n (start n max)
  unfolding worker_limits
  start-Fits = (
    length-replicate n (new max),
    length-replicate n [],
    All-replicate IsBounded n (new max) (new-IsBounded max),
  )

  pub start-SentTo : (P : ℕ → A → Type 0) → SentTo P (start n max)
  start-SentTo P w queue e =
      All-get_elem? (All (λ i. P w i.0)) (replicate n []) w queue
        (All-replicate (All (λ i. P w i.0)) n [] tt) e

module _ {A : Type 0} where
  abbrev pub GoesOn : Flow (Router A) → Type 0
  GoesOn f = (t : Router A) × (f ≡ next t)

  admit-GoesOn :
      (w : ℕ) (item : A) (t : WorkerConcurrencyLimit × Option ConcurrencyPermit) (r : Router A)
      (queue : List (A × ConcurrencyPermit))
      → get_elem? r.sent w ≡ some queue
      → GoesOn (admit w item true t r)
  unfolding admit send_with
  admit-GoesOn w item (l, none) r queue e = (r, refl)
  admit-GoesOn w item (l, some p) r queue e = (_, ap (λ o. send_with w item true l p o r) e)

  -- Offered to one of the workers with its channel open, an item does not end the loop.
  pub offer-next :
      (n w : ℕ) (item : A) (r : Router A)
      → Fits n r
      → w < n
      → (t : Router A) × (offer w item true r ≡ next t) × Fits n t
  unfolding offer offer_at
  offer-next n w item r h b =
      let (l, el) = get_elem?-lt r.limits w (subst (λ m. w < m) (sym h.0) b) in
      let (q, eq) = get_elem?-lt r.sent w (subst (λ m. w < m) (sym h.1) b) in
      let (t, g) = admit-GoesOn w item (try_acquire l) r q eq in
      let e : offer w item true r ≡ next t = ap (λ o. offer_at w item true o r) el ∙ g in
      (t, e, subst (λ f. Fits n (state_of f)) e (offer-Fits n w item true r h))
