-- ===== src/Dispatch/Laws.antt =====
-- What an offer keeps, and when it succeeds.
use mathlib.Core.Path.{subst}
use sfo_reuseport.Prelude.{
  ℕ, ◌≤◌, ◌≡◌, refl, sym, ◌∙◌, ap, inl, inr, Bool, true, false, List, [], ◌∷◌, ◌++◌, Option, none,
  some, if◌then◌else◌, length, get_elem?, All, All-set, All-append, All-get_elem?, length-set,
  get_elem?-set_cases, arith,
}
use sfo_reuseport.Concurrency.{
  WorkerConcurrencyLimit, ConcurrencyPermit, counted, uncounted, try_acquire, release,
}
use sfo_reuseport.Dispatch.{
  Flags, is_active, while_active, Flow, stop, state_of, Router, finish_at, finish_all, send_with,
  admit, offer_at, offer,
}

-- The counter of a limit is at most its maximum.
abbrev pub IsBounded : WorkerConcurrencyLimit → Type 0
IsBounded none = Unit
IsBounded (some s) = s.active ≤ s.max

-- A router of `n` workers within their limits.
abbrev pub Fits : {A : Type 0} → ℕ → Router A → Type 0
Fits n r = (length r.limits ≡ n) × (length r.sent ≡ n) × All IsBounded r.limits

-- What was sent to a worker has the property `P` for that worker.
abbrev pub SentTo : {A : Type 0} → (ℕ → A → Type 0) → Router A → Type 0
SentTo {A} P r =
    (w : ℕ) (queue : List (A × ConcurrencyPermit))
    → get_elem? r.sent w ≡ some queue
    → All (λ e. P w e.0) queue

release-IsBounded :
    (p : ConcurrencyPermit) (l : WorkerConcurrencyLimit) → IsBounded l → IsBounded (release p l)
unfolding release
release-IsBounded uncounted l h = h
release-IsBounded counted none h = h
release-IsBounded counted (some s) h = ground arith

try_acquire-IsBounded : (l : WorkerConcurrencyLimit) → IsBounded l → IsBounded (try_acquire l).0
unfolding try_acquire
try_acquire-IsBounded none h = h
try_acquire-IsBounded (some s) h = ground arith

finish_at-sent :
    {A : Type 0} (w : ℕ) (o : Option WorkerConcurrencyLimit) (r : Router A)
    → (finish_at w o r).sent ≡ r.sent
unfolding finish_at
finish_at-sent w none r = refl
finish_at-sent w (some l) r = refl

module _ {A : Type 0} (n : ℕ) where
  finish_at-Fits :
      (w : ℕ) (o : Option WorkerConcurrencyLimit) (r : Router A)
      → get_elem? r.limits w ≡ o
      → Fits n r
      → Fits n (finish_at w o r)
  unfolding finish_at
  finish_at-Fits w none r e h = h
  finish_at-Fits w (some l) r e h = (
    length-set r.limits w _ ∙ h.0,
    h.1,
    All-set IsBounded r.limits w _ h.2
        (release-IsBounded counted l (All-get_elem? IsBounded r.limits w l h.2 e)),
  )

  pub finish_all-Fits : (ws : List ℕ) (r : Router A) → Fits n r → Fits n (finish_all ws r)
  unfolding finish_all
  finish_all-Fits [] r h = h
  finish_all-Fits (w ∷ ws) r h = finish_all-Fits ws _ (finish_at-Fits w _ r refl h)

  send_with-Fits :
      (w : ℕ) (item : A) (open_ : Bool) (l : WorkerConcurrencyLimit) (p : ConcurrencyPermit)
      (o : Option (List (A × ConcurrencyPermit))) (r : Router A)
      → IsBounded l
      → Fits n r
      → Fits n (state_of (send_with w item open_ l p o r))
  unfolding send_with
  send_with-Fits w item true l p (some queue) r b h = (
    length-set r.limits w l ∙ h.0,
    length-set r.sent w _ ∙ h.1,
    All-set IsBounded r.limits w l h.2 b,
  )
  send_with-Fits w item true l p none r b h = (
    length-set r.limits w _ ∙ h.0,
    h.1,
    All-set IsBounded r.limits w _ h.2 (release-IsBounded p l b),
  )
  send_with-Fits w item false l p o r b h = (
    length-set r.limits w _ ∙ h.0,
    h.1,
    All-set IsBounded r.limits w _ h.2 (release-IsBounded p l b),
  )

  admit-Fits :
      (w : ℕ) (item : A) (open_ : Bool) (t : WorkerConcurrencyLimit × Option ConcurrencyPermit)
      (r : Router A)
      → IsBounded t.0
      → Fits n r
      → Fits n (state_of (admit w item open_ t r))
  unfolding admit
  admit-Fits w item open_ (l, none) r b h = h
  admit-Fits w item open_ (l, some p) r b h = send_with-Fits w item open_ l p _ r b h

  offer_at-Fits :
      (w : ℕ) (item : A) (open_ : Bool) (o : Option WorkerConcurrencyLimit) (r : Router A)
      → get_elem? r.limits w ≡ o
      → Fits n r
      → Fits n (state_of (offer_at w item open_ o r))
  unfolding offer_at
  offer_at-Fits w item open_ none r e h = h
  offer_at-Fits w item open_ (some l) r e h =
      admit-Fits w item open_ _ r
        (try_acquire-IsBounded l (All-get_elem? IsBounded r.limits w l h.2 e)) h

  pub offer-Fits :
      (w : ℕ) (item : A) (open_ : Bool) (r : Router A)
      → Fits n r
      → Fits n (state_of (offer w item open_ r))
  unfolding offer
  offer-Fits w item open_ r h = offer_at-Fits w item open_ _ r refl h

module _ {A : Type 0} (P : ℕ → A → Type 0) where
  pub finish_all-SentTo : (ws : List ℕ) (r : Router A) → SentTo P r → SentTo P (finish_all ws r)
  unfolding finish_all finish_at
  finish_all-SentTo [] r h = h
  finish_all-SentTo (w ∷ ws) r h =
      finish_all-SentTo ws _
        (subst (λ s. SentTo P (record r { sent = s })) (sym (finish_at-sent w _ r)) h)

  send_with-SentTo :
      (w : ℕ) (item : A) (open_ : Bool) (l : WorkerConcurrencyLimit) (p : ConcurrencyPermit)
      (o : Option (List (A × ConcurrencyPermit))) (r : Router A)
      → P w item
      → get_elem? r.sent w ≡ o
      → SentTo P r
      → SentTo P (state_of (send_with w item open_ l p o r))
  unfolding send_with
  send_with-SentTo w item true l p (some queue) r i e h v q g =
      elim (get_elem?-set_cases r.sent w v (queue ++ (item, p) ∷ []) q g) [
        | inl (s, t) ↦
            subst (λ u. All (λ x. P u x.0) q) s
              (subst (All (λ x. P w x.0)) t
                (All-append (λ x. P w x.0) queue _ (h w queue e) (i, tt)))
        | inr (s, t) ↦ h v q t
      ]
  send_with-SentTo w item false l p o r i e h v q g = h v q g
  send_with-SentTo w item true l p none r i e h v q g = h v q g

  admit-SentTo :
      (w : ℕ) (item : A) (open_ : Bool) (t : WorkerConcurrencyLimit × Option ConcurrencyPermit)
      (r : Router A)
      → P w item
      → SentTo P r
      → SentTo P (state_of (admit w item open_ t r))
  unfolding admit
  admit-SentTo w item open_ (l, none) r i h = h
  admit-SentTo w item open_ (l, some p) r i h = send_with-SentTo w item open_ l p _ r i refl h

  offer_at-SentTo :
      (w : ℕ) (item : A) (open_ : Bool) (o : Option WorkerConcurrencyLimit) (r : Router A)
      → P w item
      → SentTo P r
      → SentTo P (state_of (offer_at w item open_ o r))
  unfolding offer_at
  offer_at-SentTo w item open_ none r i h = h
  offer_at-SentTo w item open_ (some l) r i h = admit-SentTo w item open_ _ r i h

  pub offer-SentTo :
      (w : ℕ) (item : A) (open_ : Bool) (r : Router A)
      → P w item
      → SentTo P r
      → SentTo P (state_of (offer w item open_ r))
  unfolding offer
  offer-SentTo w item open_ r i h = offer_at-SentTo w item open_ (get_elem? r.limits w) r i h

-- What holds of the ended loop and of the rest of a round holds where the flags decide.
pub while_active_cases :
    {S : Type 0} (P : Flow S → Type 0) (f : Flags) (s : S) (rest : Flow S)
    → P (stop s)
    → P rest
    → P (while_active f s rest)
unfolding while_active
while_active_cases P f s rest hs hr = elim (is_active f) as (λ b. P (if b then rest else stop s)) [
  | true ↦ hr
  | false ↦ hs
]

pub while_active_set :
    {S : Type 0} (f : Flags) (s : S) (rest : Flow S)
    → is_active f ≡ true
    → while_active f s rest ≡ rest
unfolding while_active
while_active_set f s rest e = ap (λ b. if b then rest else stop s) e
