-- ===== src/Dispatch/Delivery.antt =====
-- A loop without limits delivers every item, once, in order, to the worker that it selects.
use mathlib.Core.Path.{subst}
use native.Mathlib.Decide.{ℕ_discrete}
use mathlib.Core.Option.{some-injective}
use mathlib.Core.List.{append-nil, append_assoc}
use sfo_reuseport.Prelude.{
  ℕ, ◌<◌, ◌≡◌, refl, sym, ap, ◌∙◌, true, List, [], ◌∷◌, ◌++◌, map, Option, none, some, ◌==◌, ==_iff,
  ne→==, get_elem?, set, replicate, All, set_same, get_elem?-replicate, get_elem?-set_same,
  get_elem?-set_other, get_elem?-lt, get_elem?-some_lt, length, length-set, All-replicate,
  All-get_elem?, length-replicate, if◌then◌else◌, arith,
}
use sfo_reuseport.Concurrency.{
  WorkerConcurrencyLimit, ConcurrencyPermit, uncounted, new, try_acquire, release,
}
use sfo_reuseport.Dispatch.{
  Flow, next, state_of, worker_limits, Router, finish_at, finish_all, send_with, admit, offer_at,
  offer, go_on, run,
}
use sfo_reuseport.Dispatch.Progress.{start}

-- What a round that selects worker `w` for an item adds to worker `v`.
abbrev pub picked : {A : Type 0} → ℕ → Option (ℕ × A) → List A
picked v none = []
picked v (some (w, item)) = if w == v then item ∷ [] else []

-- What the rounds that select by `dest` add to worker `v`.
abbrev pub delivered : {A R : Type 0} → (R → Option (ℕ × A)) → ℕ → List R → List A
delivered dest v [] = []
delivered dest v (r ∷ rs) = picked v (dest r) ++ delivered dest v rs

abbrev pub unlimited : {A : Type 0} → ℕ → List (List (A × ConcurrencyPermit)) → Router A
unlimited n queues = record { limits = replicate n none; sent = queues }

abbrev pub free : {A : Type 0} → List A → List (A × ConcurrencyPermit)
free items = map (λ i. (i, uncounted)) items

module _ {A : Type 0} (n : ℕ) where
  finish_at-unlimited :
      (w : ℕ) (o : Option WorkerConcurrencyLimit) (queues : List (List (A × ConcurrencyPermit)))
      → get_elem? (replicate n none) w ≡ o
      → finish_at w o (unlimited n queues) ≡ unlimited n queues
  unfolding finish_at release
  finish_at-unlimited w none queues e = refl
  finish_at-unlimited w (some none) queues e =
      ap (λ l. record { limits = l; sent = queues }) (set_same _ w none e)
  finish_at-unlimited w (some (some s)) queues e = absurd (
      ground (
        arith,
        All-get_elem? (λ l. l ≡ none) (replicate n none) w (some s)
            (All-replicate (λ l. l ≡ none) n none refl) e,
      ))

  finish_all-unlimited :
      (ws : List ℕ) (queues : List (List (A × ConcurrencyPermit)))
      → finish_all ws (unlimited n queues) ≡ unlimited n queues
  unfolding finish_all
  finish_all-unlimited [] queues = refl
  finish_all-unlimited (w ∷ ws) queues =
      ap (finish_all ws) (finish_at-unlimited w _ queues refl) ∙ finish_all-unlimited ws queues

  offer-unlimited :
      (w : ℕ) (item : A) (queues : List (List (A × ConcurrencyPermit)))
      (queue : List (A × ConcurrencyPermit))
      → w < n
      → get_elem? queues w ≡ some queue
      → offer w item true (unlimited n queues)
        ≡ next (unlimited n (set queues w (queue ++ (item, uncounted) ∷ [])))
  unfolding offer offer_at admit send_with try_acquire
  offer-unlimited w item queues queue b e =
      ap (λ o. offer_at w item true o (unlimited n queues)) (get_elem?-replicate n w none b)
      ∙ ap (λ o. send_with w item true none uncounted o (unlimited n queues)) e
      ∙ ap
          (λ l. next (record { limits = l; sent = set queues w (queue ++ (item, uncounted) ∷ []) }))
          (set_same (replicate n none) w none (get_elem?-replicate n w none b))

  -- What a round does with the worker and the item that it selects.
  abbrev pub forward : Option (ℕ × A) → List ℕ → Router A → Flow (Router A)
  forward none ws s = next s
  forward (some (w, item)) ws s = offer w item true (finish_all ws s)

  abbrev pub Below : Option (ℕ × A) → Type 0
  Below none = Unit
  Below (some (w, item)) = w < n

  set-picked_same :
      (w : ℕ) (item : A) (queues : List (List (A × ConcurrencyPermit)))
      (queue : List (A × ConcurrencyPermit))
      → get_elem? queues w ≡ some queue
      → get_elem? (set queues w (queue ++ (item, uncounted) ∷ [])) w
        ≡ some (queue ++ free (picked w (some (w, item))))
  set-picked_same w item queues queue e =
      get_elem?-set_same queues w _ (get_elem?-some_lt queues w queue e)
      ∙ ap (λ b. some (queue ++ free (if b then item ∷ [] else []))) (sym ((==_iff w w).1 refl))

  set-picked :
      (w v : ℕ) (item : A) (queues : List (List (A × ConcurrencyPermit)))
      (qw queue : List (A × ConcurrencyPermit))
      → get_elem? queues w ≡ some qw
      → get_elem? queues v ≡ some queue
      → get_elem? (set queues w (qw ++ (item, uncounted) ∷ [])) v
        ≡ some (queue ++ free (picked v (some (w, item))))
  set-picked w v item queues qw queue ew ev = elim (ℕ_discrete w v) [
    | yes e ↦
        let same = some-injective _ _ (sym ev ∙ ap (get_elem? queues) (sym e) ∙ ew) in
        subst
          (λ u.
            get_elem? (set queues w (qw ++ (item, uncounted) ∷ [])) u
            ≡ some (queue ++ free (picked u (some (w, item)))))
          e
          (subst
            (λ q.
              get_elem? (set queues w (qw ++ (item, uncounted) ∷ [])) w
              ≡ some (q ++ free (picked w (some (w, item)))))
            (sym same) (set-picked_same w item queues qw ew))
    | no e ↦
        get_elem?-set_other queues w v _ e
        ∙ ev
        ∙ ap some (sym (append-nil queue))
        ∙ ap (λ b. some (queue ++ free (if b then item ∷ [] else []))) (sym (ne→== w v e))
  ]

  forward-unlimited :
      (o : Option (ℕ × A)) (ws : List ℕ) (queues : List (List (A × ConcurrencyPermit))) (v : ℕ)
      (queue : List (A × ConcurrencyPermit))
      → Below o
      → length queues ≡ n
      → get_elem? queues v ≡ some queue
      → (qs : List (List (A × ConcurrencyPermit))) × (forward o ws (unlimited n queues)
          ≡ next (unlimited n qs))
        × (length qs ≡ n)
        × (get_elem? qs v ≡ some (queue ++ free (picked v o)))
  forward-unlimited none ws queues v queue b l e =
      (queues, refl, l, e ∙ ap some (sym (append-nil queue)))
  forward-unlimited (some (w, item)) ws queues v queue b l e =
      let (qw, ew) = get_elem?-lt queues w (subst (λ m. w < m) (sym l) b) in
      (
        set queues w (qw ++ (item, uncounted) ∷ []),
        ap (offer w item true) (finish_all-unlimited ws queues)
            ∙ offer-unlimited w item queues qw b ew,
        length-set queues w _ ∙ l,
        set-picked w v item queues qw queue ew e,
      )

free-append : {A : Type 0} (xs ys : List A) → free (xs ++ ys) ≡ free xs ++ free ys
free-append [] ys = refl
free-append (x ∷ xs) ys = ap (λ l. (x, uncounted) ∷ l) (free-append xs ys)

module _ {A R : Type 0} (n : ℕ) (step : R → Router A → Flow (Router A)) (dest : R → Option (ℕ × A))
    (ended : R → List ℕ) (Good : R → Type 0)
    (step_lem : (r : R) (s : Router A) → Good r → step r s ≡ forward n (dest r) (ended r) s)
    (dest-Below : (r : R) → Good r → Below n (dest r)) where
  go_on-delivered :
      (rs : List R) (queues : List (List (A × ConcurrencyPermit))) (v : ℕ)
      (queue : List (A × ConcurrencyPermit))
      → All Good rs
      → length queues ≡ n
      → get_elem? queues v ≡ some queue
      → get_elem? (state_of (go_on step rs (next (unlimited n queues)))).sent v
        ≡ some (queue ++ free (delivered dest v rs))
  unfolding go_on
  go_on-delivered [] queues v queue g l e = e ∙ ap some (sym (append-nil queue))
  go_on-delivered (r ∷ rs) queues v queue g l e =
      let (qs, f, l', e') =
        forward-unlimited n (dest r) (ended r) queues v queue (dest-Below r g.0) l e in
      ap (λ t. get_elem? (state_of (go_on step rs t)).sent v) (step_lem r _ g.0 ∙ f)
      ∙ go_on-delivered rs qs v _ g.1 l' e'
      ∙ ap some (append_assoc queue _ _)
      ∙ ap (λ t. some (queue ++ t)) (sym (free-append (picked v (dest r)) (delivered dest v rs)))

  pub run-delivered :
      (rs : List R) (v : ℕ)
      → All Good rs
      → v < n
      → get_elem? (state_of (run step rs (start n none))).sent v ≡ some (free (delivered dest v rs))
  unfolding run worker_limits new
  run-delivered rs v g b =
      go_on-delivered rs (replicate n []) v [] g (length-replicate n [])
        (get_elem?-replicate n v [] b)
