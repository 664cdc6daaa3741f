-- ===== src/Dispatch/Runs.antt =====
-- Invariants of a loop, and loops that do not end.
use sfo_reuseport.Prelude.{◌≡◌, refl, ap, ◌∙◌, List, [], ◌∷◌, All}
use sfo_reuseport.Dispatch.{Flow, next, stop, state_of, go_on, run}

module _ {S R : Type 0} (step : R → S → Flow S) (P : S → Type 0) where
  go_on-keeps :
      ((r : R) (s : S) → P s → P (state_of (step r s)))
      → (rs : List R) (f : Flow S) → P (state_of f)
      → P (state_of (go_on step rs f))
  unfolding go_on
  go_on-keeps keep rs (stop s) h = h
  go_on-keeps keep [] (next s) h = h
  go_on-keeps keep (r ∷ rs) (next s) h = go_on-keeps keep rs (step r s) (keep r s h)

  -- What each round keeps holds at the end of any number of rounds.
  pub run-keeps :
      ((r : R) (s : S) → P s → P (state_of (step r s)))
      → (rs : List R) (s : S) → P s
      → P (state_of (run step rs s))
  unfolding run
  run-keeps keep rs s h = go_on-keeps keep rs (next s) h

  -- A loop whose rounds all let it go on has not ended.
  pub run-next :
      (Good : R → Type 0)
      → ((r : R) (s : S) → Good r → P s → (t : S) × (step r s ≡ next t) × P t)
      → (rs : List R) (s : S) → All Good rs
      → P s
      → (t : S) × (run step rs s ≡ next t) × P t
  unfolding run go_on
  run-next Good keep [] s g h = (s, refl, h)
  run-next Good keep (r ∷ rs) s g h =
      let (t, e, p) = keep r s g.0 h in
      let (u, f, q) = run-next Good keep rs t g.1 p in (u, ap (go_on step rs) e ∙ f, q)
