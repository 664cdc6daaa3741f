-- ===== src/System/Script.antt =====
-- Scripts: which calls a function makes, in which order, and which of them must succeed; and how a
-- run of calls follows a script, to its end or to the failure that ends it.
use mathlib.Core.List.{append_assoc, append-nil}
use sfo_reuseport.Prelude.{◌≡◌, refl, ap, sym, ◌∙◌, List, [], ◌∷◌, ◌++◌}
use sfo_reuseport.Error.{Error, Result, ok, err, map_err}
use sfo_reuseport.System.{
  Call, Reply, Failure, failed, Event, event, Oracle, World, Action, pure, raise, ask, attempt,
  continue, ◌>>=◌, ◌>>◌, logged,
}

-- A call that must succeed; a call whose answer is dropped; an
-- error without a call.
pub data Step (F J : Type 0) : Type 0 where
  must : Call F J → Step F J
  may : Call F J → Step F J
  refuse : Error → Step F J

-- The calls followed the whole script: every call was made, in order, and those that must succeed
-- did.
pub data Matches {F J : Type 0} : List (Step F J) → List (Event F J) → Type 0 where
  finished : Matches [] []
  met :
      {c : Call F J} {l : List (Step F J)} {es : List (Event F J)} (v : Reply c)
      → Matches l es
      → Matches (must c ∷ l) (event c (ok v) ∷ es)
  tried :
      {c : Call F J} {l : List (Step F J)} {es : List (Event F J)}
      (r : Result (Failure c) (Reply c))
      → Matches l es
      → Matches (may c ∷ l) (event c r ∷ es)

-- The calls followed the script up to a step that fails with this error, which is the last.
pub data Fails {F J : Type 0} : List (Step F J) → List (Event F J) → Error → Type 0 where
  unmet :
      {c : Call F J} {l : List (Step F J)} (e : Failure c)
      → Fails (must c ∷ l) (event c (err e) ∷ []) (failed c e)
  refused : {e : Error} {l : List (Step F J)} → Fails (refuse e ∷ l) [] e
  after_met :
      {c : Call F J} {l : List (Step F J)} {es : List (Event F J)} {e : Error} (v : Reply c)
      → Fails l es e
      → Fails (must c ∷ l) (event c (ok v) ∷ es) e
  after_tried :
      {c : Call F J} {l : List (Step F J)} {es : List (Event F J)} {e : Error}
      (r : Result (Failure c) (Reply c))
      → Fails l es e
      → Fails (may c ∷ l) (event c r ∷ es) e

-- No property: a value is left open.
abbrev pub Any : {A : Type 0} → A → Type 0
Any a = Unit

abbrev pub Outcome :
    {F J A : Type 0} → List (Step F J) → (A → Type 0) → List (Event F J) → Result Error A → Type 0
Outcome l P es (ok a) = Matches l es × P a
Outcome l P es (err e) = Fails l es e

module _ {F J : Type 0} where
  Matches-append :
      {l k : List (Step F J)} {es fs : List (Event F J)}
      → Matches l es
      → Matches k fs
      → Matches (l ++ k) (es ++ fs)
  Matches-append finished n = n
  Matches-append (met v m) n = met v (Matches-append m n)
  Matches-append (tried r m) n = tried r (Matches-append m n)

  Fails-later :
      {l k : List (Step F J)} {es fs : List (Event F J)} {e : Error}
      → Matches l es
      → Fails k fs e
      → Fails (l ++ k) (es ++ fs) e
  Fails-later finished n = n
  Fails-later (met v m) n = after_met v (Fails-later m n)
  Fails-later (tried r m) n = after_tried r (Fails-later m n)

  Fails-first :
      {l : List (Step F J)} (k : List (Step F J)) {es : List (Event F J)} {e : Error}
      → Fails l es e
      → Fails (l ++ k) es e
  Fails-first k (unmet e) = unmet e
  Fails-first k refused = refused
  Fails-first k (after_met v m) = after_met v (Fails-first k m)
  Fails-first k (after_tried r m) = after_tried r (Fails-first k m)

  outcome_after :
      {B : Type 0} (l k : List (Step F J)) (Q : B → Type 0) (es fs : List (Event F J))
      (r : Result Error B)
      → Matches l es
      → Outcome k Q fs r
      → Outcome (l ++ k) Q (es ++ fs) r
  outcome_after l k Q es fs (ok b) m (n, q) = (Matches-append m n, q)
  outcome_after l k Q es fs (err e) m n = Fails-later m n

module _ {F J S : Type 0} where
  -- From a world to a result: the calls made since follow the script, the state is as before, and
  -- the property holds of a value returned.
  pub record Ran {A : Type 0} (l : List (Step F J)) (P : A → Type 0) (w : World F J S)
      (r : Result Error A × World F J S) : Type 0 where
    pub calls : List (Event F J)
    pub are_logged : r.1.log ≡ w.log ++ calls
    pub outcome : Outcome l P calls r.0
    pub same_state : r.1.state ≡ w.state

  abbrev pub Follows : {A : Type 0} → Action F J S A → List (Step F J) → (A → Type 0) → Type 0
  Follows m l P = (w : World F J S) → Ran l P w (m w)

  pub pure-Follows : {A : Type 0} (a : A) → Follows (pure a) [] (λ b. b ≡ a)
  pure-Follows a w = record {
    calls = [];
    are_logged = sym (append-nil w.log);
    outcome = (finished, refl);
    same_state = refl;
  }

  pub skip-Follows : Follows {A = Unit} (pure tt) [] Any
  skip-Follows w = record {
    calls = [];
    are_logged = sym (append-nil w.log);
    outcome = (finished, tt);
    same_state = refl;
  }

  pub raise-Follows : {A : Type 0} (e : Error) → Follows {A = A} (raise e) (refuse e ∷ []) Any
  raise-Follows e w = record {
    calls = [];
    are_logged = sym (append-nil w.log);
    outcome = refused;
    same_state = refl;
  }

  continue-Ran :
      {A B : Type 0} (l k : List (Step F J)) (P : A → Type 0) (Q : B → Type 0) (w : World F J S)
      (r : Result Error A × World F J S) (f : A → Action F J S B)
      → Ran l P w r
      → ((a : A) → P a → Follows (f a) k Q)
      → Ran (l ++ k) Q w (continue f r)
  continue-Ran l k P Q w (ok a, v) f first second =
      let rest = second a first.outcome.1 v in
      record {
        calls = first.calls ++ rest.calls;
        are_logged =
            rest.are_logged
            ∙ ap (λ x. x ++ rest.calls) first.are_logged
            ∙ append_assoc w.log first.calls rest.calls;
        outcome = outcome_after l k Q first.calls rest.calls (f a v).0 first.outcome.0 rest.outcome;
        same_state = rest.same_state ∙ first.same_state;
      }
  continue-Ran l k P Q w (err e, v) f first second = record {
    calls = first.calls;
    are_logged = first.are_logged;
    outcome = Fails-first k first.outcome;
    same_state = first.same_state;
  }

  -- One function after another follows one script after the other.
  pub bind-Follows :
      {A B : Type 0} {l k : List (Step F J)} {P : A → Type 0} {Q : B → Type 0} {m : Action F J S A}
      {f : A → Action F J S B}
      → Follows m l P
      → ((a : A) → P a → Follows (f a) k Q)
      → Follows (m >>= f) (l ++ k) Q
  bind-Follows {l = l} {k = k} {P = P} {Q = Q} {m = m} {f = f} first second w =
      continue-Ran l k P Q w (m w) f (first w) second

  pub then-Follows :
      {A B : Type 0} {l k : List (Step F J)} {P : A → Type 0} {Q : B → Type 0} {m : Action F J S A}
      {n : Action F J S B}
      → Follows m l P
      → Follows n k Q
      → Follows (m >> n) (l ++ k) Q
  then-Follows {m = m} first second = bind-Follows {m = m} first (λ _ _. second)

  module _ (system : Oracle F J) where
    answered :
        (c : Call F J) (r : Result (Failure c) (Reply c)) (w : World F J S)
        → Ran (must c ∷ []) Any w (map_err (failed c) r, logged c r w)
    answered c (ok v) w = record {
      calls = event c (ok v) ∷ [];
      are_logged = refl;
      outcome = (met v finished, tt);
      same_state = refl;
    }
    answered c (err e) w = record {
      calls = event c (err e) ∷ [];
      are_logged = refl;
      outcome = unmet e;
      same_state = refl;
    }

    pub ask-Follows : (c : Call F J) → Follows (ask system c) (must c ∷ []) Any
    ask-Follows c w = answered c (system w.log c) w

    pub attempt-Follows : (c : Call F J) → Follows (attempt system c) (may c ∷ []) Any
    attempt-Follows c w = record {
      calls = event c (system w.log c) ∷ [];
      are_logged = refl;
      outcome = (tried (system w.log c) finished, tt);
      same_state = refl;
    }
