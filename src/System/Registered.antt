-- ===== src/System/Registered.antt =====
-- Functions that register each task that they spawn with the state of the server. `Holds s js` says
-- that the state `s` has registered the tasks `js`, in this order.
use mathlib.Core.List.{append_assoc, append-nil, append_cancel_left}
use mathlib.Core.Path.{subst}
use sfo_reuseport.Prelude.{ℕ, ◌+◌, ◌≡◌, ap, sym, ◌∙◌, List, [], ◌∷◌, ◌++◌, some, get_elem?, arith}
use sfo_reuseport.Error.{Error, Result, ok, err}
use sfo_reuseport.System.{Event, World, Action, raise, continue, ◌>>=◌}
use sfo_reuseport.System.Spawned.{Spawned, spawned, spawned-append}

-- A value returned, with the tasks spawned on the way, has the property.
abbrev pub Gives :
    {J A : Type 0} → (A → List (Spawned J) → Type 0) → List (Spawned J) → Result Error A → Type 0
Gives P js (ok a) = P a js
Gives P js (err e) = Unit

-- One task was spawned: this one, on the worker's executor.
pub record Given {J : Type 0} (workers : List ℕ) (id : ℕ) (job : J) (js : List (Spawned J))
    : Type 0 where
  pub executor : ℕ
  pub task : ℕ
  pub is_worker : get_elem? workers id ≡ some executor
  pub is_one : js ≡ record { executor = executor; job = job; task = task } ∷ []

-- One task was spawned for each element, on the executors of the workers from `id` on.
pub data Each {A J : Type 0} (workers : List ℕ) (job : ℕ → A → J)
    : ℕ → List A → List (Spawned J) → Type 0 where
  no_more : {id : ℕ} → Each workers job id [] []
  one_more :
      {id : ℕ} {x : A} {xs : List A} {js : List (Spawned J)} (executor task : ℕ)
      → get_elem? workers id ≡ some executor
      → Each workers job (id + 1) xs js
      → Each workers job id
          (x ∷ xs)
          (record { executor = executor; job = job id x; task = task } ∷ js)

-- From a world to a result: every task spawned since was registered, in order, and the property
-- holds of a value returned.
pub record Kept {F J S A : Type 0} (Holds : S → List (Spawned J) → Type 0)
    (P : A → List (Spawned J) → Type 0) (w : World F J S) (r : Result Error A × World F J S)
    : Type 0 where
  pub calls : List (Event F J)
  pub are_logged : r.1.log ≡ w.log ++ calls
  pub registered :
      (js : List (Spawned J)) → Holds w.state js → Holds r.1.state (js ++ spawned calls)
  pub value : Gives P (spawned calls) r.0

gives_after :
    {J A B : Type 0} (P : A → List (Spawned J) → Type 0) (Q : A → B → List (Spawned J) → Type 0)
    (R : B → List (Spawned J) → Type 0)
    (both : (a : A) (b : B) (js ks : List (Spawned J)) → P a js → Q a b ks → R b (js ++ ks)) (a : A)
    (js ks : List (Spawned J)) (r : Result Error B)
    → P a js
    → Gives (Q a) ks r
    → Gives R (js ++ ks) r
gives_after P Q R both a js ks (ok b) p q = both a b js ks p q
gives_after P Q R both a js ks (err e) p q = tt

weaken :
    {J A : Type 0} (P Q : A → List (Spawned J) → Type 0)
    (h : (a : A) (js : List (Spawned J)) → P a js → Q a js) (js : List (Spawned J))
    (r : Result Error A)
    → Gives P js r
    → Gives Q js r
weaken P Q h js (ok a) p = h a js p
weaken P Q h js (err e) p = tt

-- From a world to the result of setting a server up: the state is the one that has registered every
-- task spawned since, in order, whatever the result, and the property holds of the calls on success.
pub record Served {F J S : Type 0} (Holds : S → List (Spawned J) → Type 0)
    (P : List (Event F J) → Type 0) (w : World F J S) (r : Result Error (Unit {0}) × World F J S)
    : Type 0 where
  pub calls : List (Event F J)
  pub are_logged : r.1.log ≡ w.log ++ calls
  pub is_held : Holds r.1.state (spawned calls)
  pub tasks : r.0 ≡ ok tt → P calls

pub gives_tasks :
    {J : Type 0} (P : List (Spawned J) → Type 0) (js : List (Spawned J))
    (r : Result Error (Unit {0}))
    → Gives (λ _. P) js r
    → r ≡ ok tt
    → P js
gives_tasks P js (ok a) g e = g
gives_tasks P js (err x) g e = absurd (ground (arith, e))

module _ {F J S : Type 0} (Holds : S → List (Spawned J) → Type 0) where
  abbrev pub Keeps : {A : Type 0} → Action F J S A → (A → List (Spawned J) → Type 0) → Type 0
  Keeps m P = (w : World F J S) → Kept Holds P w (m w)

  -- Nothing was called, and the state is as before.
  pub idle-Kept :
      {A : Type 0} (P : A → List (Spawned J) → Type 0) (w : World F J S) (r : Result Error A)
      → Gives P [] r
      → Kept Holds P w (r, w)
  unfolding spawned
  idle-Kept P w r g = record {
    calls = [];
    are_logged = sym (append-nil w.log);
    registered = λ js h. subst (Holds w.state) (sym (append-nil js)) h;
    value = g;
  }

  continue-Kept :
      {A B : Type 0} (P : A → List (Spawned J) → Type 0) (Q : A → B → List (Spawned J) → Type 0)
      (R : B → List (Spawned J) → Type 0)
      (both : (a : A) (b : B) (js ks : List (Spawned J)) → P a js → Q a b ks → R b (js ++ ks))
      (w : World F J S) (r : Result Error A × World F J S) (f : A → Action F J S B)
      → Kept Holds P w r
      → ((a : A) (js : List (Spawned J)) → P a js → Keeps (f a) (Q a))
      → Kept Holds R w (continue f r)
  continue-Kept P Q R both w (ok a, v) f first second =
      let rest = second a (spawned first.calls) first.value v in
      record {
        calls = first.calls ++ rest.calls;
        are_logged =
            rest.are_logged
            ∙ ap (λ x. x ++ rest.calls) first.are_logged
            ∙ append_assoc w.log first.calls rest.calls;
        registered = λ js h.
            subst (Holds (f a v).1.state)
              (append_assoc js (spawned first.calls) (spawned rest.calls)
                ∙ ap (λ l. js ++ l) (sym (spawned-append first.calls rest.calls)))
              (rest.registered (js ++ spawned first.calls) (first.registered js h));
        value =
            subst (λ l. Gives R l (f a v).0) (sym (spawned-append first.calls rest.calls))
              (gives_after P Q R both a (spawned first.calls) (spawned rest.calls) (f a v).0
                first.value rest.value);
      }
  continue-Kept P Q R both w (err e, v) f first second = record {
    calls = first.calls;
    are_logged = first.are_logged;
    registered = first.registered;
    value = tt;
  }

  -- One function after another.
  pub bind-Keeps :
      {A B : Type 0} {P : A → List (Spawned J) → Type 0} {Q : A → B → List (Spawned J) → Type 0}
      (R : B → List (Spawned J) → Type 0) {m : Action F J S A} {f : A → Action F J S B}
      → Keeps m P
      → ((a : A) → Keeps (f a) (Q a))
      → ((a : A) (b : B) (js ks : List (Spawned J)) → P a js → Q a b ks → R b (js ++ ks))
      → Keeps (m >>= f) R
  bind-Keeps {P = P} {Q = Q} R {m = m} {f = f} first second both w =
      continue-Kept P Q R both w (m w) f (first w) (λ a _ _. second a)

  -- The second function knows what the first has done.
  pub bind_with-Keeps :
      {A B : Type 0} {P : A → List (Spawned J) → Type 0} {Q : A → B → List (Spawned J) → Type 0}
      (R : B → List (Spawned J) → Type 0) {m : Action F J S A} {f : A → Action F J S B}
      → Keeps m P
      → ((a : A) (js : List (Spawned J)) → P a js → Keeps (f a) (Q a))
      → ((a : A) (b : B) (js ks : List (Spawned J)) → P a js → Q a b ks → R b (js ++ ks))
      → Keeps (m >>= f) R
  bind_with-Keeps {P = P} {Q = Q} R {m = m} {f = f} first second both w =
      continue-Kept P Q R both w (m w) f (first w) second

  -- A weaker property of the value.
  pub weaken-Keeps :
      {A : Type 0} {P Q : A → List (Spawned J) → Type 0} {m : Action F J S A}
      → ((a : A) (js : List (Spawned J)) → P a js → Q a js)
      → Keeps m P
      → Keeps m Q
  weaken-Keeps {P = P} {Q = Q} {m = m} h k w =
      let kept = k w in
      record {
        calls = kept.calls;
        are_logged = kept.are_logged;
        registered = kept.registered;
        value = weaken P Q h (spawned kept.calls) (m w).0 kept.value;
      }

  pub raise-Keeps : {A : Type 0} (P : A → List (Spawned J) → Type 0) (e : Error) → Keeps (raise e) P
  raise-Keeps P e w = idle-Kept P w (err e) tt

  -- A server is set up from a state that has no tasks.
  pub serve-Served :
      (P : List (Spawned J) → Type 0) (m : Action F J S (Unit {0}))
      → Keeps m (λ _. P)
      → (fresh : S) → Holds fresh []
      → (log : List (Event F J)) (old : S)
      → Served Holds
          (λ calls. P (spawned calls))
          (record { log = log; state = old })
          (m (record { log = log; state = fresh }))
  serve-Served P m k fresh h log old =
      let w : World F J S = record { log = log; state = fresh } in
      let kept = k w in
      record {
        calls = kept.calls;
        are_logged = kept.are_logged;
        is_held = kept.registered [] h;
        tasks = gives_tasks P (spawned kept.calls) (m w).0 kept.value;
      }

  -- What the calls have besides, by the log.
  pub and-Served :
      (P Q : List (Event F J) → Type 0) (w : World F J S)
      (r : Result Error (Unit {0}) × World F J S)
      → Served Holds Q w r
      → (r.0 ≡ ok tt → (calls : List (Event F J)) × (r.1.log ≡ w.log ++ calls) × P calls)
      → Served Holds P w r
  and-Served P Q w r served h = record {
    calls = served.calls;
    are_logged = served.are_logged;
    is_held = served.is_held;
    tasks = λ done.
        let (calls, logged, p) = h done in
        subst P (append_cancel_left w.log calls served.calls (sym logged ∙ served.are_logged)) p;
  }
