-- ===== src/Runtime/Tokio/Lists.antt =====
-- Membership in the lists of ids and of commands of an executor.
use sfo_reuseport.Prelude.{
  ℕ, ◌≡◌, refl, ap, sym, ◌∙◌, ◌==◌, ==_iff, ◌&&◌, ◌||◌, not, Bool, true, false, List, [], ◌∷◌, ◌++◌,
  if◌then◌else◌, arith,
}
use sfo_reuseport.Runtime.Tokio.{TaskCommand, spawn, cancel, mem, remove, remove_all}

-- Whether a command is about the task, or spawns it.
abbrev pub is_about : ℕ → TaskCommand → Bool
is_about id (spawn x) = x == id
is_about id (cancel x) = x == id

abbrev pub is_spawn_of : ℕ → TaskCommand → Bool
is_spawn_of id (spawn x) = x == id
is_spawn_of id (cancel x) = false

unfoldable pub queued : ℕ → List TaskCommand → Bool
queued id [] = false
queued id (c ∷ cs) = is_spawn_of id c || queued id cs

unfoldable pub about : ℕ → List TaskCommand → Bool
about id [] = false
about id (c ∷ cs) = is_about id c || about id cs

-- No spawn of the task comes after another command about it.
abbrev pub Ordered : ℕ → List TaskCommand → Type 0
Ordered id [] = Unit
Ordered id (c ∷ cs) = (is_about id c ≡ true → queued id cs ≡ false) × Ordered id cs

or_assoc : (a b c : Bool) → (a || b) || c ≡ a || (b || c)
or_assoc true b c = refl
or_assoc false b c = refl

pub mem-append : (id x : ℕ) (l : List ℕ) → mem id (l ++ x ∷ []) ≡ mem id l || x == id
unfolding mem
mem-append id x [] = ground arith
mem-append id x (y ∷ l) =
    ap (λ b. y == id || b) (mem-append id x l) ∙ sym (or_assoc (y == id) (mem id l) (x == id))

same : (a m : Bool) → not a && m ≡ not a && (a || m)
same true m = refl
same false m = refl

other : (b a m : Bool) → (b ≡ true → a ≡ false) → b || (not a && m) ≡ not a && (b || m)
other true a m h = rw (h refl) refl
other false a m h = refl

neither : (a b m : Bool) → not a && (not b && m) ≡ not (a || b) && m
neither true b m = refl
neither false b m = refl

apart : (id x y : ℕ) → (y == x) ≡ false → (y == id) ≡ true → (x == id) ≡ false
apart id x y e h = ground arith

removed :
    (id x y : ℕ) (l : List ℕ) (b : Bool)
    → (y == x) ≡ b
    → mem id (remove x l) ≡ not (x == id) && mem id l
    → mem id (if b then remove x l else y ∷ remove x l) ≡ not (x == id) && (y == id || mem id l)
unfolding mem
removed id x y l true e h =
    h
    ∙ same (x == id) (mem id l)
    ∙ ap (λ z. not (x == id) && (z == id || mem id l)) (sym ((==_iff y x).0 e))
removed id x y l false e h =
    ap (λ m. y == id || m) h ∙ other (y == id) (x == id) (mem id l) (apart id x y e)

pub mem-remove : (id x : ℕ) (l : List ℕ) → mem id (remove x l) ≡ not (x == id) && mem id l
unfolding mem remove
mem-remove id x [] = ground arith
mem-remove id x (y ∷ l) = removed id x y l (y == x) refl (mem-remove id x l)

pub queued-append :
    (id : ℕ) (c : TaskCommand) (cs : List TaskCommand)
    → queued id (cs ++ c ∷ []) ≡ queued id cs || is_spawn_of id c
unfolding queued
queued-append id c [] = ground arith
queued-append id c (d ∷ cs) =
    ap (λ b. is_spawn_of id d || b) (queued-append id c cs)
    ∙ sym (or_assoc (is_spawn_of id d) (queued id cs) (is_spawn_of id c))

pub about-append :
    (id : ℕ) (c : TaskCommand) (cs : List TaskCommand)
    → about id (cs ++ c ∷ []) ≡ about id cs || is_about id c
unfolding about
about-append id c [] = ground arith
about-append id c (d ∷ cs) =
    ap (λ b. is_about id d || b) (about-append id c cs)
    ∙ sym (or_assoc (is_about id d) (about id cs) (is_about id c))

pub or_false : (a b : Bool) → a || b ≡ false → (a ≡ false) × (b ≡ false)
or_false true b e = absurd (ground arith)
or_false false b e = (refl, e)

spawn_is_about : (id : ℕ) (c : TaskCommand) → is_about id c ≡ false → is_spawn_of id c ≡ false
spawn_is_about id (spawn x) e = e
spawn_is_about id (cancel x) e = refl

pub about-queued : (id : ℕ) (cs : List TaskCommand) → about id cs ≡ false → queued id cs ≡ false
unfolding about queued
about-queued id [] e = refl
about-queued id (c ∷ cs) e =
    let (a, b) = or_false (is_about id c) (about id cs) e in
    rw (spawn_is_about id c a, about-queued id cs b) refl

-- A command that spawns no task with this id may come last; so may any, where none is about it.
pub append-Ordered :
    (id : ℕ) (c : TaskCommand) (cs : List TaskCommand)
    → is_spawn_of id c ≡ false
    → Ordered id cs
    → Ordered id (cs ++ c ∷ [])
unfolding queued
append-Ordered id c [] e o = (λ _. refl, tt)
append-Ordered id c (d ∷ cs) e (f, o) =
    (λ h. rw (queued-append id c cs, f h, e) refl, append-Ordered id c cs e o)

pub first-Ordered :
    (id : ℕ) (c : TaskCommand) (cs : List TaskCommand)
    → about id cs ≡ false
    → Ordered id (cs ++ c ∷ [])
unfolding about queued
first-Ordered id c [] e = (λ _. refl, tt)
first-Ordered id c (d ∷ cs) e =
    let (a, b) = or_false (is_about id d) (about id cs) e in
    (λ h. absurd (ground (arith, a, h)), first-Ordered id c cs b)

-- What is in the second list has been removed.
pub mem-remove_all :
    (id : ℕ) (ids l : List ℕ) → mem id (remove_all ids l) ≡ not (mem id ids) && mem id l
unfolding mem remove_all
mem-remove_all id [] l = refl
mem-remove_all id (x ∷ ids) l =
    mem-remove id x (remove_all ids l)
    ∙ ap (λ b. not (x == id) && b) (mem-remove_all id ids l)
    ∙ neither (x == id) (mem id ids) (mem id l)
