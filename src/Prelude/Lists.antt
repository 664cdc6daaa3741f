-- ===== src/Prelude/Lists.antt =====
-- Slices and vectors: lists measured and indexed by native numbers.
use Prim.Native.Nat.{ℕ, zero, suc, ◌+◌, ◌-◌, ◌<◌, min}
use mathlib.Core.Path.{◌≡◌, refl, sym, ap, subst}
use mathlib.Core.Logic.{◌≢◌, ◌⊎◌, inl, inr}
use mathlib.Core.Bool.{Bool, true, false}
use mathlib.Core.List.{List, [], ◌∷◌, ◌++◌}
use mathlib.Core.Option.{Option, none, some, some-injective}
use native.Mathlib.Omega.{arith}
use sfo_reuseport.Prelude.Tests.{leb, if◌then◌else◌}

module _ {ℓ} {A : Type ℓ} where
  abbrev pub length : List A → ℕ
  length [] = 0
  length (x ∷ xs) = suc (length xs)

  abbrev pub is_empty : List A → Bool
  is_empty [] = true
  is_empty (x ∷ xs) = false

  -- `slice.get(i)`
  abbrev pub get_elem? : List A → ℕ → Option A
  get_elem? [] i = none
  get_elem? (x ∷ xs) zero = some x
  get_elem? (x ∷ xs) (suc i) = get_elem? xs i

  abbrev pub set : List A → ℕ → A → List A
  set [] i v = []
  set (x ∷ xs) zero v = v ∷ xs
  set (x ∷ xs) (suc i) v = x ∷ set xs i v

  abbrev pub take : ℕ → List A → List A
  take zero xs = []
  take (suc n) [] = []
  take (suc n) (x ∷ xs) = x ∷ take n xs

  abbrev pub drop : ℕ → List A → List A
  drop zero xs = xs
  drop (suc n) [] = []
  drop (suc n) (x ∷ xs) = drop n xs

  abbrev pub replicate : ℕ → A → List A
  replicate zero a = []
  replicate (suc n) a = a ∷ replicate n a

  -- `slice.get(n..)`
  abbrev pub get_from : List A → ℕ → Option (List A)
  get_from xs n = if leb n (length xs) then some (drop n xs) else none

  pub length-append : (xs ys : List A) → length (xs ++ ys) ≡ length xs + length ys
  length-append [] ys = omega arith
  length-append (x ∷ xs) ys = omega (arith, length-append xs ys)

  pub length-take : (n : ℕ) (xs : List A) → length (take n xs) ≡ min n (length xs)
  length-take zero xs = omega arith
  length-take (suc n) [] = omega arith
  length-take (suc n) (x ∷ xs) = omega (arith, length-take n xs)

  pub length-drop : (n : ℕ) (xs : List A) → length (drop n xs) ≡ length xs - n
  length-drop zero xs = omega arith
  length-drop (suc n) [] = omega arith
  length-drop (suc n) (x ∷ xs) = omega (arith, length-drop n xs)

  pub length-replicate : (n : ℕ) (a : A) → length (replicate n a) ≡ n
  length-replicate zero a = refl
  length-replicate (suc n) a = ap suc (length-replicate n a)

  pub get_elem?-lt : (xs : List A) (i : ℕ) → i < length xs → (a : A) × (get_elem? xs i ≡ some a)
  get_elem?-lt [] i h = elim h [ ]
  get_elem?-lt (x ∷ xs) zero h = (x, refl)
  get_elem?-lt (x ∷ xs) (suc i) h = get_elem?-lt xs i (omega arith)

-- A predicate of every element, by recursion.
abbrev pub All {ℓ κ} : {A : Type ℓ} → (A → Type κ) → List A → Type κ
All P [] = Unit
All P (x ∷ xs) = P x × All P xs

pub All-append {ℓ κ} :
    {A : Type ℓ} (P : A → Type κ) (xs ys : List A) → All P xs → All P ys → All P (xs ++ ys)
All-append P [] ys hx hy = hy
All-append P (x ∷ xs) ys hx hy = (hx.0, All-append P xs ys hx.1 hy)

module _ {ℓ κ} {A : Type ℓ} (P : A → Type κ) where
  pub All-set : (xs : List A) (i : ℕ) (v : A) → All P xs → P v → All P (set xs i v)
  All-set [] i v h p = h
  All-set (x ∷ xs) zero v h p = (p, h.1)
  All-set (x ∷ xs) (suc i) v h p = (h.0, All-set xs i v h.1 p)

  pub All-replicate : (n : ℕ) (a : A) → P a → All P (replicate n a)
  All-replicate zero a p = tt
  All-replicate (suc n) a p = (p, All-replicate n a p)

  pub All-get_elem? : (xs : List A) (i : ℕ) (a : A) → All P xs → get_elem? xs i ≡ some a → P a
  All-get_elem? [] i a h e = absurd (ground arith)
  All-get_elem? (x ∷ xs) zero a h e = subst P (some-injective _ _ e) h.0
  All-get_elem? (x ∷ xs) (suc i) a h e = All-get_elem? xs i a h.1 e

module _ {ℓ} {A : Type ℓ} where
  pub length-set : (xs : List A) (i : ℕ) (v : A) → length (set xs i v) ≡ length xs
  length-set [] i v = refl
  length-set (x ∷ xs) zero v = refl
  length-set (x ∷ xs) (suc i) v = ap suc (length-set xs i v)

  -- An element of an updated list is the new one at its place, or an old one.
  pub get_elem?-set_cases :
      (xs : List A) (i j : ℕ) (v a : A)
      → get_elem? (set xs i v) j ≡ some a
      → ((i ≡ j) × (v ≡ a)) ⊎ ((i ≢ j) × (get_elem? xs j ≡ some a))
  get_elem?-set_cases [] i j v a e = absurd (ground arith)
  get_elem?-set_cases (x ∷ xs) zero zero v a e = inl (refl, some-injective _ _ e)
  get_elem?-set_cases (x ∷ xs) zero (suc j) v a e = inr (λ h. omega (arith, h), e)
  get_elem?-set_cases (x ∷ xs) (suc i) zero v a e = inr (λ h. omega (arith, h), e)
  get_elem?-set_cases (x ∷ xs) (suc i) (suc j) v a e = elim (get_elem?-set_cases xs i j v a e) [
    | inl (h, p) ↦ inl (ap suc h, p)
    | inr (h, p) ↦ inr (λ k. h (omega (arith, k)), p)
  ]

  pub set_same : (xs : List A) (i : ℕ) (a : A) → get_elem? xs i ≡ some a → set xs i a ≡ xs
  set_same [] i a e = refl
  set_same (x ∷ xs) zero a e = ap (λ y. y ∷ xs) (sym (some-injective _ _ e))
  set_same (x ∷ xs) (suc i) a e = ap (λ ys. x ∷ ys) (set_same xs i a e)

  pub get_elem?-replicate : (n i : ℕ) (a : A) → i < n → get_elem? (replicate n a) i ≡ some a
  get_elem?-replicate zero i a h = absurd (omega (arith, h))
  get_elem?-replicate (suc n) zero a h = refl
  get_elem?-replicate (suc n) (suc i) a h = get_elem?-replicate n i a (omega (arith, h))

  pub get_elem?-set_same :
      (xs : List A) (i : ℕ) (v : A) → i < length xs → get_elem? (set xs i v) i ≡ some v
  get_elem?-set_same [] i v h = absurd (omega (arith, h))
  get_elem?-set_same (x ∷ xs) zero v h = refl
  get_elem?-set_same (x ∷ xs) (suc i) v h = get_elem?-set_same xs i v (omega (arith, h))

  pub get_elem?-set_other :
      (xs : List A) (i j : ℕ) (v : A) → i ≢ j → get_elem? (set xs i v) j ≡ get_elem? xs j
  get_elem?-set_other [] i j v h = refl
  get_elem?-set_other (x ∷ xs) zero zero v h = absurd (h refl)
  get_elem?-set_other (x ∷ xs) zero (suc j) v h = refl
  get_elem?-set_other (x ∷ xs) (suc i) zero v h = refl
  get_elem?-set_other (x ∷ xs) (suc i) (suc j) v h =
      get_elem?-set_other xs i j v (λ k. h (ap suc k))

module _ {ℓ} {A : Type ℓ} where
  pub get_elem?-some_lt : (xs : List A) (i : ℕ) (a : A) → get_elem? xs i ≡ some a → i < length xs
  get_elem?-some_lt [] i a e = absurd (ground arith)
  get_elem?-some_lt (x ∷ xs) zero a e = omega arith
  get_elem?-some_lt (x ∷ xs) (suc i) a e = let h = get_elem?-some_lt xs i a e in omega (arith, h)
