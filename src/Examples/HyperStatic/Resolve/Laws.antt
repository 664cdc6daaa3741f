-- ===== src/Examples/HyperStatic/Resolve/Laws.antt =====
-- What the loop of `resolve_path` makes of the segments of a path.
use mathlib.Core.List.{append_assoc, append-nil}
use sfo_reuseport.Prelude.{
  ℕ, ◌≡◌, refl, sym, ap, ◌∙◌, ◌≢◌, ◌==◌, ◌||◌, Bool, Bool-cases, true, false, inl, inr, List, [],
  ◌∷◌, ◌++◌, is_empty, All, if◌then◌else◌, arith,
}
use sfo_reuseport.Error.{Result, ok, err, ◌>>=◌}
use sfo_reuseport.Examples.HyperStatic.{ResolveError, forbidden, Text, FilePath}
use sfo_reuseport.Runtime.Tokio.Invariant.{clash}
use sfo_reuseport.Examples.HyperStatic.Percent.{percent_decode}
use sfo_reuseport.Examples.HyperStatic.Resolve.{
  slash, backslash, dot, contains, text_eq, has_root, is_forbidden, push_segments,
}

-- A name of a file or a directory that leads nowhere else.
pub record IsName (name : Text) : Type 0 where
  pub not_parent : name ≢ dot ∷ dot ∷ []
  pub plain : All (λ b. (b ≢ 0) × (b ≢ slash) × (b ≢ backslash)) name

text_eq_refl : (t : Text) → text_eq t t ≡ true
unfolding text_eq
text_eq_refl [] = refl
text_eq_refl (c ∷ cs) = ground (arith, text_eq_refl cs)

pub text_eq_sound : (s t : Text) → text_eq s t ≡ true → s ≡ t
unfolding text_eq
text_eq_sound [] [] e = refl
text_eq_sound [] (d ∷ ds) e = cc
text_eq_sound (c ∷ cs) [] e = cc
text_eq_sound (c ∷ cs) (d ∷ ds) e = ground (arith, text_eq_sound cs ds)

or_none : (a b : Bool) → a || b ≡ false → (a ≡ false) × (b ≡ false)
or_none true b e = cc
or_none false b e = (refl, e)

without : (b : ℕ) (t : Text) → contains b t ≡ false → All (λ c. c ≢ b) t
unfolding contains
without b [] e = tt
without b (c ∷ cs) e =
    let (first, rest) = or_none (c == b) (contains b cs) e in
    ((λ h. ground (arith, first, h)), without b cs rest)

All-three :
    (P Q R : ℕ → Type 0) (t : Text) → All P t → All Q t → All R t → All (λ c. P c × Q c × R c) t
All-three P Q R [] p q r = tt
All-three P Q R (c ∷ cs) p q r = ((p.0, q.0, r.0), All-three P Q R cs p.1 q.1 r.1)

abbrev is_special : Text → Bool
is_special t = text_eq t (dot ∷ dot ∷ []) || contains 0 t || contains slash t

pub allowed-IsName : (t : Text) → is_forbidden t ≡ false → IsName t
unfolding is_forbidden
allowed-IsName t e =
    let (e₁, rooted) = or_none (is_special t || contains backslash t) (has_root t) e in
    let (e₂, backslashes) = or_none (is_special t) (contains backslash t) e₁ in
    let (e₃, slashes) =
      or_none (text_eq t (dot ∷ dot ∷ []) || contains 0 t) (contains slash t) e₂ in
    let (parent, nul) = or_none (text_eq t (dot ∷ dot ∷ [])) (contains 0 t) e₃ in
    record {
      not_parent = λ h.
          clash (text_eq t (dot ∷ dot ∷ []))
            (ap (λ s. text_eq s (dot ∷ dot ∷ [])) h ∙ text_eq_refl (dot ∷ dot ∷ [])) parent;
      plain =
          All-three _ _ _ t (without 0 t nul) (without slash t slashes)
            (without backslash t backslashes);
    }

-- What the loop does with a decoded segment.
abbrev pub pushing : List Text → FilePath → Text → Result ResolveError FilePath
pushing rest candidate segment =
    if text_eq segment (dot ∷ [])
    then push_segments rest candidate
    else if is_forbidden segment
    then err forbidden
    else push_segments rest (candidate ++ segment ∷ [])

pub push_empty :
    (raw : Text) (rest : List Text) (candidate : FilePath)
    → is_empty raw ≡ true
    → push_segments (raw ∷ rest) candidate ≡ push_segments rest candidate
unfolding push_segments
push_empty raw rest candidate e = rw e refl

pub push_taken :
    (raw : Text) (rest : List Text) (candidate : FilePath)
    → is_empty raw ≡ false
    → push_segments (raw ∷ rest) candidate ≡ (percent_decode raw >>= pushing rest candidate)
unfolding push_segments
push_taken raw rest candidate e = rw e refl

-- The candidate, with names after it.
abbrev pub Below : FilePath → FilePath → Type 0
Below candidate p = (names : List Text) × All IsName names × (p ≡ candidate ++ names)

taken-Below :
    (rest : List Text) (candidate p : FilePath) (decoded : Result ResolveError Text)
    → (push_segments rest candidate ≡ ok p → Below candidate p)
    → ((segment : Text)
        → push_segments rest (candidate ++ segment ∷ []) ≡ ok p
        → Below (candidate ++ segment ∷ []) p)
    → (decoded >>= pushing rest candidate) ≡ ok p
    → Below candidate p
taken-Below rest candidate p (err e) same pushed h = cc
taken-Below rest candidate p (ok segment) same pushed h =
    elim (Bool-cases (text_eq segment (dot ∷ []))) [
      | inl e ↦ same (rw e at h)
      | inr e ↦ elim (Bool-cases (is_forbidden segment)) [
        | inl f ↦ cc (let g = rw (e, f) at h in g)
        | inr f ↦
            let (names, all, q) = pushed segment (rw (e, f) at h) in
            (
              segment ∷ names,
              (allowed-IsName segment f, all),
              q ∙ append_assoc candidate (segment ∷ []) names,
            )
      ]
    ]

pub push_none : (candidate : FilePath) → push_segments [] candidate ≡ ok candidate
unfolding push_segments
push_none candidate = refl

ok-injective : (a b : FilePath) → ◌≡◌ {A = Result ResolveError FilePath} (ok a) (ok b) → a ≡ b
ok-injective a b h = cc

pub push-Below :
    (raws : List Text) (candidate p : FilePath)
    → push_segments raws candidate ≡ ok p
    → Below candidate p
push-Below [] candidate p h = (
  [],
  tt,
  sym (ok-injective candidate p (sym (push_none candidate) ∙ h)) ∙ sym (append-nil candidate),
)
push-Below (raw ∷ rest) candidate p h = elim (Bool-cases (is_empty raw)) [
  | inl e ↦ push-Below rest candidate p (sym (push_empty raw rest candidate e) ∙ h)
  | inr e ↦
      taken-Below rest candidate p (percent_decode raw) (push-Below rest candidate p)
        (λ segment. push-Below rest (candidate ++ segment ∷ []) p)
        (sym (push_taken raw rest candidate e) ∙ h)
]
