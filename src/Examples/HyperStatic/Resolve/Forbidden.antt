-- ===== src/Examples/HyperStatic/Resolve/Forbidden.antt =====
-- A request that would climb out of the root is forbidden, however it is encoded.
use sfo_reuseport.Prelude.{
  ◌≡◌, refl, sym, ap, ◌∙◌, Bool, Bool-cases, true, false, inl, inr, List, [], ◌∷◌, ◌++◌, is_empty,
  if◌then◌else◌,
}
use mathlib.Core.Path.{subst}
use sfo_reuseport.Error.{Result, ok, err, ◌>>=◌}
use sfo_reuseport.Examples.HyperStatic.{ResolveError, forbidden, Text, FilePath, FileSystem}
use sfo_reuseport.Examples.HyperStatic.Percent.Refuses.{
  Refuses, succeeds, refuses, bind-Refuses, if-Refuses, percent_decode-Refuses,
}
use sfo_reuseport.Examples.HyperStatic.Percent.{percent_decode}
use sfo_reuseport.Examples.HyperStatic.Resolve.{
  dot, split, is_forbidden, text_eq, push_segments, resolve_path,
}
use sfo_reuseport.Examples.HyperStatic.Resolve.Laws.{
  IsName, allowed-IsName, pushing, push_empty, push_taken, push_none, text_eq_sound,
}

push-Refuses : (raws : List Text) (candidate : FilePath) → Refuses (push_segments raws candidate)
push-Refuses [] candidate = rw (push_none candidate) succeeds
push-Refuses (raw ∷ rest) candidate = elim (Bool-cases (is_empty raw)) [
  | inl e ↦ rw (push_empty raw rest candidate e) (push-Refuses rest candidate)
  | inr e ↦ rw (push_taken raw rest candidate e) (
      bind-Refuses (percent_decode raw) (pushing rest candidate) (percent_decode-Refuses raw)
        (λ segment. if-Refuses (text_eq segment (dot ∷ [])) _ _ (push-Refuses rest candidate) (
          if-Refuses (is_forbidden segment) _ _ refuses
            (push-Refuses rest (candidate ++ segment ∷ [])))))
]

dot-IsName : IsName (dot ∷ [])
unfolding is_forbidden
dot-IsName = allowed-IsName (dot ∷ []) refl

-- A segment that is not a name ends the loop.
bad-refused :
    (segment : Text) (rest : List Text) (candidate : FilePath)
    → (IsName segment → ⊥)
    → pushing rest candidate segment ≡ err forbidden
bad-refused segment rest candidate bad = elim (Bool-cases (text_eq segment (dot ∷ []))) [
  | inl e ↦ absurd (bad (subst IsName (sym (text_eq_sound segment (dot ∷ []) e)) dot-IsName))
  | inr e ↦ elim (Bool-cases (is_forbidden segment)) [
    | inl f ↦ rw (e, f) refl
    | inr f ↦ absurd (bad (allowed-IsName segment f))
  ]
]

empty-IsName :
    (raw segment : Text) → is_empty raw ≡ true → percent_decode raw ≡ ok segment → IsName segment
unfolding percent_decode is_forbidden
empty-IsName [] [] e h = allowed-IsName [] refl
empty-IsName [] (c ∷ cs) e h = cc
empty-IsName (c ∷ cs) segment e h = cc

-- Whatever comes before such a segment, the loop does not get past it.
bind_refused :
    {A B : Type 0} (m : Result ResolveError A) (f : A → Result ResolveError B)
    → Refuses m
    → ((a : A) → f a ≡ err forbidden)
    → (m >>= f) ≡ err forbidden
bind_refused _ f (succeeds {a = a}) h = h a
bind_refused _ f refuses h = refl

push-refused :
    (before after : List Text) (raw segment : Text) (candidate : FilePath)
    → percent_decode raw ≡ ok segment
    → (IsName segment → ⊥)
    → push_segments (before ++ raw ∷ after) candidate ≡ err forbidden
push-refused [] after raw segment candidate decodes bad = elim (Bool-cases (is_empty raw)) [
  | inl e ↦ absurd (bad (empty-IsName raw segment e decodes))
  | inr e ↦
      push_taken raw after candidate e
      ∙ ap (λ r. r >>= pushing after candidate) decodes
      ∙ bad-refused segment after candidate bad
]
push-refused (first ∷ before) after raw segment candidate decodes bad =
    elim (Bool-cases (is_empty first)) [
      | inl e ↦
          push_empty first (before ++ raw ∷ after) candidate e
          ∙ push-refused before after raw segment candidate decodes bad
      | inr e ↦
          push_taken first (before ++ raw ∷ after) candidate e
          ∙ bind_refused (percent_decode first) (pushing (before ++ raw ∷ after) candidate)
              (percent_decode-Refuses first)
              (λ s.
                either_way (text_eq s (dot ∷ [])) (is_forbidden s)
                  (push-refused before after raw segment candidate decodes bad)
                  (push-refused before after raw segment (candidate ++ s ∷ []) decodes bad))
    ]
  where
    either_way :
        (a b : Bool) {x y : Result ResolveError FilePath}
        → x ≡ err forbidden
        → y ≡ err forbidden
        → (if a then x else (if b then err forbidden else y)) ≡ err forbidden
    either_way true b hx hy = hx
    either_way false true hx hy = refl
    either_way false false hx hy = hy

-- A request of whose path one segment decodes to `..`, or to something with a separator or a zero byte
-- in it, is forbidden, whatever the other segments are and whatever the file system holds.
pub resolve_path_forbidden :
    (fs : FileSystem) (root : FilePath) (uri : Text) (before after : List Text) (raw segment : Text)
    → split uri ≡ before ++ raw ∷ after
    → percent_decode raw ≡ ok segment
    → ¬ IsName segment
    → resolve_path fs root uri ≡ err forbidden
unfolding resolve_path
resolve_path_forbidden fs root uri before after raw segment e decodes bad =
    rw (e, push-refused before after raw segment root decodes bad) refl
