-- ===== src/Examples/HyperStatic/Resolve/Served.antt =====
-- What is served lies below the root.
use mathlib.Core.List.{append_assoc}
use sfo_reuseport.Prelude.{
  ◌≡◌, refl, sym, ap, ◌∙◌, ◌&&◌, ◌||◌, Bool, Bool-cases, true, false, inl, inr, List, [], ◌∷◌, ◌++◌,
  All, All-append,
}
use sfo_reuseport.Error.{IoError, Result, ok, err, ◌>>=◌}
use sfo_reuseport.Examples.HyperStatic.{ResolveError, Text, FilePath, FileSystem}
use sfo_reuseport.Examples.HyperStatic.Resolve.{
  index_html, is_forbidden, split, text_eq, push_segments, ends_with_slash, starts_with,
  is_not_found, canonical_or, with_index, checked, resolve_path,
}
use sfo_reuseport.Examples.HyperStatic.Resolve.Laws.{
  IsName, allowed-IsName, Below, push-Below, text_eq_sound,
}

and_both : (a b : Bool) → a && b ≡ true → (a ≡ true) × (b ≡ true)
and_both true b e = (refl, e)
and_both false b e = cc

prefix :
    (path root : FilePath)
    → starts_with path root ≡ true
    → (below : FilePath) × (path ≡ root ++ below)
unfolding starts_with
prefix path [] e = (path, refl)
prefix [] (r ∷ root) e = cc
prefix (p ∷ path) (r ∷ root) e =
    let (same, rest) = and_both (text_eq p r) (starts_with path root) e in
    let (below, q) = prefix path root rest in
    let head : p ≡ r = text_eq_sound p r same in (below, cc)

index-IsName : IsName index_html
unfolding is_forbidden
index-IsName = allowed-IsName index_html refl

-- A canonical path of some names below the root, that is a file below the root.
abbrev pub IsServed : FileSystem → FilePath → FilePath → Type 0
IsServed fs root p =
    (names : List Text) × (below : FilePath) × All IsName names
    × (fs.canonicalize (root ++ names) ≡ ok p)
    × (p ≡ root ++ below)
    × (fs.is_file p ≡ true)

module _ (fs : FileSystem) (root : FilePath) where
  index-Below :
      (candidate : FilePath) (uri : Text)
      → Below root candidate
      → Below root (with_index fs candidate uri)
  unfolding with_index
  index-Below candidate uri (names, all, e) =
      elim (Bool-cases (fs.is_dir candidate || ends_with_slash uri)) [
        | inl h ↦ rw h (
          names ++ index_html ∷ [],
          All-append IsName names (index_html ∷ []) all (index-IsName, tt),
          ap (λ l. l ++ index_html ∷ []) e ∙ append_assoc root names (index_html ∷ []),
        )
        | inr h ↦ rw h (names, all, e)
      ]

  checked_ok :
      (canonical p : FilePath)
      → checked fs root canonical ≡ ok p
      → (canonical ≡ p) × (starts_with canonical root ≡ true) × (fs.is_file canonical ≡ true)
  unfolding checked
  checked_ok canonical p h = elim (Bool-cases (starts_with canonical root)) [
    | inl s ↦ elim (Bool-cases (fs.is_file canonical)) [
      | inl f ↦ (cc (rw (s, f) at h), s, f)
      | inr f ↦ cc (rw (s, f) at h)
    ]
    | inr s ↦ cc (rw s at h)
  ]

  canonical_ok :
      (r : Result IoError FilePath) (p : FilePath)
      → (canonical_or r >>= checked fs root) ≡ ok p
      → (r ≡ ok p) × (starts_with p root ≡ true) × (fs.is_file p ≡ true)
  canonical_ok (ok path) p h =
      let (e, s, f) = checked_ok path p h in (ap ok e, rw (← e) s, rw (← e) f)
  canonical_ok (err e) p h = elim (Bool-cases (is_not_found e.kind)) [
    | inl k ↦ cc (rw k at h)
    | inr k ↦ cc (rw k at h)
  ]

  resolved :
      (uri : Text) (p : FilePath) (candidate : Result ResolveError FilePath)
      → ((c : FilePath) → candidate ≡ ok c → Below root c)
      → (candidate >>= λ c.
          canonical_or (fs.canonicalize (with_index fs c uri)) >>= checked fs root)
        ≡ ok p
      → IsServed fs root p
  resolved uri p (err e) below h = cc
  resolved uri p (ok c) below h =
      let (names, all, e) = index-Below c uri (below c refl) in
      let (canonical, s, f) = canonical_ok (fs.canonicalize (with_index fs c uri)) p h in
      let (rest, q) = prefix p root s in
      (names, rest, all, ap fs.canonicalize (sym e) ∙ canonical, q, f)

  -- What `resolve_path` returns is a file, lies below the root component by component, also after
  -- symbolic links have been followed, and is the canonical path of names below the root of which
  -- none is `..` and none has a separator or a zero byte.
  pub resolve_path-IsServed :
      (uri : Text) (p : FilePath) → resolve_path fs root uri ≡ ok p → IsServed fs root p
  unfolding resolve_path
  resolve_path-IsServed uri p h =
      resolved uri p (push_segments (split uri) root) (λ c e. push-Below (split uri) root c e) h
