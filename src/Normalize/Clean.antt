-- ===== src/Normalize/Clean.antt =====
-- The shape of the paths that the normalizer answers with.
use mathlib.Core.Option.{some_inj}
use conflict_graph.Prelude.{
  ◌≡◌, ◌⊎◌, inl, inr, refl, sym, ap, subst, Bool, true, false, none, some, List, [], ◌∷◌, ◌++◌, map,
  keep, ◌==◌, ==_iff, All, if_ind, if◌then◌else◌, Bool-cases, ◌∙◌,
}
use conflict_graph.Prelude.Text.{Text, text_eq, codes}
use conflict_graph.Prelude.Strings.{strip, split_on, join, replace_character}
use conflict_graph.Types.Enums.{Operation}
use conflict_graph.Normalize.Path.{
  Python, NormalizationPolicy, slashes, components, reversed, or_dot, normpath, stable_part,
  stable_path, is_ephemeral, absolute, normalize_path, redacted, in_repository,
}
use conflict_graph.Normalize.Parts.{
  IsPlain, split_on-NoSlash, components-IsPlain, reversed-IsPlain, something, kept_parts,
}

-- "/" or "//".
abbrev pub IsRoot : Text → Type 0
IsRoot front = (front ≡ codes "/") ⊎ (front ≡ codes "//")

some_of_else : {x path : Text} (b : Bool) → (if b then none else some x) ≡ some path → x ≡ path
some_of_else true h = cc
some_of_else false h = some_inj.0 h

slashes-IsRoot : (path : Text) → IsRoot (slashes (47 ∷ path))
slashes-IsRoot path =
    if_ind {A = Text} IsRoot _ (codes "//") (codes "/") (λ e. inr refl) (λ e. inl refl)

or_dot_root : (front rest : Text) → IsRoot front → or_dot (front ++ rest) ≡ front ++ rest
or_dot_root front rest (inl e) = rw e refl
or_dot_root front rest (inr e) = rw e refl

-- What follows a root, split and kept.
kept_below_root :
    (front rest : Text)
    → IsRoot front
    → keep something (split_on 47 (front ++ rest)) ≡ keep something (split_on 47 rest)
kept_below_root front rest (inl e) = rw e refl
kept_below_root front rest (inr e) = rw e refl

root_first : (front rest : Text) → IsRoot front → (path : Text) × (front ++ rest ≡ 47 ∷ path)
root_first front rest (inl e) = (rest, rw e refl)
root_first front rest (inr e) = (47 ∷ rest, rw e refl)

-- A path of a root and plain components.
abbrev pub IsClean : Text → Type 0
IsClean path =
    (front : Text) × (parts : List Text) × (path ≡ front ++ join 47 parts)
    × IsRoot front
    × All IsPlain parts

normpath-IsClean : (path : Text) → IsClean (normpath (47 ∷ path))
unfolding normpath
normpath-IsClean path =
    let parts = reversed (components true [] (split_on 47 (47 ∷ path))) [] in
    (
      slashes (47 ∷ path),
      parts,
      or_dot_root (slashes (47 ∷ path)) (join 47 parts) (slashes-IsRoot path),
      slashes-IsRoot path,
      reversed-IsPlain _ []
          (components-IsPlain [] (split_on 47 (47 ∷ path)) tt (split_on-NoSlash (47 ∷ path))) tt,
    )

module _ (py : Python) where
  stable_part-IsPlain : (part : Text) → IsPlain part → IsPlain (stable_part py part)
  stable_part-IsPlain part a =
      if_ind {A = Text} IsPlain (is_ephemeral py part) _ part
        (λ e. (refl, refl, (refl, (refl, (refl, (refl, (refl, (refl, (refl, (refl, tt))))))))))
        (λ e. a)

  map-IsPlain : (parts : List Text) → All IsPlain parts → All IsPlain (map (stable_part py) parts)
  map-IsPlain [] a = tt
  map-IsPlain (part ∷ parts) a = (stable_part-IsPlain part a.0, map-IsPlain parts a.1)

  stable_path-IsClean : (path : Text) → IsClean path → IsClean (stable_path py path)
  unfolding stable_path
  stable_path-IsClean path (front, parts, e, r, a) =
      let (rest, f) = root_first front (join 47 parts) r in
      let s : IsRoot (slashes path) = rw (e, f) (slashes-IsRoot rest) in
      let k : keep something (split_on 47 path) ≡ parts =
        ap (λ p. keep something (split_on 47 p)) e
        ∙ kept_below_root front (join 47 parts) r
        ∙ kept_parts parts a in
      (
        slashes path,
        map (stable_part py) parts,
        rw k (or_dot_root (slashes path) (join 47 (map (stable_part py) parts)) s),
        s,
        map-IsPlain parts a,
      )

  module _ (policy : NormalizationPolicy) where
    absolute_first : (value : Text) → (path : Text) × (absolute py policy value ≡ 47 ∷ path)
    absolute_first [] = ([], refl)
    absolute_first (c ∷ value) = elim (Bool-cases (47 == c)) [
      | inl e ↦ let q : 47 ≡ c = (==_iff 47 c).0 e in (value, rw (← q) refl)
      | inr e ↦ (c ∷ value, rw e refl)
    ]

    unredacted : (value : Text) → policy.redact_paths ≡ false → redacted py policy value ≡ value
    unredacted value e = rw e refl

    no_root : (value : Text) → in_repository py policy none value ≡ value
    no_root value = refl

    -- Without a repository root and without redaction: a path is normalized to "/" or "//" and
    -- components, joined by "/", none of which is empty, "." or ".." or has a "/".
    pub normalize_path-IsClean :
        (raw path : Text) (operation : Operation)
        → policy.repository_root ≡ none
        → policy.redact_paths ≡ false
        → normalize_path py policy raw operation ≡ some path
        → IsClean path
    unfolding normalize_path
    normalize_path-IsClean raw path operation root redact h =
        let value = replace_character 92 47 (strip py.is_space raw) in
        let (rest, e) = absolute_first value in
        let clean : IsClean (normpath (absolute py policy value)) = rw e (normpath-IsClean rest) in
        let same_path = some_of_else _ h in
        subst IsClean (sym (unredacted _ redact) ∙ same_path)
          (rw root (stable_path-IsClean (normpath (absolute py policy value)) clean))
