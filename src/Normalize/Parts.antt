-- ===== src/Normalize/Parts.antt =====
-- The components of a path: those that `posixpath.normpath` keeps, joined and split again.
use conflict_graph.Prelude.{
  ℕ, ◌≡◌, refl, ap, Bool, true, false, not, ◌&&◌, ◌||◌, List, [], ◌∷◌, ◌++◌, keep, ◌==◌, same, All,
  if_ind, ◌∙◌,
}
use conflict_graph.Prelude.Text.{Text, text_eq, codes}
use conflict_graph.Prelude.Strings.{split_on, onto_first, join}
use conflict_graph.Normalize.Path.{is_nothing, enter, components, reversed}

abbrev pub NoSlash : Text → Type 0
NoSlash part = All (λ c. (c == 47) ≡ false) part

-- A component that is not empty, "." or "..", and has no slash.
abbrev pub IsPlain : Text → Type 0
IsPlain part = (is_nothing part ≡ false) × (same part (codes "..") ≡ false) × NoSlash part

onto_first-NoSlash :
    (d : ℕ) (parts : List Text)
    → (d == 47) ≡ false
    → All NoSlash parts
    → All NoSlash (onto_first d parts)
onto_first-NoSlash d [] e a = ((e, tt), tt)
onto_first-NoSlash d (part ∷ parts) e a = ((e, a.0), a.1)

pub split_on-NoSlash : (text : Text) → All NoSlash (split_on 47 text)
split_on-NoSlash [] = (tt, tt)
split_on-NoSlash (d ∷ text) =
    if_ind {A = List Text} (All NoSlash) (d == 47) _ _ (λ e. (tt, split_on-NoSlash text))
      (λ e. onto_first-NoSlash d _ e (split_on-NoSlash text))

or_false : {a b : Bool} → (a || b) ≡ false → (a ≡ false) × (b ≡ false)
or_false {a = true} h = cc
or_false {a = false} h = (refl, h)

not_parent : {b : Bool} → b ≡ false → (true && not b) ≡ false → true ≡ false
not_parent {b = true} h k = h
not_parent {b = false} h k = k

enter-IsPlain :
    (entered : List Text) (part : Text)
    → All IsPlain entered
    → NoSlash part
    → All IsPlain (enter true entered part)
enter-IsPlain [] part a n =
    if_ind {A = List Text} (All IsPlain) (is_nothing part || same part (codes "..")) _ _ (λ e. tt)
      (λ e. let (p, q) = or_false e in ((p, q, n), tt))
enter-IsPlain (last ∷ before) part a n =
    if_ind {A = List Text} (All IsPlain) (is_nothing part) _ _ (λ e. a)
      (λ e.
        if_ind {A = List Text} (All IsPlain)
          (same part (codes "..") && not (same last (codes ".."))) _ _ (λ f. a.1)
          (λ f. ((e, no_parent _ f, n), a)))
  where
    no_parent : (b : Bool) → (b && not (same last (codes ".."))) ≡ false → b ≡ false
    no_parent false h = refl
    no_parent true h = not_parent a.0.1 h

pub components-IsPlain :
    (entered parts : List Text)
    → All IsPlain entered
    → All NoSlash parts
    → All IsPlain (components true entered parts)
components-IsPlain entered [] a n = a
components-IsPlain entered (part ∷ parts) a n =
    components-IsPlain (enter true entered part) parts (enter-IsPlain entered part a n.0) n.1

pub reversed-IsPlain :
    (xs onto : List Text) → All IsPlain xs → All IsPlain onto → All IsPlain (reversed xs onto)
reversed-IsPlain [] onto a b = b
reversed-IsPlain (x ∷ xs) onto a b = reversed-IsPlain xs (x ∷ onto) a.1 (a.0, b)

split_on-append :
    (part rest : Text) → NoSlash part → split_on 47 (part ++ 47 ∷ rest) ≡ part ∷ split_on 47 rest
split_on-append [] rest n = refl
split_on-append (c ∷ part) rest n = rw (n.0, split_on-append part rest n.1) refl

split_on_whole : (part : Text) → NoSlash part → split_on 47 part ≡ part ∷ []
split_on_whole [] n = refl
split_on_whole (c ∷ part) n = rw (n.0, split_on_whole part n.1) refl

-- The components that are joined are those that are split.
split_on-join :
    (part : Text) (parts : List Text)
    → All NoSlash (part ∷ parts)
    → split_on 47 (join 47 (part ∷ parts)) ≡ part ∷ parts
split_on-join part [] n = split_on_whole part n.0
split_on-join part (next ∷ parts) n =
    split_on-append part (join 47 (next ∷ parts)) n.0
    ∙ ap (λ l. part ∷ l) (split_on-join next parts n.1)

abbrev pub something : Text → Bool
something part = not (is_nothing part)

keep-IsPlain : (parts : List Text) → All IsPlain parts → keep something parts ≡ parts
keep-IsPlain [] a = refl
keep-IsPlain (part ∷ parts) a = rw (a.0.0, keep-IsPlain parts a.1) refl

plain_NoSlash : (parts : List Text) → All IsPlain parts → All NoSlash parts
plain_NoSlash [] a = tt
plain_NoSlash (part ∷ parts) a = (a.0.2, plain_NoSlash parts a.1)

pub kept_parts :
    (parts : List Text) → All IsPlain parts → keep something (split_on 47 (join 47 parts)) ≡ parts
kept_parts [] a = refl
kept_parts (part ∷ parts) a =
    ap (keep something) (split_on-join part parts (plain_NoSlash (part ∷ parts) a))
    ∙ keep-IsPlain (part ∷ parts) a
