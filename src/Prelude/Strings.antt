-- ===== src/Prelude/Strings.antt =====
-- The methods of Python's `str` that split, strip and join, on code points.
use Prim.Native.Nat.{ℕ}
use mathlib.Core.Path.{◌≡◌, refl, sym, ap, subst}
use mathlib.Core.Logic.{inl, inr}
use mathlib.Core.Bool.{Bool, true, false, ◌&&◌}
use mathlib.Core.List.{List, [], ◌∷◌, ◌++◌}
use mathlib.Core.Option.{Option, none, some, some_inj}
use conflict_graph.Prelude.Tests.{if◌then◌else◌, ◌==◌, ==_iff, Bool-cases}
use conflict_graph.Prelude.Lists.{is_empty, drop_while}
use conflict_graph.Prelude.Text.{Text}

-- text.rstrip(), for the characters that pass
abbrev pub drop_end : (ℕ → Bool) → Text → Text
drop_end p [] = []
drop_end p (c ∷ cs) = let rest = drop_end p cs in if is_empty rest && p c then [] else c ∷ rest

-- text.strip()
abbrev pub strip : (ℕ → Bool) → Text → Text
strip p text = drop_end p (drop_while p text)

abbrev pub all_of : (ℕ → Bool) → Text → Bool
all_of p [] = true
all_of p (c ∷ cs) = p c && all_of p cs

abbrev pub onto : ℕ → Option (Text × Text) → Option (Text × Text)
onto c none = none
onto c (some (before, after)) = some (c ∷ before, after)

-- text.split(c, 1), or text.partition(c): what is before the first c and after it
abbrev pub cut : ℕ → Text → Option (Text × Text)
cut c [] = none
cut c (d ∷ text) = let rest = onto d (cut c text) in if d == c then some ([], text) else rest

-- text.rpartition(c)
abbrev pub or_here : ℕ → ℕ → Text → Option (Text × Text) → Option (Text × Text)
or_here c d text none = if d == c then some ([], text) else none
or_here c d text (some (before, after)) = some (d ∷ before, after)

abbrev pub cut_last : ℕ → Text → Option (Text × Text)
cut_last c [] = none
cut_last c (d ∷ text) = or_here c d text (cut_last c text)

-- text.split(c)
abbrev pub onto_first : ℕ → List Text → List Text
onto_first d [] = (d ∷ []) ∷ []
onto_first d (part ∷ parts) = (d ∷ part) ∷ parts

abbrev pub split_on : ℕ → Text → List Text
split_on c [] = [] ∷ []
split_on c (d ∷ text) =
    let rest = split_on c text in if d == c then [] ∷ rest else onto_first d rest

-- separator.join(parts), for a separator of one character
abbrev pub join : ℕ → List Text → Text
join c [] = []
join c (part ∷ []) = part
join c (part ∷ next ∷ parts) = part ++ c ∷ join c (next ∷ parts)

-- text.replace(c, d)
abbrev pub replace_character : ℕ → ℕ → Text → Text
replace_character c d [] = []
replace_character c d (e ∷ text) = (if e == c then d else e) ∷ replace_character c d text

pair_eq_some :
    {a b c d : Text}
    → ◌≡◌ {A = Option (Text × Text)} (some (a, b)) (some (c, d))
    → (a ≡ c) × (b ≡ d)
pair_eq_some h =
    let e : ◌≡◌ {A = Text × Text} _ _ = some_inj.0 h in (ap (λ p. p.0) e, ap (λ p. p.1) e)

onto-some :
    (d : ℕ) (o : Option (Text × Text)) {before after : Text}
    → onto d o ≡ some (before, after)
    → (front : Text) × (o ≡ some (front, after)) × (before ≡ d ∷ front)
onto-some d none h = cc
onto-some d (some (front, rest)) h = let (e, f) = pair_eq_some h in (front, rw f refl, sym e)

pub cut-eq :
    (c : ℕ) (text before after : Text)
    → cut c text ≡ some (before, after)
    → text ≡ before ++ c ∷ after
cut-eq c [] before after h = cc
cut-eq c (d ∷ text) before after h = elim (Bool-cases (d == c)) [
  | inl e ↦
      let k : ◌≡◌ {A = Option (Text × Text)} (some ([], text)) (some (before, after)) =
        subst (λ b. (if b then some ([], text) else onto d (cut c text)) ≡ some (before, after)) e
          h in
      let (q, r) = pair_eq_some k in let n = (==_iff d c).0 e in rw (← q, ← r, n) refl
  | inr e ↦
      let k : onto d (cut c text) ≡ some (before, after) =
        subst (λ b. (if b then some ([], text) else onto d (cut c text)) ≡ some (before, after)) e
          h in
      let (front, q, r) = onto-some d (cut c text) k in rw (r, ← cut-eq c text front after q) refl
]

-- A text that is stripped at its end is what it is stripped to.
pub drop_end_twice : (p : ℕ → Bool) (text : Text) → drop_end p (drop_end p text) ≡ drop_end p text
drop_end_twice p [] = refl
drop_end_twice p (c ∷ text) = elim (Bool-cases (is_empty (drop_end p text) && p c)) [
  | inl e ↦ rw e refl
  | inr e ↦ rw (e, drop_end_twice p text, e) refl
]

-- What is left of a text in front of one that is stripped at its end.
pub drop_end-append :
    (p : ℕ → Bool) (s : Text) (c : ℕ) (t : Text)
    → drop_end p (c ∷ t) ≡ c ∷ t
    → drop_end p (s ++ c ∷ t) ≡ s ++ c ∷ t
drop_end-append p [] c t h = h
drop_end-append p (d ∷ []) c t h = rw h refl
drop_end-append p (d ∷ e ∷ s) c t h = rw (drop_end-append p (e ∷ s) c t h) refl

tail_of :
    (b : Bool) {d : ℕ} {rest text : Text} → (if b then [] else d ∷ rest) ≡ d ∷ text → rest ≡ text
tail_of true h = cc
tail_of false h = cc

-- The end of a text that is stripped at its end is so too.
pub drop_end-suffix :
    (p : ℕ → Bool) (s : Text) (t : Text) → drop_end p (s ++ t) ≡ s ++ t → drop_end p t ≡ t
drop_end-suffix p [] t h = h
drop_end-suffix p (d ∷ s) t h = drop_end-suffix p s t (tail_of _ h)

-- A character that is not stripped keeps its place.
pub drop_end-cons :
    (p : ℕ → Bool) (c : ℕ) (t : Text) → p c ≡ false → drop_end p (c ∷ t) ≡ c ∷ drop_end p t
drop_end-cons p c t h = elim (Bool-cases (is_empty (drop_end p t))) [
  | inl e ↦ rw (e, h) refl
  | inr e ↦ rw e refl
]

pub strip-cons :
    (p : ℕ → Bool) (c : ℕ) (t : Text) → p c ≡ false → strip p (c ∷ t) ≡ c ∷ drop_end p t
strip-cons p c t h = rw h (drop_end-cons p c t h)

drop_end-head :
    (p : ℕ → Bool) (u : Text) (c : ℕ) (t : Text) → drop_end p u ≡ c ∷ t → (s : Text) × (u ≡ c ∷ s)
drop_end-head p [] c t h = cc
drop_end-head p (d ∷ u) c t h = (u, head_of (is_empty (drop_end p u) && p d) _ h)
  where
    head_of :
        (b : Bool) (rest : Text)
        → (if b then [] else d ∷ rest) ≡ c ∷ t
        → ◌≡◌ {A = Text} (d ∷ u) (c ∷ u)
    head_of true rest h = cc
    head_of false rest h = cc

drop_while-head :
    (p : ℕ → Bool) (u : Text) (c : ℕ) (s : Text) → drop_while p u ≡ c ∷ s → p c ≡ false
drop_while-head p [] c s h = cc
drop_while-head p (d ∷ u) c s h = elim (Bool-cases (p d)) [
  | inl e ↦ drop_while-head p u c s (subst (λ b. (if b then drop_while p u else d ∷ u) ≡ c ∷ s) e h)
  | inr e ↦
      let k : d ∷ u ≡ c ∷ s = subst (λ b. (if b then drop_while p u else d ∷ u) ≡ c ∷ s) e h in
      let q : d ≡ c = cc in rw (← q) e
]

-- What is stripped begins with no character that is.
pub strip-head : (p : ℕ → Bool) (u : Text) (c : ℕ) (t : Text) → strip p u ≡ c ∷ t → p c ≡ false
strip-head p u c t h =
    let (s, e) = drop_end-head p (drop_while p u) c t h in drop_while-head p u c s e

pub strip_kept :
    (p : ℕ → Bool) (c : ℕ) (t : Text)
    → p c ≡ false
    → drop_end p (c ∷ t) ≡ c ∷ t
    → strip p (c ∷ t) ≡ c ∷ t
strip_kept p c t h e = rw h e
