-- ===== src/Api/Benchmarks.antt =====
-- The current benchmark report is among those that `benchmarks` answers.
use conflict_graph.Prelude.{
  ℕ, zero, suc, ◌≤◌, ◌<◌, ◌≡◌, refl, ap, subst, ◌∙◌, Bool, true, some, List, [], ◌∷◌, any, take,
  length, length-take, sort_by, Bool-cases, inl, inr, arith,
}
use conflict_graph.Prelude.Int.{pos}
use conflict_graph.Prelude.Text.{Text, codes}
use conflict_graph.Prelude.Float.{Float}
use conflict_graph.Storage.{
  File, Files, Answer, raised, returned, ◌>>=◌, object, read_all, matching, newer, slice,
  safe_segment, list_artifacts,
}
use conflict_graph.Api.Answers.{>>=-answered, from_store-answered}
use conflict_graph.Api.{
  Json, Response, answered, from_store, is_object, same_report, with_current, merged, benchmarks,
}

next_step {ℓ κ} :
    {A : Type ℓ} {B : Type κ} (m : Answer A) (f : A → Answer B) {b : B}
    → (m >>= f) ≡ returned b
    → (a : A) × (m ≡ returned a) × (f a ≡ returned b)
next_step (raised e) f h = cc
next_step (returned a) f h = (a, refl, h)

returned_value {ℓ} :
    {A : Type ℓ} {m : Response A} {a b : A} → m ≡ answered a → m ≡ answered b → a ≡ b
returned_value h k = cc

module _ {F V : Type 0} ⦃fl : Float F⦄ (json : Json F V) (is_alnum : ℕ → Bool) where
  length-read_all :
      (files : List File) (values : List V)
      → read_all json.loads (is_object json) files ≡ returned values
      → length values ≤ length files
  unfolding read_all
  length-read_all [] values h =
      let e : [] ≡ values = cc in subst (λ l. length l ≤ 0) e (omega arith)
  length-read_all (file ∷ files) values h =
      let (value, p, h1) =
        next_step (object json.loads (is_object json) (json.loads file.content)) _ h in
      let (rest, q, h2) = next_step (read_all json.loads (is_object json) files) _ h1 in
      let e : value ∷ rest ≡ values = cc in
      let l = length-read_all files rest q in
      subst (λ vs. length vs ≤ suc (length files)) e (omega (arith, l))

  length-list_artifacts :
      (category : Text) (limit : ℕ) (files : Files) (values : List V)
      → list_artifacts is_alnum json.loads (is_object json) category (pos limit) files
        ≡ returned values
      → length values ≤ limit
  unfolding list_artifacts
  length-list_artifacts category limit files values h =
      let (c, p, read) = next_step (safe_segment is_alnum category (codes "category")) _ h in
      let sorted = sort_by newer (matching c files) in
      let l = length-read_all (take (slice (pos limit)) sorted) values read in
      let m = length-take (slice (pos limit)) sorted in ground (arith, l, m)

  take-all : (n : ℕ) (xs : List V) → length xs ≤ n → take n xs ≡ xs
  take-all zero [] h = refl
  take-all zero (x ∷ xs) h = elim h [ ]
  take-all (suc n) [] h = refl
  take-all (suc n) (x ∷ xs) h = ap (λ l. x ∷ l) (take-all n xs (omega (arith, h)))

  first_kept :
      (current : V) (stored : List V) (limit : ℕ)
      → same_report json current current ≡ true
      → 0 < limit
      → any (same_report json current) (take limit (current ∷ stored)) ≡ true
  first_kept current stored zero s p = elim p [ ]
  first_kept current stored (suc limit) s p = rw s refl

  current_kept :
      (current : V) (stored : List V) (limit : ℕ)
      → same_report json current current ≡ true
      → 0 < limit
      → length stored ≤ limit
      → any (same_report json current) (take limit (with_current json current stored)) ≡ true
  current_kept current stored limit s p l =
      elim (Bool-cases (any (same_report json current) stored)) [
        | inl e ↦ rw (e, take-all limit stored l) e
        | inr e ↦ rw e (first_kept current stored limit s p)
      ]

  merged-object :
      (text : Text) (current : V) (stored : List V)
      → json.loads text ≡ some current
      → is_object json current ≡ true
      → merged json (some text) stored ≡ answered (with_current json current stored)
  merged-object text current stored p q = rw (p, q) refl

  abbrev stored_reports : ℕ → Files → Answer (List V)
  unfolding list_artifacts
  stored_reports limit files =
      list_artifacts is_alnum json.loads (is_object json) (codes "benchmarks") (pos limit) files

  abbrev IsCurrent : V → ℕ → List V → Type 0
  IsCurrent current limit reports =
      (length reports ≤ limit) × (any (same_report json current) reports ≡ true)

  -- When benchmark.json holds an object, whose `created_at` is equal to itself, and the limit is above
  -- 0: what `benchmarks` answers has at most `limit` reports, and one with the `created_at` of that
  -- object is among them.
  pub benchmarks-current :
      (text : Text) (current : V) (files : Files) (limit : ℕ) (reports : List V)
      → json.loads text ≡ some current
      → is_object json current ≡ true
      → same_report json current current ≡ true
      → 0 < limit
      → benchmarks json is_alnum (some text) files limit ≡ answered reports
      → (length reports ≤ limit) × (any (same_report json current) reports ≡ true)
  unfolding benchmarks
  benchmarks-current text current files limit reports p q s l h =
      let (stored, e, h1) = >>=-answered (from_store (stored_reports limit files)) _ h in
      let (all, m, h2) = >>=-answered (merged json (some text) stored) _ h1 in
      let kept : with_current json current stored ≡ all =
        returned_value (merged-object text current stored p q) m in
      let last : take limit all ≡ reports = cc in
      let short =
        length-list_artifacts (codes "benchmarks") limit files stored
          (from_store-answered (stored_reports limit files) e) in
      subst (IsCurrent current limit) (ap (take limit) kept ∙ last) (
        length-take limit (with_current json current stored),
        current_kept current stored limit s l short,
      )
