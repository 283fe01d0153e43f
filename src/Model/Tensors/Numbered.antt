-- ===== src/Model/Tensors/Numbered.antt =====
-- The numbers that `graph_tensors` gives to the nodes, and the edges by them.
use conflict_graph.Prelude.{
  ℕ, suc, ◌+◌, ◌<◌, ◌≡◌, refl, sym, ap, subst, ◌∙◌, true, ◌||◌, some, List, [], ◌∷◌, ◌++◌, map,
  length, length-map, length-Perm, sort_by-perm, append_assoc, append-nil, Bool-cases, get_elem?,
  length-append, inl, inr, same, same_iff, arith, pair_eq,
}
use conflict_graph.Prelude.Text.{Text, text_eq, text_lt}
use conflict_graph.Prelude.Dict.{Dict, get, put, get-put, has, has-put, get-has}
use conflict_graph.Prelude.Sets.{contains}
use conflict_graph.Prelude.Unique.{contains-sort_by}
use conflict_graph.Model.Tensors.{sorted_keys, index_from, index_of, link_edges}

-- The numbers are below a bound.
abbrev pub AllBelow : ℕ → Dict Text ℕ → Type 0
AllBelow n d = (x : Text) (k : ℕ) → get x d ≡ some k → k < n

put-AllBelow : (n : ℕ) (x : Text) (d : Dict Text ℕ) → AllBelow n d → AllBelow (suc n) (put x n d)
put-AllBelow n x d a y k h = elim (Bool-cases (same x y)) [
  | inl e ↦
      let q : some n ≡ some k = sym (get-put x y n d ∙ rw e refl) ∙ h in
      let same_number : n ≡ k = cc in omega (arith, same_number)
  | inr e ↦
      let q : get y d ≡ some k = sym (get-put x y n d ∙ rw e refl) ∙ h in
      let b = a y k q in omega (arith, b)
]

index_from-AllBelow :
    (n : ℕ) (d : Dict Text ℕ) (xs : List Text)
    → AllBelow n d
    → AllBelow (n + length xs) (index_from n d xs)
unfolding index_from
index_from-AllBelow n d [] a y k h = let b = a y k h in omega (arith, b)
index_from-AllBelow n d (x ∷ xs) a y k h =
    let b = index_from-AllBelow (suc n) (put x n d) xs (put-AllBelow n x d a) y k h in
    omega (arith, b)

has-index_from :
    (n : ℕ) (d : Dict Text ℕ) (xs : List Text) (y : Text)
    → has y (index_from n d xs) ≡ (contains y xs || has y d)
unfolding index_from
has-index_from n d [] y = refl
has-index_from n d (x ∷ xs) y =
    ground (arith, has-index_from (suc n) (put x n d) xs y, has-put x y n d)

-- A number is the place of its text in the list.
abbrev Places : List Text → Dict Text ℕ → Type 0
Places ys d = (y : Text) (k : ℕ) → get y d ≡ some k → get_elem? ys k ≡ some y

get_elem?-middle :
    (before : List Text) (x : Text) (xs : List Text)
    → get_elem? (before ++ x ∷ xs) (length before) ≡ some x
get_elem?-middle [] x xs = refl
get_elem?-middle (y ∷ before) x xs = get_elem?-middle before x xs

put-Places :
    (ys : List Text) (n : ℕ) (x : Text) (d : Dict Text ℕ)
    → get_elem? ys n ≡ some x
    → Places ys d
    → Places ys (put x n d)
put-Places ys n x d at a y k h = elim (Bool-cases (same x y)) [
  | inl e ↦
      let q : some n ≡ some k = sym (get-put x y n d ∙ rw e refl) ∙ h in
      let number : n ≡ k = cc in
      let text : x ≡ y = (same_iff x y).0 e in
      subst (λ i. get_elem? ys i ≡ some y) number (subst (λ t. get_elem? ys n ≡ some t) text at)
  | inr e ↦ a y k (sym (get-put x y n d ∙ rw e refl) ∙ h)
]

index_from-Places :
    (before xs : List Text) (d : Dict Text ℕ)
    → Places (before ++ xs) d
    → Places (before ++ xs) (index_from (length before) d xs)
unfolding index_from
index_from-Places before [] d a = a
index_from-Places before (x ∷ xs) d a =
    let joined : (before ++ x ∷ []) ++ xs ≡ before ++ x ∷ xs = append_assoc before (x ∷ []) xs in
    let one_more : length (before ++ x ∷ []) ≡ suc (length before) =
      length-append before (x ∷ []) ∙ omega arith in
    let placed =
      put-Places (before ++ x ∷ xs) (length before) x d (get_elem?-middle before x xs) a in
    let rest =
      index_from-Places (before ++ x ∷ []) xs (put x (length before) d)
        (subst (λ ys. Places ys (put x (length before) d)) (sym joined) placed) in
    subst (λ ys. Places ys (index_from (suc (length before)) (put x (length before) d) xs)) joined
      (subst (λ n. Places ((before ++ x ∷ []) ++ xs) (index_from n (put x (length before) d) xs))
        one_more rest)

-- Each of the values has a number, which is its place and below their count.
numbered :
    (xs : List Text) (y : Text)
    → contains y xs ≡ true
    → (k : ℕ) × (get y (index_of xs) ≡ some k) × (k < length xs) × (get_elem? xs k ≡ some y)
numbered xs y h =
    let (k, e) = get-has y (index_of xs) (has-index_from 0 [] xs y ∙ rw h refl) in
    let b = index_from-AllBelow 0 [] xs (λ x n q. cc) y k e in
    (k, e, omega (arith, b), index_from-Places [] xs [] (λ x n q. cc) y k e)

contains-keys : {V : Type 0} (d : Dict Text V) (y : Text) → contains y (map (λ p. p.0) d) ≡ has y d
contains-keys [] y = refl
contains-keys ((x, v) ∷ d) y = ap (λ b. same x y || b) (contains-keys d y)

pub has-sorted_keys :
    {V : Type 0} (d : Dict Text V) (y : Text) → contains y (sorted_keys d) ≡ has y d
has-sorted_keys d y = contains-sort_by text_lt y (map (λ p. p.0) d) ∙ contains-keys d y

pub length-sorted_keys : {V : Type 0} (d : Dict Text V) → length (sorted_keys d) ≡ length d
length-sorted_keys d =
    length-Perm (sort_by-perm text_lt (map (λ p. p.0) d)) ∙ length-map (λ p. p.0) d

-- The link of an edge: `left` is the place of its test among the tests, and `right`, less the number
-- of tests, that of its resource among the resources.
abbrev pub IsLink : List Text → List Text → Text × Text → ℕ × ℕ → Type 0
IsLink tests resources (test_id, resource_id) (left, right) =
    (left < length tests)
    × (right < length tests + length resources)
    × (get_elem? tests left ≡ some test_id)
    × ((number : ℕ) × (right ≡ length tests + number)
        × (get_elem? resources number ≡ some resource_id))

-- A link for each edge, in the order of the edges.
abbrev pub AreLinks :
    {V : Type 0} → List Text → List Text → Dict (Text × Text) V → List (ℕ × ℕ) → Type 0
AreLinks tests resources [] [] = Unit
AreLinks tests resources [] (link ∷ links) = ⊥
AreLinks tests resources ((key, v) ∷ edges) [] = ⊥
AreLinks tests resources ((key, v) ∷ edges) (link ∷ links) =
    IsLink tests resources key link × AreLinks tests resources edges links

-- Each link in both directions.
abbrev pub from_ends : List (ℕ × ℕ) → List ℕ
from_ends [] = []
from_ends ((left, right) ∷ links) = left ∷ right ∷ from_ends links

abbrev pub to_ends : List (ℕ × ℕ) → List ℕ
to_ends [] = []
to_ends ((left, right) ∷ links) = right ∷ left ∷ to_ends links

module _ {V : Type 0} (tests resources : List Text) where
  abbrev Known : Dict (Text × Text) V → Type 0
  Known edges =
      (t r : Text)
      → has (t, r) edges ≡ true
      → (contains t tests ≡ true) × (contains r resources ≡ true)

  pub link_edges-AreLinks :
      (edges : Dict (Text × Text) V) (sources targets : List ℕ)
      → Known edges
      → (links : List (ℕ × ℕ)) × (link_edges
            (index_of tests)
            (index_of resources)
            (length tests)
            edges
            sources
            targets
          ≡ some (sources ++ from_ends links, targets ++ to_ends links))
        × AreLinks tests resources edges links
  unfolding link_edges
  link_edges-AreLinks [] sources targets k =
      ([], rw (append-nil sources, append-nil targets) refl, tt)
  link_edges-AreLinks (((t, r), v) ∷ edges) sources targets k =
      let (known_test, known_resource) = k t r (ground (arith, same_iff t t, same_iff r r)) in
      let (left, e, l, at_left) = numbered tests t known_test in
      let (number, f, m, at_number) = numbered resources r known_resource in
      let right = length tests + number in
      let (links, g, all) =
        link_edges-AreLinks edges (sources ++ left ∷ right ∷ []) (targets ++ right ∷ left ∷ [])
          (λ u q h. k u q (ground (arith, h))) in
      (
        (left, right) ∷ links,
        rw (e, f)
            (g
              ∙ rw
                  (
                    append_assoc sources (left ∷ right ∷ []) (from_ends links),
                    append_assoc targets (right ∷ left ∷ []) (to_ends links),
                  )
                  refl),
        ((l, omega (arith, m), at_left, (number, refl, at_number)), all),
      )
