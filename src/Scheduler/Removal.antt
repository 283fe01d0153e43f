-- ===== src/Scheduler/Removal.antt =====
-- `remaining.remove(chosen)`, and the indices of lanes and ends.
use mathlib.Core.List.Perm
use mathlib.Core.List.{Memᴰ}
use conflict_graph.Prelude.{
  ℕ, zero, suc, ◌+◌, ◌<◌, ◌≡◌, refl, sym, ap, some, List, [], ◌∷◌, arith, Bool-cases, inl, inr, All,
  Perm, same, same_iff, length, get_elem?, get_or, set, range, range_from, replicate,
}
use conflict_graph.Prelude.Text.{Text, text_eq}
use conflict_graph.Scheduler.Place.{remove_text}

-- `ys` is `xs` without one `x`.
pub record Removed (x : Text) (xs ys : List Text) : Type 1 where
  pub perm : Perm xs (x ∷ ys)
  pub shorter : length xs ≡ suc (length ys)
  pub keeps : (P : Text → Type 0) → All P xs → All P ys

-- An element can be removed.
pub remove_text-some :
    (x : Text) (xs : List Text)
    → Memᴰ x xs
    → (ys : List Text) × (remove_text x xs ≡ some ys) × Removed x xs ys
unfolding remove_text
remove_text-some x [] m = elim m [ ]
remove_text-some x (y ∷ xs) (Memᴰ.head e) =
    let e' : y ≡ x = sym e in
    (
      xs,
      rw ((same_iff y x).1 e'),
      record { perm = rw e' (Perm.refl (x ∷ xs)); shorter = refl; keeps = λ P p. p.1 },
    )
remove_text-some x (y ∷ xs) (Memᴰ.tail m) = elim (Bool-cases (same y x)) [
  | inl e ↦ (
    xs,
    rw e,
    record {
      perm = rw ((same_iff y x).0 e) (Perm.refl (x ∷ xs));
      shorter = refl;
      keeps = λ P p. p.1;
    },
  )
  | inr e ↦
      let (ys, found, r) = remove_text-some x xs m in
      (
        y ∷ ys,
        rw (e, found),
        record {
          perm = Perm.trans (Perm.cons y r.perm) (Perm.swap x y ys);
          shorter = ap suc r.shorter;
          keeps = λ P p. (p.0, r.keeps P p.1);
        },
      )
]

Mem-range_from : (n i : ℕ) {j : ℕ} → Memᴰ j (range_from n i) → j < i + n
Mem-range_from zero i m = elim m [ ]
Mem-range_from (suc n) i (Memᴰ.head e) = omega arith
Mem-range_from (suc n) i (Memᴰ.tail m) = omega (arith, Mem-range_from n (suc i) m)

pub Mem-range : (n : ℕ) {j : ℕ} → Memᴰ j (range n) → j < n
Mem-range n m = omega (arith, Mem-range_from n 0 m)

module _ {ℓ} {A : Type ℓ} where
  pub get_or-set_self :
      (xs : List A) (i : ℕ) (v d : A) → i < length xs → get_or (set xs i v) i d ≡ v
  get_or-set_self [] i v d h = elim h [ ]
  get_or-set_self (x ∷ xs) zero v d h = refl
  get_or-set_self (x ∷ xs) (suc i) v d h = get_or-set_self xs i v d (omega arith)

  pub get_or-set_ne :
      (xs : List A) (i j : ℕ) (v d : A) → (i ≡ j → ⊥) → get_or (set xs i v) j d ≡ get_or xs j d
  get_or-set_ne [] i j v d h = refl
  get_or-set_ne (x ∷ xs) zero zero v d h = absurd (h refl)
  get_or-set_ne (x ∷ xs) zero (suc j) v d h = refl
  get_or-set_ne (x ∷ xs) (suc i) zero v d h = refl
  get_or-set_ne (x ∷ xs) (suc i) (suc j) v d h = get_or-set_ne xs i j v d (λ e. h (ap suc e))

  pub get_elem?-get_or :
      (xs : List A) (i : ℕ) (d : A) → i < length xs → get_elem? xs i ≡ some (get_or xs i d)
  get_elem?-get_or [] i d h = elim h [ ]
  get_elem?-get_or (x ∷ xs) zero d h = refl
  get_elem?-get_or (x ∷ xs) (suc i) d h = get_elem?-get_or xs i d (omega arith)

  pub get_or-replicate : (n i : ℕ) (d : A) → get_or (replicate n d) i d ≡ d
  get_or-replicate zero i d = refl
  get_or-replicate (suc n) zero d = refl
  get_or-replicate (suc n) (suc i) d = get_or-replicate n i d

  pub get_elem?-set_self :
      (xs : List A) (i : ℕ) (v : A) → i < length xs → get_elem? (set xs i v) i ≡ some v
  get_elem?-set_self [] i v h = elim h [ ]
  get_elem?-set_self (x ∷ xs) zero v h = refl
  get_elem?-set_self (x ∷ xs) (suc i) v h = get_elem?-set_self xs i v (omega arith)
