-- ===== src/Prelude/Perms.antt =====
-- Permutations and lists of lists: what moves between lists is neither lost nor made up.
use Prim.Native.Nat.{ℕ, zero, suc}
use mathlib.Core.Path.{◌≡◌, refl, subst, ap, ◌∙◌}
use mathlib.Core.Logic.{∥∥₁_elim}
use mathlib.Core.List.Perm
use mathlib.Core.List.{List, [], ◌∷◌, ◌++◌, Perm, Permᴰ, append_assoc, perm_middle}
use native.Mathlib.Nat.{ℕ_set}
use mathlib.Core.Option.{some}
use conflict_graph.Prelude.Lists.{length, set, concat, get_elem?}

module _ {ℓ} {A : Type ℓ} where
  pub Perm-of_eq : {xs ys : List A} → xs ≡ ys → Perm xs ys
  Perm-of_eq {xs} e = subst (Perm xs) e (Perm.refl xs)

  length-Permᴰ : {xs ys : List A} → Permᴰ xs ys → length xs ≡ length ys
  length-Permᴰ Permᴰ.nil = refl
  length-Permᴰ (Permᴰ.cons _ p) = ap suc (length-Permᴰ p)
  length-Permᴰ (Permᴰ.swap _ _) = refl
  length-Permᴰ (Permᴰ.trans p q) = length-Permᴰ p ∙ length-Permᴰ q

  pub length-Perm : {xs ys : List A} → Perm xs ys → length xs ≡ length ys
  length-Perm p = ∥∥₁_elim p (ℕ_set _ _) length-Permᴰ

  -- A list put in place of its permutation.
  pub concat-set_perm :
      (xss : List (List A)) (i : ℕ) {xs ys : List A}
      → get_elem? xss i ≡ some xs
      → Perm ys xs
      → Perm (concat (set xss i ys)) (concat xss)
  concat-set_perm [] i h p = cc
  concat-set_perm (zs ∷ xss) zero {xs} {ys} h p =
      let e : xs ≡ zs = cc in Perm.append (subst (Perm ys) e p) (Perm.refl (concat xss))
  concat-set_perm (zs ∷ xss) (suc i) h p = Perm.append_left zs (concat-set_perm xss i h p)

  -- An element added at the end of one of the lists.
  pub concat-set_snoc :
      (xss : List (List A)) (i : ℕ) (x : A) {xs : List A}
      → get_elem? xss i ≡ some xs
      → Perm (concat (set xss i (xs ++ x ∷ []))) (x ∷ concat xss)
  concat-set_snoc [] i x h = cc
  concat-set_snoc (zs ∷ xss) zero x {xs} h =
      let e : zs ≡ xs = cc in rw (e, append_assoc) (perm_middle xs (concat xss))
  concat-set_snoc (zs ∷ xss) (suc i) x h =
      Perm.trans (Perm.append_left zs (concat-set_snoc xss i x h)) (perm_middle zs (concat xss))
