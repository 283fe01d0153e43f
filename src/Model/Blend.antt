-- ===== src/Model/Blend.antt =====
-- Where the model's numbers take the place of the heuristic ones.
use mathlib.Core.List.{Memᴰ}
use conflict_graph.Prelude.{
  ℕ, ◌≡◌, refl, sym, ap, subst, ◌∙◌, false, Option, none, some, List, [], ◌∷◌, map, if_ind,
  same_iff, pair_eq, arith,
}
use conflict_graph.Prelude.Text.{Text, text_eq, text_lt}
use conflict_graph.Prelude.Dict.{Dict, get, put, get-put_self, get-put_ne}
use conflict_graph.Prelude.Sets.{contains}
use conflict_graph.Prelude.Unique.{IsUnique}
use conflict_graph.Prelude.Float.{Float, nought, unit, fmin, fmax}
use conflict_graph.Types.Prediction.{PairPrediction, post_init}
use conflict_graph.Dataset.{PairExample}
use conflict_graph.Model.{pair_of, drafted, remade, blend}

module _ {F : Type 0} ⦃fl : Float F⦄ where
  -- The pairs of the examples.
  abbrev pub pairs_of : List (PairExample F × F) → List (Text × Text)
  pairs_of = map (λ x. pair_of x.0)

  -- A prediction that carries the model's number, held within 0 and 1, and its version.
  abbrev pub IsFrom : Text → F → PairPrediction F → Type 0
  IsFrom version p v = (v.probability ≡ fmax nought (fmin unit p)) × (v.model_version ≡ version)

  post_init-IsFrom :
      (version : Text) (v : PairPrediction F)
      → v.model_version ≡ version
      → IsFrom version v.probability (post_init v)
  unfolding post_init
  post_init-IsFrom version v h =
      if_ind {A = PairPrediction F} (IsFrom version v.probability) (text_lt v.test_b v.test_a) _ _
        (λ _. (refl, h)) (λ _. (refl, h))

  remade-IsFrom :
      (version : Text) (now : ℕ) (base : Option (PairPrediction F)) (e : PairExample F) (p : F)
      → IsFrom version p (remade version now base e p)
  unfolding remade
  remade-IsFrom version now none e p = post_init-IsFrom version (drafted version now none e p) refl
  remade-IsFrom version now (some base) e p =
      post_init-IsFrom version (drafted version now (some base) e p) refl

  -- A pair without an example keeps its heuristic prediction, or stays without one.
  pub blend-keeps :
      (version : Text) (now : ℕ) (by_pair : Dict (Text × Text) (PairPrediction F))
      (examples : List (PairExample F × F)) (k : Text × Text)
      → contains k (pairs_of examples) ≡ false
      → get k (blend version now by_pair examples) ≡ get k by_pair
  unfolding blend
  blend-keeps version now by_pair [] k h = refl
  blend-keeps version now by_pair ((e, p) ∷ examples) k h =
      blend-keeps version now
        (put (pair_of e) (remade version now (get (pair_of e) by_pair) e p) by_pair) examples k
        (ground arith)
      ∙ get-put_ne (pair_of e) k (remade version now (get (pair_of e) by_pair) e p) by_pair
          (λ q. ground (arith, (same_iff (pair_of e) k).1 q))

  -- When no pair has two examples, each example's pair is predicted with the number that the model
  -- gives for that example, held within 0 and 1, under the model's version.
  pub blend-IsFrom :
      (version : Text) (now : ℕ) (by_pair : Dict (Text × Text) (PairPrediction F))
      (examples : List (PairExample F × F)) (e : PairExample F) (p : F)
      → IsUnique (pairs_of examples)
      → Memᴰ (e, p) examples
      → (v : PairPrediction F) × (get (pair_of e) (blend version now by_pair examples) ≡ some v)
        × IsFrom version p v
  unfolding blend
  blend-IsFrom version now by_pair [] e p u m = elim m [ ]
  blend-IsFrom version now by_pair ((d, q) ∷ examples) e p u (Memᴰ.head h) =
      let same_e : e ≡ d = ap (λ x. x.0) h in
      let same_p : p ≡ q = ap (λ x. x.1) h in
      let made = remade version now (get (pair_of d) by_pair) d q in
      (
        made,
        ap (λ x. get (pair_of x) (blend version now (put (pair_of d) made by_pair) examples)) same_e
            ∙ (blend-keeps version now (put (pair_of d) made by_pair) examples (pair_of d) u.0
                ∙ get-put_self (pair_of d) made by_pair),
        subst (λ x. IsFrom version x made) (sym same_p)
            (remade-IsFrom version now (get (pair_of d) by_pair) d q),
      )
  blend-IsFrom version now by_pair ((d, q) ∷ examples) e p u (Memᴰ.tail m) =
      blend-IsFrom version now
        (put (pair_of d) (remade version now (get (pair_of d) by_pair) d q) by_pair) examples e p
        u.1 m
