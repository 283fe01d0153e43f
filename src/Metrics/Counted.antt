-- ===== src/Metrics/Counted.antt =====
-- What the bins of the calibration error and the confusion matrix count.
use conflict_graph.Prelude.{
  ℕ, zero, suc, ◌+◌, ◌≤◌, ◌<◌, ◌≡◌, ◌∙◌, refl, sym, subst, Bool, true, false, not, ◌&&◌, List, [],
  ◌∷◌, All, ◌==◌, length, range, range_from, if◌then◌else◌, arith,
}
use conflict_graph.Prelude.Float.{Float, IsOrdered, ◌≼◌}
use conflict_graph.Metrics.{count, in_bin, confusion}

abbrev bit : Bool → ℕ
bit b = if b then 1 else 0

module _ {F : Type 0} ⦃fl : Float F⦄ (o : IsOrdered F) (boundaries : ℕ → F)
    (rise : (i : ℕ) → boundaries i ≼ boundaries (i + 1)) (bins : ℕ) (p : F)
    (top : p ≼ boundaries bins) where
  last_bin :
      (i : ℕ) → i + 1 ≡ bins → bit (in_bin boundaries bins i p) ≡ bit (fl.le (boundaries i) p)
  last_bin i e =
      let under : p ≼ boundaries (i + 1) = subst (λ k. p ≼ boundaries k) (sym e) top in
      ground (arith, under)

  inner_bin :
      (i : ℕ)
      → i + 1 < bins
      → bit (in_bin boundaries bins i p) + bit (fl.le (boundaries (i + 1)) p)
        ≡ bit (fl.le (boundaries i) p)
  inner_bin i l = ground (arith, rise i, o.le_trans (boundaries i) (boundaries (i + 1)) p)

  bins_from :
      (n i : ℕ)
      → i + suc n ≡ bins
      → count (λ index. in_bin boundaries bins index p) (range_from (suc n) i)
        ≡ bit (fl.le (boundaries i) p)
  bins_from zero i e = omega (arith, last_bin i (omega (arith, e)))
  bins_from (suc n) i e =
      let next : i + 1 ≡ suc i = omega arith in
      let later =
        subst
          (λ k.
            count (λ index. in_bin boundaries bins index p) (range_from (suc n) (suc i))
            ≡ bit (fl.le (boundaries k) p))
          (sym next) (bins_from n (suc i) (omega (arith, e))) in
      let here = inner_bin i (omega (arith, e)) in omega (arith, later, here)

-- When the boundaries do not fall, a number from the first to the last is in exactly one bin.
pub in_bin_once :
    {F : Type 0} ⦃fl : Float F⦄ (o : IsOrdered F) (boundaries : ℕ → F) (bins : ℕ) (p : F)
    → ((i : ℕ) → boundaries i ≼ boundaries (i + 1))
    → 0 < bins
    → boundaries 0 ≼ p
    → p ≼ boundaries bins
    → count (λ index. in_bin boundaries bins index p) (range bins) ≡ 1
in_bin_once o boundaries zero p rise l low top = ground arith
in_bin_once o boundaries (suc n) p rise l low top =
    bins_from o boundaries rise (suc n) p top n 0 (omega arith) ∙ rw low refl

add_bits :
    (a b c d n : ℕ) (w x y z : ℕ)
    → w + x + y + z ≡ 1
    → a + b + c + d ≡ n
    → (w + a) + (x + b) + (y + c) + (z + d) ≡ suc n
add_bits a b c d n w x y z h k = omega (arith, h, k)

add_pair : (a d n w z m : ℕ) → w + z ≡ m → a + d ≡ n → (w + a) + (z + d) ≡ m + n
add_pair a d n w z m h k = omega (arith, h, k)

two_squares : (a b : Bool) → bit (a && b) + bit (a && not b) ≡ bit a
two_squares true true = omega arith
two_squares true false = omega arith
two_squares false b = omega arith

module _ {F : Type 0} ⦃fl : Float F⦄ (threshold : F) where
  one_square :
      (label : ℕ) (p : F)
      → label ≤ 1
      → bit (label == 1 && fl.le threshold p)
          + bit (label == 0 && fl.le threshold p)
          + bit (label == 0 && not (fl.le threshold p))
          + bit (label == 1 && not (fl.le threshold p))
        ≡ 1
  one_square label p l = ground arith

  -- When the labels are 0 and 1 and there are as many probabilities: every example is in one square
  -- of the confusion matrix, and those labelled 1 are the true positives and the false negatives.
  pub confusion_total :
      (y : List ℕ) (p : List F)
      → All (λ label. label ≤ 1) y
      → length y ≡ length p
      → let c = confusion threshold y p in
        (c.tp + c.fp + c.tn + c.fn ≡ length y) × (c.tp + c.fn ≡ count (λ label. label == 1) y)
  unfolding confusion
  confusion_total [] p a e = (omega arith, omega arith)
  confusion_total (label ∷ y) [] a e = ground arith
  confusion_total (label ∷ y) (x ∷ p) a e =
      let (whole, ones) = confusion_total y p a.1 (omega (arith, e)) in
      (
        add_bits _ _ _ _ (length y) _ _ _ _ (one_square label x a.0) whole,
        add_pair _ _ _ _ _ _ (two_squares (label == 1) (fl.le threshold x)) ones,
      )
