-- ===== src/Metrics.antt =====
-- python/conflictgraph/metrics.py on lists in place of numpy's arrays. `np.linspace`, `np.argsort`,
-- the scores of sklearn and the bootstrap draws are parameters; `none` is a ValueError.
pub mod Counted
use conflict_graph.Prelude.{
  ℕ, zero, suc, ◌+◌, ◌-◌, ◌*◌, Bool, true, false, not, ◌&&◌, ◌||◌, Option, none, some, List, [],
  ◌∷◌, map, keep, any, is_empty, ltb, ◌==◌, length, range, get_elem?, foldl, if◌then◌else◌, ◌>>=◌,
}
use conflict_graph.Prelude.Float.{Float, nought, unit, lt, eq, fmin, fmax}
use conflict_graph.Types.Events.{of_ℕ}

pub record Counts : Type 0 where
  pub tp : ℕ
  pub fp : ℕ
  pub tn : ℕ
  pub fn : ℕ

pub record ClassificationMetrics (F : Type 0) : Type 0 where
  pub pr_auc : F
  pub roc_auc : F
  pub precision : F
  pub recall : F
  pub f1 : F
  pub brier_score : F
  pub expected_calibration_error : F
  pub threshold : F
  pub confusion_matrix : List (List ℕ)

-- The two functions of sklearn.metrics.
pub record Scores (F : Type 0) : Type 0 where
  pub average_precision_score : List ℕ → List F → F
  pub roc_auc_score : List ℕ → List F → F

abbrev pub count {ℓ} : {A : Type ℓ} → (A → Bool) → List A → ℕ
count p [] = 0
count p (x ∷ xs) = (if p x then 1 else 0) + count p xs

abbrev pub zip {ℓ κ} : {A : Type ℓ} {B : Type κ} → List A → List B → List (A × B)
zip [] ys = []
zip (x ∷ xs) [] = []
zip (x ∷ xs) (y ∷ ys) = (x, y) ∷ zip xs ys

abbrev pub total_of : List ℕ → ℕ
total_of [] = 0
total_of (x ∷ xs) = x + total_of xs

-- labels[index], with 0 out of range
abbrev pub label_at : List ℕ → ℕ → ℕ
label_at [] index = 0
label_at (x ∷ xs) zero = x
label_at (x ∷ xs) (suc index) = label_at xs index

-- len(set(labels)) > 1
abbrev pub is_mixed : List ℕ → Bool
is_mixed [] = false
is_mixed (y ∷ ys) = any (λ z. not (z == y)) ys

module _ {F : Type 0} ⦃fl : Float F⦄ where
  open fl use {le, lit, add, sub, mul, div}

  abbrev pub sum_of : List F → F
  sum_of xs = foldl add nought xs

  -- np.mean
  abbrev pub mean : List F → F
  mean xs = div (sum_of xs) (of_ℕ (length xs))

  abbrev pub magnitude : F → F
  magnitude x = if lt x nought then sub nought x else x

  -- The mask of a bin: its upper boundary is in it only if it is the last.
  abbrev pub in_bin : (ℕ → F) → ℕ → ℕ → F → Bool
  in_bin boundaries bins index p =
      le (boundaries index) p
      && (if ltb (index + 1) bins
          then lt p (boundaries (index + 1))
          else le p (boundaries (index + 1)))

  -- What a bin adds to the error.
  abbrev pub bin_error : ℕ → List (ℕ × F) → F
  bin_error size [] = nought
  bin_error size (x ∷ xs) =
      mul (div (of_ℕ (length (x ∷ xs))) (of_ℕ size))
        (magnitude (sub (mean (map (λ e. of_ℕ e.0) (x ∷ xs))) (mean (map (λ e. e.1) (x ∷ xs)))))

  -- `boundaries` are those of np.linspace(0.0, 1.0, bins + 1).
  unfoldable pub expected_calibration_error : (ℕ → F) → List ℕ → List F → ℕ → Option F
  expected_calibration_error boundaries labels probabilities bins =
      if bins == 0 || not (length labels == length probabilities)
      then none
      else if is_empty labels
      then some nought
      else some (
          foldl
            (λ error index. add error (
              bin_error (length labels)
                (keep (λ e. in_bin boundaries bins index e.1) (zip labels probabilities))))
            nought (range bins))

  -- labels == 1 and predictions, and the three other sums
  unfoldable pub confusion : F → List ℕ → List F → Counts
  confusion threshold y p = record {
    tp = count (λ e. e.0 == 1 && le threshold e.1) (zip y p);
    fp = count (λ e. e.0 == 0 && le threshold e.1) (zip y p);
    tn = count (λ e. e.0 == 0 && not (le threshold e.1)) (zip y p);
    fn = count (λ e. e.0 == 1 && not (le threshold e.1)) (zip y p);
  }

  abbrev pub ratio : ℕ → ℕ → F
  ratio n d = if d == 0 then nought else div (of_ℕ n) (of_ℕ d)

  -- The loop of `_average_precision`, over the labels in the order of the probabilities.
  abbrev pub precision_from : ℕ → ℕ → F → List ℕ → F
  precision_from rank hits total [] = total
  precision_from rank hits total (label ∷ labels) =
      precision_from (rank + 1) (if label == 0 then hits else hits + 1)
        (if label == 0 then total else add total (div (of_ℕ (hits + 1)) (of_ℕ rank))) labels

  -- `argsort` is np.argsort(-probabilities).
  unfoldable pub average_precision : (List F → List ℕ) → List ℕ → List F → F
  average_precision argsort labels probabilities =
      let positive = total_of labels in
      let total = precision_from 1 0 nought (map (label_at labels) (argsort probabilities)) in
      if positive == 0 then nought else div total (of_ℕ positive)

  abbrev pub labelled : ℕ → List ℕ → List F → List F
  labelled label y p = map (λ e. e.1) (keep (λ e. e.0 == label) (zip y p))

  abbrev pub win : F → F → F
  win left right =
      add (if lt right left then unit else nought)
        (mul (lit 5 1) (if eq left right then unit else nought))

  -- The sum over the right side for each of the left side, in the order of the loops.
  abbrev pub wins : List F → List F → F
  wins positive negative =
      foldl (λ sum left. foldl (λ sum' right. add sum' (win left right)) sum negative) nought
        positive

  unfoldable pub roc_auc : List ℕ → List F → F
  roc_auc labels probabilities =
      let positive = labelled 1 labels probabilities in
      let negative = labelled 0 labels probabilities in
      if is_empty positive || is_empty negative
      then lit 5 1
      else div (wins positive negative) (of_ℕ (length positive * length negative))

  abbrev pub pr_auc_of : Option (Scores F) → (List F → List ℕ) → List ℕ → List F → F
  pr_auc_of none argsort y p = average_precision argsort y p
  pr_auc_of (some sklearn) argsort y p =
      if is_empty y then nought else sklearn.average_precision_score y p

  abbrev pub roc_auc_of : Option (Scores F) → List ℕ → List F → F
  roc_auc_of none y p = roc_auc y p
  roc_auc_of (some sklearn) y p = if is_mixed y then sklearn.roc_auc_score y p else lit 5 1

  abbrev pub f1_of : F → F → F
  f1_of precision recall =
      let both = add precision recall in
      if eq both nought then nought else div (mul (mul (of_ℕ 2) precision) recall) both

  abbrev pub squared_error : ℕ × F → F
  squared_error (label, p) = let d = sub p (of_ℕ label) in mul d d

  -- `sklearn` is none when it cannot be imported.
  unfoldable pub classification_metrics :
      Option (Scores F)
      → (List F → List ℕ)
      → (ℕ → F)
      → List ℕ
      → List F
      → F
      → Option (ClassificationMetrics F)
  unfolding expected_calibration_error confusion average_precision roc_auc
  classification_metrics sklearn argsort boundaries y given threshold =
      let p = map (λ x. fmin unit (fmax nought x)) given in
      let c = confusion threshold y p in
      let precision = ratio c.tp (c.tp + c.fp) in
      let recall = ratio c.tp (c.tp + c.fn) in
      do
        calibration ← expected_calibration_error boundaries y p 10
        some (record {
          pr_auc = pr_auc_of sklearn argsort y p;
          roc_auc = roc_auc_of sklearn y p;
          precision = precision;
          recall = recall;
          f1 = f1_of precision recall;
          brier_score = if is_empty y then nought else mean (map squared_error (zip y p));
          expected_calibration_error = calibration;
          threshold = threshold;
          confusion_matrix = (c.tn ∷ c.fp ∷ []) ∷ (c.fn ∷ c.tp ∷ []) ∷ [];
        })
