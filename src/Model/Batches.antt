-- ===== src/Model/Batches.antt =====
-- `GNNTrainer._batches` and `_predict_indices` of python/conflictgraph/model.py, and the like loop of
-- `predict_artifact`: a sequence is cut into slices, which the network is given one after the other.
use native.Mathlib.Nat.{mod-lt, div-add-mod}
use conflict_graph.Prelude.{
  ℕ, zero, suc, ◌+◌, ◌-◌, ◌*◌, ◌/◌, ◌≤◌, ◌<◌, ◌≡◌, refl, ap, ◌∙◌, List, [], ◌∷◌, ◌++◌, map, concat,
  length, length-drop, length-take, take, drop, All, arith,
}
use mathlib.Core.List.{map-append}

-- The number of indices in range(0, n, size).
abbrev pub range_count : ℕ → ℕ → ℕ
range_count n size = (n + (size - 1)) / size

count_bounds :
    (n size : ℕ)
    → 0 < size
    → (n ≤ range_count n size * size) × (range_count n size * size < n + size)
count_bounds n size p =
    let below = mod-lt (n + (size - 1)) p in
    let split = div-add-mod (n + (size - 1)) size in
    (omega (arith, below, split), omega (arith, below, split))

module _ {ℓ} {A : Type ℓ} where
  -- [values[index : index + size] for index in range(0, len(values), size)], of `n` indices from one
  -- on; `rest` is what the index leaves.
  abbrev pub slices : ℕ → ℕ → List A → List (List A)
  slices zero size rest = []
  slices (suc n) size rest = take size rest ∷ slices n size (drop size rest)

  -- A size of 0 is a ValueError of `range`; callers have a size above it.
  unfoldable pub batches_of : ℕ → List A → List (List A)
  batches_of size values = slices (range_count (length values) size) size values

  -- `_batches`, with the shuffle of `random.Random(seed)`.
  unfoldable pub batches : (List A → List A) → ℕ → List A → List (List A)
  unfolding batches_of
  batches shuffle size indices = batches_of size (shuffle indices)

  abbrev pub IsBatch : ℕ → List A → Type 0
  IsBatch size batch = (0 < length batch) × (length batch ≤ size)

  take-drop : (n : ℕ) (xs : List A) → take n xs ++ drop n xs ≡ xs
  take-drop zero xs = refl
  take-drop (suc n) [] = refl
  take-drop (suc n) (x ∷ xs) = ap (λ l. x ∷ l) (take-drop n xs)

  take-IsBatch : (size : ℕ) (xs : List A) → 0 < size → 0 < length xs → IsBatch size (take size xs)
  take-IsBatch zero xs p q = elim p [ ]
  take-IsBatch (suc size) [] p q = elim q [ ]
  take-IsBatch (suc size) (x ∷ xs) p q = (omega arith, omega (arith, length-take size xs))

  slices_lem :
      (n size : ℕ) (rest : List A)
      → 0 < size
      → length rest ≤ n * size
      → n * size < length rest + size
      → (concat (slices n size rest) ≡ rest) × All (IsBatch size) (slices n size rest)
  slices_lem zero size [] p l u = (refl, tt)
  slices_lem zero size (x ∷ rest) p l u = absurd (omega arith)
  slices_lem (suc n) size rest p l u =
      let left = length-drop size rest in
      let (joined, all) =
        slices_lem n size (drop size rest) p (grind (arith, left)) (grind (arith, left)) in
      (
        ap (λ l. take size rest ++ l) joined ∙ take-drop size rest,
        (take-IsBatch size rest p (grind arith), all),
      )

  -- For a size above 0: the batches hold the shuffled values in their order, each value once, and
  -- none of them is empty or longer than the size.
  pub batches-IsBatch :
      (shuffle : List A → List A) (size : ℕ) (indices : List A)
      → 0 < size
      → (concat (batches shuffle size indices) ≡ shuffle indices)
        × All (IsBatch size) (batches shuffle size indices)
  unfolding batches batches_of
  batches-IsBatch shuffle size indices p =
      let values = shuffle indices in
      let (lower, upper) = count_bounds (length values) size p in
      slices_lem (range_count (length values) size) size values p lower upper

module _ {ℓ κ} {A : Type ℓ} {B : Type κ} (score : List A → List B) where
  -- The outputs of the batches, joined: `_predict_indices` on indices and the loop of
  -- `predict_artifact` on examples. `score` is the network, after `sigmoid`, on the batch's tensors.
  unfoldable pub predict_batches : ℕ → List A → List B
  unfolding batches_of
  predict_batches size values = concat (map score (batches_of size values))

  scored_each :
      (row : A → B) (batches : List (List A))
      → ((batch : List A) → score batch ≡ map row batch)
      → concat (map score batches) ≡ map row (concat batches)
  scored_each row [] h = refl
  scored_each row (b ∷ batches) h = rw (h b, scored_each row batches h, map-append) refl

  -- When the network scores each row of a batch by itself, as it does in its evaluation mode: the
  -- predictions are those of the rows, in the order of the rows, whatever the size of the batches.
  pub predict_batches-eq-map :
      (row : A → B) (size : ℕ) (values : List A)
      → 0 < size
      → ((batch : List A) → score batch ≡ map row batch)
      → predict_batches size values ≡ map row values
  unfolding predict_batches batches
  predict_batches-eq-map row size values p h =
      scored_each row (batches_of size values) h
      ∙ ap (map row) (batches-IsBatch (λ l. l) size values p).0
