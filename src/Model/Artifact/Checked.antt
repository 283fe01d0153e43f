-- ===== src/Model/Artifact/Checked.antt =====
-- When `predict_artifact` accepts an artifact.
use conflict_graph.Prelude.{
  ℕ, suc, ◌<◌, ◌≡◌, refl, sym, ap, subst, ◌∙◌, Bool, true, false, Option, none, some, List, [], ◌∷◌,
  map, length, length-map, All, same, same_iff, arith,
}
use conflict_graph.Prelude.Text.{Text, text_eq, text_beq_iff}
use conflict_graph.Prelude.Float.{Float, IsOrdered, ◌≼◌}
use conflict_graph.Dataset.{PairExample, Dataset}
use conflict_graph.Graph.State.{TestResourceGraph}
use conflict_graph.Model.Temperature.{Numpy, smallest, largest, new_temperature}
use conflict_graph.Model.Temperature.Fitted.{transform-bounds}
use conflict_graph.Model.Batches.{predict_batches, predict_batches-eq-map}
use conflict_graph.Model.Tensors.{GraphTensors, graph_tensors}
use conflict_graph.Model.Artifact.{
  ArtifactFiles, ArtifactMetadata, ArtifactError, Outcome, refused, accepted, ◌>>=◌, or_raise,
  demand, same_texts, feature_names, model_schema_version, Weights, row_of, rows_of, checked,
  predicted, predict_artifact,
}

>>=-eq-accepted {ℓ κ} :
    {A : Type ℓ} {B : Type κ} (m : Outcome A) (f : A → Outcome B) {b : B}
    → (m >>= f) ≡ accepted b
    → (a : A) × (m ≡ accepted a) × (f a ≡ accepted b)
>>=-eq-accepted (refused e) f h = cc
>>=-eq-accepted (accepted a) f h = (a, refl, h)

or_raise-accepted {ℓ} :
    {A : Type ℓ} (error : ArtifactError) (o : Option A) {a : A}
    → or_raise error o ≡ accepted a
    → o ≡ some a
or_raise-accepted error none h = cc
or_raise-accepted error (some b) h = cc

demand-accepted :
    (test : Bool) (error : ArtifactError) {u : Unit {0}}
    → demand test error ≡ accepted u
    → test ≡ true
demand-accepted true error h = refl
demand-accepted false error h = cc

same_texts-eq : (xs ys : List Text) → same_texts xs ys ≡ true → xs ≡ ys
same_texts-eq [] [] h = refl
same_texts-eq [] (y ∷ ys) h = cc
same_texts-eq (x ∷ xs) [] h = cc
same_texts-eq (x ∷ xs) (y ∷ ys) h = ground (arith, text_beq_iff x y, same_texts-eq xs ys)

module _ {S F : Type 0} ⦃fl : Float F⦄ (np : Numpy F) (torch : Weights S F) where
  -- The artifact is one of this code, and its weights are those that were saved.
  pub record IsChecked (metadata : ArtifactMetadata F) (weights : List ℕ) : Type 0 where
    pub schema : metadata.schema_version ≡ model_schema_version
    pub digest : torch.sha256 weights ≡ metadata.checksum
    pub features : metadata.feature_schema ≡ feature_names

  checked-IsChecked :
      (metadata : ArtifactMetadata F) (weights : List ℕ) {u : Unit {0}}
      → checked np torch metadata weights ≡ accepted u
      → IsChecked metadata weights
  unfolding checked
  checked-IsChecked metadata weights h =
      let (a, p, h1) =
        >>=-eq-accepted (demand (same metadata.schema_version model_schema_version) _) _ h in
      let (b, q, h2) =
        >>=-eq-accepted (demand (same (torch.sha256 weights) metadata.checksum) _) _ h1 in
      record {
        schema = (same_iff metadata.schema_version model_schema_version).0 (demand-accepted _ _ p);
        digest = (same_iff (torch.sha256 weights) metadata.checksum).0 (demand-accepted _ _ q);
        features = same_texts-eq metadata.feature_schema feature_names (demand-accepted _ _ h2);
      }

  length-rows_of :
      (test_index : List (Text × ℕ)) (mean scale : List F) (examples : List (PairExample F))
      (rows : List ((ℕ × ℕ) × List F))
      → rows_of np torch test_index mean scale examples ≡ accepted rows
      → length rows ≡ length examples
  unfolding rows_of
  length-rows_of test_index mean scale [] rows h = let e : [] ≡ rows = cc in ap length (sym e)
  length-rows_of test_index mean scale (e ∷ examples) rows h =
      let (row, p, h1) = >>=-eq-accepted (row_of np torch test_index mean scale e) _ h in
      let (rest, q, h2) = >>=-eq-accepted (rows_of np torch test_index mean scale examples) _ h1 in
      let made : row ∷ rest ≡ rows = cc in
      ap length (sym made) ∙ ap suc (length-rows_of test_index mean scale examples rest q)

module _ {S F : Type 0} ⦃fl : Float F⦄ (o : IsOrdered F) (np : Numpy F) (torch : Weights S F)
    (row : S → GraphTensors F → (ℕ × ℕ) × List F → F)
    (row_by_row : (state : S) (tensors : GraphTensors F) (batch : List ((ℕ × ℕ) × List F))
      → torch.score state tensors batch ≡ map (row state tensors) batch)
    (in_order : fl.le smallest largest ≡ true) where
  abbrev IsPrediction : Dataset F → List F → Type 0
  IsPrediction dataset probabilities =
      (length probabilities ≡ length dataset.examples)
      × All (λ p. (smallest ≼ p) × (p ≼ largest)) probabilities

  predicted-IsPrediction :
      (metadata : ArtifactMetadata F) (weights : List ℕ) (graph : TestResourceGraph F)
      (dataset : Dataset F) (probabilities : List F)
      → 0 < metadata.training_config.batch_size
      → predicted np torch metadata weights graph dataset ≡ accepted probabilities
      → IsPrediction dataset probabilities
  unfolding predicted
  predicted-IsPrediction metadata weights graph dataset probabilities positive h =
      let (tensors, p, h1) = >>=-eq-accepted (or_raise _ (graph_tensors np graph)) _ h in
      let (state, q, h2) = >>=-eq-accepted (or_raise _ (torch.load_state _ weights)) _ h1 in
      let (rows, r, h3) =
        >>=-eq-accepted
          (rows_of np torch tensors.test_index metadata.mean metadata.scale dataset.examples) _
          h2 in
      let size = metadata.training_config.batch_size in
      let raw = predict_batches (torch.score state tensors) size rows in
      let (all, same_length) =
        transform-bounds o np (new_temperature metadata.temperature) raw probabilities in_order
          (or_raise-accepted ArtifactError.not_finite _ h3) in
      let by_row =
        predict_batches-eq-map (torch.score state tensors) (row state tensors) size rows positive
          (row_by_row state tensors) in
      (
        same_length
            ∙ ap length by_row
            ∙ length-map (row state tensors) rows
            ∙ length-rows_of np torch tensors.test_index metadata.mean metadata.scale
                dataset.examples rows r,
        all,
      )

  -- When `predict_artifact` returns, for a network that scores each row of a batch by itself and a
  -- batch size above 0: the artifact has the schema and the features of this code, the sha256 of the
  -- weights that were read is the recorded one, and there is one probability for each example of the
  -- dataset, between 1e-9 and 1 - 1e-9. The metadata returned are those that json reads of the file.
  pub predict_artifact-IsChecked :
      (files : ArtifactFiles) (graph : TestResourceGraph F) (dataset : Dataset F)
      (probabilities : List F) (metadata : ArtifactMetadata F)
      → 0 < metadata.training_config.batch_size
      → predict_artifact np torch files graph dataset ≡ accepted (probabilities, metadata)
      → (weights : List ℕ) × (text : Text) × (files.metadata ≡ some text)
        × (torch.parse_metadata text ≡ some metadata)
        × (files.weights ≡ some weights)
        × IsChecked np torch metadata weights
        × IsPrediction dataset probabilities
  unfolding predict_artifact
  predict_artifact-IsChecked files graph dataset probabilities metadata positive h =
      let (text, t, h0) = >>=-eq-accepted (or_raise _ files.metadata) _ h in
      let (m, p, h1) = >>=-eq-accepted (or_raise _ (torch.parse_metadata text)) _ h0 in
      let (weights, q, h2) = >>=-eq-accepted (or_raise _ files.weights) _ h1 in
      let (u, r, h3) = >>=-eq-accepted (checked np torch m weights) _ h2 in
      let (ps, s, h4) = >>=-eq-accepted (predicted np torch m weights graph dataset) _ h3 in
      let same_metadata : m ≡ metadata = cc in
      let same_ps : ps ≡ probabilities = cc in
      (
        weights,
        text,
        or_raise-accepted ArtifactError.invalid_artifact files.metadata t,
        or_raise-accepted ArtifactError.invalid_artifact (torch.parse_metadata text) p
            ∙ ap some same_metadata,
        or_raise-accepted ArtifactError.invalid_artifact files.weights q,
        subst (λ x. IsChecked np torch x weights) same_metadata
            (checked-IsChecked np torch m weights r),
        predicted-IsPrediction metadata weights graph dataset probabilities positive (
            subst (λ x. predicted np torch x weights graph dataset ≡ accepted probabilities)
              same_metadata (s ∙ ap accepted same_ps)),
      )
