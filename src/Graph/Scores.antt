-- ===== src/Graph/Scores.antt =====
-- The cause that a heuristic prediction names.
use conflict_graph.Prelude.{
  ℕ, ◌≡◌, ◌≢◌, ◌↔◌, refl, sym, subst, ◌∙◌, false, List, [], ◌∷◌, ◌==◌, ==_iff, foldl, All, same_iff,
  arith, Bool-cases, inl, inr, if_ind,
}
use conflict_graph.Prelude.Float.{Float}
use conflict_graph.Types.Enums.{ConflictCause, conflict_cause_eq}
use conflict_graph.Types.Prediction.{PairPrediction, post_init}
use conflict_graph.Graph.Features.{PairFeatures}
use conflict_graph.Graph.Heuristic.{
  Signal, Scoring, signals, hear, heard, read_only, with_history, scored, heuristic_score,
}

module _ {F : Type 0} ⦃fl : Float F⦄ where
  post_init-cause : (p : PairPrediction F) → (post_init p).cause ≡ p.cause
  unfolding post_init
  post_init-cause p =
      if_ind {A = PairPrediction F} (λ q. q.cause ≡ p.cause) _ _ _ (λ _. refl) (λ _. refl)

  read_only-cause :
      (floor : F) (f : PairFeatures F) (acc : Scoring F) → (read_only floor f acc).cause ≡ acc.cause
  unfolding read_only
  read_only-cause floor f acc =
      if_ind {A = Scoring F} (λ q. q.cause ≡ acc.cause) _ _ _ (λ _. refl) (λ _. refl)

  with_history-cause :
      (f : PairFeatures F) (acc : Scoring F) → (with_history f acc).cause ≡ acc.cause
  unfolding with_history
  with_history-cause f acc =
      if_ind {A = Scoring F} (λ q. q.cause ≡ acc.cause) _ _ _ (λ _. refl) (λ _. refl)

  -- A signal that names a cause of its own.
  abbrev Telling : Signal F → Type 0
  Telling s = s.candidate_cause ≢ ConflictCause.unknown

  hear_keeps :
      (acc : Scoring F) (s : Signal F)
      → Telling s
      → acc.cause ≢ ConflictCause.unknown
      → (hear acc s).cause ≢ ConflictCause.unknown
  unfolding hear
  hear_keeps acc s t h =
      if_ind {A = Scoring F} (λ a. a.cause ≢ ConflictCause.unknown) (s.count == 0) _ _ (λ _. h)
        (λ _. if_ind (λ c. c ≢ ConflictCause.unknown) _ _ _ (λ _. t) (λ _. h))

  foldl-hear_keeps :
      (ss : List (Signal F)) (acc : Scoring F)
      → All Telling ss
      → acc.cause ≢ ConflictCause.unknown
      → (foldl hear acc ss).cause ≢ ConflictCause.unknown
  foldl-hear_keeps [] acc t h = h
  foldl-hear_keeps (s ∷ ss) acc t h = foldl-hear_keeps ss (hear acc s) t.1 (hear_keeps acc s t.0 h)

  hear_silent : (acc : Scoring F) (s : Signal F) → s.count ≡ 0 → hear acc s ≡ acc
  unfolding hear
  hear_silent acc s h = rw ((==_iff s.count 0).1 h) refl

  hear_first :
      (acc : Scoring F) (s : Signal F)
      → (s.count == 0) ≡ false
      → acc.cause ≡ ConflictCause.unknown
      → (hear acc s).cause ≡ s.candidate_cause
  unfolding hear
  hear_first acc s h e = rw (h, (same_iff acc.cause ConflictCause.unknown).1 e) refl

  foldl-hear_unknown :
      (ss : List (Signal F)) (acc : Scoring F)
      → All Telling ss
      → acc.cause ≡ ConflictCause.unknown
      → ((foldl hear acc ss).cause ≡ ConflictCause.unknown) ↔ All (λ s. s.count ≡ 0) ss
  foldl-hear_unknown [] acc t e = (λ _. tt, λ _. e)
  foldl-hear_unknown (s ∷ ss) acc t e = elim (Bool-cases (s.count == 0)) [
    | inl z ↦
        let n : s.count ≡ 0 = (==_iff s.count 0).0 z in
        let (to, from) = foldl-hear_unknown ss acc t.1 e in
        subst
          (λ a. ((foldl hear a ss).cause ≡ ConflictCause.unknown) ↔ All (λ s. s.count ≡ 0) (s ∷ ss))
          (sym (hear_silent acc s n)) (λ h. (n, to h), λ h. from h.1)
    | inr z ↦ (
      λ h.
          absurd
            (foldl-hear_keeps ss (hear acc s) t.1 (λ q. t.0 (sym (hear_first acc s z e) ∙ q)) h),
      λ h. absurd (ground arith),
    )
  ]

  signals-Telling : (f : PairFeatures F) → All Telling (signals f)
  signals-Telling f =
      (λ h. cc, (λ h. cc, (λ h. cc, (λ h. cc, (λ h. cc, (λ h. cc, (λ h. cc, (λ h. cc, tt))))))))

  -- The cause of a prediction is unknown exactly when every counter that a signal looks at is zero;
  -- neither read-only sharing nor the history of the pair names a cause.
  pub heuristic_score-cause :
      (floor : F) (now : ℕ) (f : PairFeatures F)
      → ((heuristic_score floor now f).cause ≡ ConflictCause.unknown)
        ↔ All (λ s. s.count ≡ 0) (signals f)
  unfolding heuristic_score scored heard
  heuristic_score-cause floor now f =
      let acc = heard floor f in
      subst (λ c. (c ≡ ConflictCause.unknown) ↔ All (λ s. s.count ≡ 0) (signals f))
        (sym (
          post_init-cause (scored floor now f)
          ∙ (with_history-cause f (read_only floor f acc) ∙ read_only-cause floor f acc)))
        (foldl-hear_unknown (signals f)
          (record { probability = floor; cause = ConflictCause.unknown; reasons = [] })
          (signals-Telling f) refl)
