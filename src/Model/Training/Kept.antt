-- ===== src/Model/Training/Kept.antt =====
-- Which model `GNNTrainer.fit` keeps, and when its epochs stop.
use mathlib.Core.List.{Memᴰ}
use conflict_graph.Prelude.{
  ℕ, zero, suc, ◌+◌, ◌≤◌, ◌≡◌, ◌⊎◌, refl, sym, ap, subst, ◌∙◌, Bool, true, false, ◌&&◌, Option,
  none, some, List, [], ◌∷◌, ◌++◌, map, leb, length, length-append, append_assoc, append-nil, All,
  All-append, Bool-cases, inl, inr, if◌then◌else◌, >>=-eq-some, arith,
}
use conflict_graph.Prelude.Float.{Float, IsOrdered, ◌≼◌}
use conflict_graph.Prelude.Order.{le-of_not_le}
use conflict_graph.Metrics.{ClassificationMetrics}
use conflict_graph.Model.Training.{
  Epoch, Progress, score_of, epoch_score, untrained, train_all, entry, judged, run_epoch,
  run_epochs,
}

module _ {F : Type 0} ⦃fl : Float F⦄ (o : IsOrdered F) {S : Type 0}
    (train_batch : List ℕ → S → S × F) (mean : List F → F)
    (evaluate : S → Option (ClassificationMetrics F)) (patience : ℕ)
    (train_batches : List (List ℕ)) where
  open fl use {lit, add, sub}

  -- The model has this score, and it is that of an epoch.
  pub record HasScore (score : F) (upto : List (Epoch F)) (model : S) : Type 0 where
    pub metrics : ClassificationMetrics F
    pub evaluated : evaluate model ≡ some metrics
    pub scored : score_of metrics.pr_auc metrics.brier_score ≡ score
    pub reached : Memᴰ score (map epoch_score upto)

  abbrev pub KeepsBest : F → List (Epoch F) → Option S → Type 0
  KeepsBest score upto none = Unit {0}
  KeepsBest score upto (some model) = HasScore score upto model

  -- What the loop keeps. The epochs in `since` came after the one that the best state is from.
  pub record IsKept (p : Progress S F) : Type 0 where
    pub upto : List (Epoch F)
    pub since : List (Epoch F)
    pub parts : p.history ≡ upto ++ since
    pub stale_epochs : length since ≡ p.stale
    pub no_better : All (λ e. epoch_score e ≼ add p.best_score (lit 1 5)) p.history
    pub best : KeepsBest p.best_score upto p.best_state

  -- Either no break, or one at the 81st epoch or later after enough epochs without a better score.
  abbrev pub Breaks : Bool → Progress S F → Type 0
  Breaks false p = Unit {0}
  Breaks true p = (81 ≤ length p.history) × (patience ≤ p.stale)

  pub untrained-IsKept : (model : S) → IsKept (untrained model)
  untrained-IsKept model = record {
    upto = [];
    since = [];
    parts = refl;
    stale_epochs = refl;
    no_better = tt;
    best = tt;
  }

  le-All :
      (a b : F) (es : List (Epoch F))
      → a ≼ b
      → All (λ e. epoch_score e ≼ a) es
      → All (λ e. epoch_score e ≼ b) es
  le-All a b [] h l = tt
  le-All a b (e ∷ es) h l = (o.le_trans (epoch_score e) a b l.0 h, le-All a b es h l.1)

  Mem-snoc :
      (es : List (Epoch F)) (e : Epoch F) → Memᴰ (epoch_score e) (map epoch_score (es ++ e ∷ []))
  Mem-snoc [] e = Memᴰ.head refl
  Mem-snoc (x ∷ es) e = Memᴰ.tail (Mem-snoc es e)

  all_at_least :
      (epoch stale : ℕ) (p : Progress S F)
      → length p.history ≡ suc epoch
      → p.stale ≡ stale
      → Breaks (leb 80 epoch && leb patience stale) p
  all_at_least epoch stale p h k = elim (Bool-cases (leb 80 epoch && leb patience stale)) [
    | inl e ↦ rw e (ground arith, ground arith)
    | inr e ↦ rw e tt
  ]

  module _ (epoch : ℕ) (model : S) (loss : F) (m : ClassificationMetrics F) (p : Progress S F)
      (ev : evaluate model ≡ some m) (len : length p.history ≡ epoch) (k : IsKept p) where
    abbrev now : Epoch F
    now = entry epoch loss m

    one_more : length (p.history ++ now ∷ []) ≡ suc epoch
    one_more = omega (arith, length-append p.history (now ∷ []), len)

    judged-IsKept :
        let (next, stops) = judged patience epoch model loss m p in
        IsKept next × Breaks stops next × (length next.history ≡ suc epoch)
    unfolding judged
    judged-IsKept = elim (Bool-cases (fl.le (epoch_score now) (add p.best_score (lit 1 5)))) [
      | inl e ↦ rw e (
        record {
          upto = k.upto;
          since = k.since ++ now ∷ [];
          parts = ap (λ l. l ++ now ∷ []) k.parts ∙ append_assoc k.upto k.since (now ∷ []);
          stale_epochs = omega (arith, length-append k.since (now ∷ []), k.stale_epochs);
          no_better =
              All-append (λ x. epoch_score x ≼ add p.best_score (lit 1 5)) p.history (now ∷ [])
                k.no_better (e, tt);
          best = k.best;
        },
        all_at_least epoch (p.stale + 1) _ one_more refl,
        one_more,
      )
      | inr e ↦
          let above = le-of_not_le o (add p.best_score (lit 1 5)) (epoch_score now) e in
          let more = o.le-add (epoch_score now) (lit 1 5) (o.lit-nonneg 1 5) in
          rw e (
            record {
              upto = p.history ++ now ∷ [];
              since = [];
              parts = sym (append-nil (p.history ++ now ∷ []));
              stale_epochs = refl;
              no_better =
                  All-append (λ x. epoch_score x ≼ add (epoch_score now) (lit 1 5)) p.history
                    (now ∷ []) (le-All _ _ p.history (o.le_trans _ _ _ above more) k.no_better)
                    (more, tt);
              best = record {
                metrics = m;
                evaluated = ev;
                scored = refl;
                reached = Mem-snoc p.history now;
              };
            },
            tt,
            one_more,
          )
    ]

  -- What one epoch makes of the variables.
  pub record Judged (epoch : ℕ) (p : Progress S F) (after : Progress S F × Bool) : Type 0 where
    pub kept : IsKept after.0
    pub breaks : Breaks after.1 after.0
    pub one_more : length after.0.history ≡ suc epoch

  run_epoch-Judged :
      (epoch : ℕ) (p : Progress S F) (after : Progress S F × Bool)
      → run_epoch train_batch mean evaluate patience train_batches epoch p ≡ some after
      → length p.history ≡ epoch
      → IsKept p
      → Judged epoch p after
  unfolding run_epoch
  run_epoch-Judged epoch p after h len k =
      let (model, losses) = train_all train_batch train_batches p.model [] in
      let (m, ev, q) = >>=-eq-some (evaluate model) _ h in
      let same : judged patience epoch model (mean losses) m p ≡ after = cc in
      let (kept, breaks, more) = judged-IsKept epoch model (mean losses) m p ev len k in
      subst (Judged epoch p) same (record { kept = kept; breaks = breaks; one_more = more })

  -- The loop has run all its epochs, or has broken off.
  abbrev pub HasRun : ℕ → Progress S F → Type 0
  HasRun last p = (length p.history ≡ last) ⊎ ((length p.history ≤ last) × Breaks true p)

  after_epoch :
      (epoch last : ℕ) (p next : Progress S F) (stops : Bool) (later : Option (Progress S F))
      (q : Progress S F)
      → suc epoch ≤ last
      → Judged epoch p (next, stops)
      → (if stops then some next else later) ≡ some q
      → (later ≡ some q → IsKept q × HasRun last q)
      → IsKept q × HasRun last q
  after_epoch epoch last p next true later q l j h rest =
      let same : next ≡ q = cc in
      subst (λ x. IsKept x × HasRun last x) same
        (j.kept, inr (omega (arith, l, j.one_more), j.breaks))
  after_epoch epoch last p next false later q l j h rest = rest h

  pub run_epochs-IsKept :
      (n epoch last : ℕ) (p q : Progress S F)
      → epoch + n ≡ last
      → run_epochs train_batch mean evaluate patience train_batches n epoch p ≡ some q
      → length p.history ≡ epoch
      → IsKept p
      → IsKept q × HasRun last q
  unfolding run_epochs
  run_epochs-IsKept zero epoch last p q l h len k =
      let same : p ≡ q = cc in
      subst (λ x. IsKept x × HasRun last x) same (k, inl (omega (arith, l, len)))
  run_epochs-IsKept (suc n) epoch last p q l h len k =
      let ((next, stops), e, rest) =
        >>=-eq-some (run_epoch train_batch mean evaluate patience train_batches epoch p) _ h in
      let j = run_epoch-Judged epoch p (next, stops) e len k in
      after_epoch epoch last p next stops _ q (omega (arith, l)) j rest
        (λ r. run_epochs-IsKept n (suc epoch) last next q (omega (arith, l)) r j.one_more j.kept)
