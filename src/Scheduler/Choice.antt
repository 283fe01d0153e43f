-- ===== src/Scheduler/Choice.antt =====
-- What one round of the placement loop decides: which test comes next, and when it starts.
use conflict_graph.Prelude.{
  ℕ, ◌<◌, ◌≡◌, refl, ◌⊎◌, inl, inr, Bool, true, false, Option, some, List, map, Bool-cases, All,
  take, is_empty, keep, min_by, min_by-some, keep_empty, is_empty-map, is_empty-take, Mem-keep,
}
use mathlib.Core.List.{Memᴰ}
use conflict_graph.Prelude.Text.{Text}
use conflict_graph.Prelude.Dict.{Dict}
use conflict_graph.Prelude.Float.{Float, lt, fmax}
use conflict_graph.Types.Stats.{TestIdentity}
use conflict_graph.Scheduler.Risk.{RiskIndex, ConflictScheduler}
use conflict_graph.Scheduler.Placement.{Lane, overlapping_at}
use conflict_graph.Scheduler.Place.{risk_at, cheaper, avoid, choose}

module _ {F : Type 0} ⦃fl : Float F⦄ (self : ConflictScheduler F) (durations : Dict Text F)
    (by_id : Dict Text TestIdentity) (risk : RiskIndex F) (lanes : List (Lane F)) (worker : ℕ)
    (start : F) where
  -- The risk of a test that starts now stays below the hard threshold.
  abbrev pub is_safe : Text → Bool
  is_safe c =
      lt (risk_at self durations by_id risk lanes worker start c).0 self.params.hard_threshold

  abbrev pub running : Lane F
  running = overlapping_at lanes start worker

  -- Why a test starts at `s`: it is safe now; nothing runs beside it now; or no candidate is safe,
  -- and it waits for the first running test to end.
  abbrev pub Outcome : List Text → Text → F → Type 0
  Outcome candidates c s =
      (s ≡ start) × (is_safe c ≡ true)
      ⊎ (s ≡ start) × (is_empty running ≡ true)
      ⊎ (end : F) × (min_by lt (map (λ item. item.estimated_end) running) ≡ some end)
        × (s ≡ fmax start end)
        × All (λ d. is_safe d ≡ false) candidates

  -- A decision of the code, with the reason for it.
  pub record Decision (candidates : List Text) (decided : Option (Text × F)) : Type 0 where
    pub chosen : Text
    pub at : F
    pub made : decided ≡ some (chosen, at)
    pub member : Memᴰ chosen candidates
    pub outcome : Outcome candidates chosen at

  avoid-Decision :
      (candidates : List Text) (chosen : Text)
      → Memᴰ chosen candidates
      → is_empty running ≡ false
      → Decision candidates (avoid self durations by_id risk lanes worker start candidates chosen)
  unfolding avoid
  avoid-Decision candidates chosen m busy = elim (Bool-cases (is_empty (keep is_safe candidates))) [
    | inl none_safe ↦
        let (end, found, _) =
          min_by-some lt (map (λ item. item.estimated_end) running)
            (rw (is_empty-map (λ item. item.estimated_end) running) busy) in
        record {
          chosen = chosen;
          at = fmax start end;
          made = rw (none_safe, found);
          member = m;
          outcome = inr (inr (end, found, refl, keep_empty is_safe candidates none_safe));
        }
    | inr some_safe ↦
        let (better, found, listed) =
          min_by-some (cheaper self durations by_id risk lanes worker start)
            (keep is_safe candidates) some_safe in
        let (there, safe) = Mem-keep is_safe candidates listed in
        record {
          chosen = better;
          at = start;
          made = rw (some_safe, found);
          member = there;
          outcome = inl (refl, safe);
        }
  ]

  -- As long as there is a test and the look-ahead is positive, a round decides, on one of the first
  -- `lookahead` tests. It starts at once, with a risk below the threshold or with nothing running on
  -- the other workers; or no candidate is safe, and it starts when a running test ends.
  pub choose-Decision :
      (remaining : List Text)
      → is_empty remaining ≡ false
      → 0 < self.params.lookahead
      → Decision
          (take self.params.lookahead remaining)
          (choose self durations by_id risk lanes worker start remaining)
  unfolding choose
  choose-Decision remaining h positive =
      let candidates = take self.params.lookahead remaining in
      let (chosen, found, m) =
        min_by-some (cheaper self durations by_id risk lanes worker start) candidates
          (is_empty-take self.params.lookahead remaining positive h) in
      elim (Bool-cases (
        fl.le self.params.hard_threshold
          (risk_at self durations by_id risk lanes worker start chosen).0)) [
            | inr low ↦ record {
              chosen = chosen;
              at = start;
              made = rw (found, low);
              member = m;
              outcome = inl (refl, rw low);
            }
            | inl high ↦ elim (Bool-cases (is_empty running)) [
              | inl idle ↦ record {
                chosen = chosen;
                at = start;
                made = rw (found, high, idle);
                member = m;
                outcome = inr (inl (refl, idle));
              }
              | inr busy ↦ rw (found, high, busy) (avoid-Decision candidates chosen m busy)
            ]
          ]
