-- ===== src/Scheduler/Rounds.antt =====
-- Every round of the placement loop succeeds and keeps its invariant, so the loop ends with a plan.
use conflict_graph.Prelude.{
  ℕ, zero, suc, ◌<◌, ◌≤◌, ◌≡◌, refl, true, false, Option, some, List, [], ◌∷◌, ◌++◌, arith,
  Bool-cases, inl, inr, All, All-append, All-Mem, All-get_elem?, All-set, Mem-take, min_by-some,
  length, length-set, get_or, range, is_empty, is_empty_nil, ◌∙◌,
}
use conflict_graph.Prelude.Text.{Text, text_eq}
use conflict_graph.Prelude.Dict.{Dict, has, get-has}
use conflict_graph.Prelude.Float.{Float, IsOrdered, ◌≼◌, nought}
use conflict_graph.Prelude.Order.{le-fmax_left}
use conflict_graph.Types.Stats.{TestIdentity}
use conflict_graph.Scheduler.Risk.{RiskIndex, ConflictScheduler}
use conflict_graph.Scheduler.Placement.{Lane}
use conflict_graph.Scheduler.Queue.{entry}
use conflict_graph.Scheduler.Place.{
  Progress, scheduled_at, append_to, place_on, place, place_all, freer,
}
use conflict_graph.Scheduler.Lanes.{Follows, Follows-snoc}
use conflict_graph.Scheduler.Choice.{Outcome, choose-Decision}
use conflict_graph.Scheduler.Removal.{Removed, remove_text-some, Mem-range, get_elem?-get_or}
use conflict_graph.Scheduler.Progress.{
  IsPlacing, Complete, OwnedFrom-snoc, ends-append, conserved-append,
}

no_length : {A : Type 0} (xs : List A) → length xs ≤ 0 → xs ≡ []
no_length [] h = refl
no_length (x ∷ xs) h = absurd (omega arith)

module _ {F : Type 0} ⦃fl : Float F⦄ (o : IsOrdered F) (self : ConflictScheduler F)
    (durations : Dict Text F) (by_id : Dict Text TestIdentity) (risk : RiskIndex F)
    (nonneg : (c : Text) → nought ≼ entry durations c) (given : List Text) where
  open o use {le_refl, le_trans, le-add}

  -- Whatever the reason of a decision, no test starts before its worker is free.
  Outcome-le :
      (lanes : List (Lane F)) (worker : ℕ) (start : F) (candidates : List Text) (c : Text) (s : F)
      → Outcome self durations by_id risk lanes worker start candidates c s
      → start ≼ s
  Outcome-le lanes worker start candidates c s (inl (e, _)) = rw e (le_refl start)
  Outcome-le lanes worker start candidates c s (inr (inl (e, _))) = rw e (le_refl start)
  Outcome-le lanes worker start candidates c s (inr (inr (end, _, e, _))) =
      rw e (le-fmax_left o start end)

  module _ (st : Progress F) (worker : ℕ) (inv : IsPlacing self.workers given st)
      (free : worker < self.workers) where
    in_lanes : worker < length st.lanes
    in_lanes = omega (arith, inv.lanes_length)

    append_to-IsPlacing :
        (chosen : Text) (at : F) (test : TestIdentity) (kept : List Text)
        → get_or st.lane_ends worker nought ≼ at
        → Removed chosen st.remaining kept
        → IsPlacing self.workers given (
            append_to self durations by_id risk worker
              (scheduled_at self durations by_id risk st.lanes worker chosen test at)
              kept
              st)
    unfolding append_to
    append_to-IsPlacing chosen at test kept later removed =
        let item = scheduled_at self durations by_id risk st.lanes worker chosen test at in
        let lane = get_or st.lanes worker [] in
        let here = get_elem?-get_or st.lanes worker [] in_lanes in
        record {
          lanes_length = length-set st.lanes worker (lane ++ item ∷ []) ∙ inv.lanes_length;
          ends_length = length-set st.lane_ends worker item.estimated_end ∙ inv.ends_length;
          follows = All-set (Follows nought) st.lanes worker (lane ++ item ∷ []) inv.follows (
              Follows-snoc o nought lane item
                (All-get_elem? (Follows nought) st.lanes worker inv.follows here)
                (rw (inv.ends worker) later) (le-add at (entry durations chosen) (nonneg chosen)));
          ends =
              ends-append st.lanes st.lane_ends worker item in_lanes
                (omega (arith, inv.ends_length)) inv.ends;
          owned = OwnedFrom-snoc st.lanes worker item inv.owned refl;
          durations =
              All-set (All (λ x. nought ≼ x.estimated_duration)) st.lanes worker (lane ++ item ∷ [])
                inv.durations
                (All-append (λ x. nought ≼ x.estimated_duration) lane (item ∷ [])
                  (All-get_elem? (All (λ x. nought ≼ x.estimated_duration)) st.lanes worker
                    inv.durations here)
                  (nonneg chosen, tt));
          conserved =
              conserved-append st.lanes worker item st.remaining kept given here removed.perm
                inv.conserved;
        }

  abbrev Known : List Text → Type 0
  Known = All (λ c. has c by_id ≡ true)

  -- A round that succeeds, with the invariant and one test less to place.
  record Advance (st : Progress F) (round : Option (Progress F)) : Type 0 where
    next : Progress F
    made : round ≡ some next
    inv : IsPlacing self.workers given next
    known : Known next.remaining
    shorter : length st.remaining ≡ suc (length next.remaining)

  module _ (ready : 0 < self.workers) (ahead : 0 < self.params.lookahead) where
    place_on-Advance :
        (st : Progress F) (worker : ℕ)
        → IsPlacing self.workers given st
        → worker < self.workers
        → Known st.remaining
        → is_empty st.remaining ≡ false
        → Advance st (place_on self durations by_id risk worker st)
    unfolding place_on
    place_on-Advance st worker inv free known h =
        let start = get_or st.lane_ends worker nought in
        let d =
          choose-Decision self durations by_id risk st.lanes worker start st.remaining h ahead in
        let m = Mem-take self.params.lookahead st.remaining d.member in
        let (test, found) =
          get-has d.chosen by_id (All-Mem (λ c. has c by_id ≡ true) st.remaining known m) in
        let (kept, cut, removed) = remove_text-some d.chosen st.remaining m in
        record {
          next =
              append_to self durations by_id risk worker
                (scheduled_at self durations by_id risk st.lanes worker d.chosen test d.at) kept st;
          made = rw (d.made, found, cut);
          inv =
              append_to-IsPlacing st worker inv free d.chosen d.at test kept
                (Outcome-le st.lanes worker start _ d.chosen d.at d.outcome) removed;
          known = unfold append_to in removed.keeps (λ c. has c by_id ≡ true) known;
          shorter = unfold append_to in removed.shorter;
        }

    range_busy : (n : ℕ) → 0 < n → is_empty (range n) ≡ false
    range_busy zero h = absurd (omega arith)
    range_busy (suc n) h = refl

    place-Advance :
        (st : Progress F)
        → IsPlacing self.workers given st
        → Known st.remaining
        → is_empty st.remaining ≡ false
        → Advance st (place self durations by_id risk st)
    unfolding place
    place-Advance st inv known h =
        let (worker, found, m) =
          min_by-some (freer st.lane_ends) (range self.workers) (range_busy self.workers ready) in
        rw found (place_on-Advance st worker inv (Mem-range self.workers m) known h)

    -- With one round for each waiting test the loop ends, with every test placed.
    pub place_all-Complete :
        (fuel : ℕ) (st : Progress F)
        → length st.remaining ≤ fuel
        → IsPlacing self.workers given st
        → Known st.remaining
        → Complete self.workers given (place_all self durations by_id risk fuel st)
    unfolding place_all
    place_all-Complete zero st enough inv known = record {
      end = st;
      made = refl;
      inv = inv;
      all_placed = no_length st.remaining enough;
    }
    place_all-Complete (suc fuel) st enough inv known = elim (Bool-cases (is_empty st.remaining)) [
      | inl done ↦
          rw done (record {
            end = st;
            made = refl;
            inv = inv;
            all_placed = is_empty_nil st.remaining done;
          })
      | inr more ↦
          let a = place-Advance st inv known more in
          rw (more, a.made)
            (place_all-Complete fuel a.next (omega (arith, a.shorter)) a.inv a.known)
    ]
