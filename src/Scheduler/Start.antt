-- ===== src/Scheduler/Start.antt =====
-- The state in which the placement loop starts.
use conflict_graph.Prelude.{
  ℕ, zero, suc, ◌<◌, ◌≡◌, refl, true, Option, some, List, [], ◌∷◌, map, foldl, arith, Bool-cases,
  inl, inr, All, length-replicate, replicate, concat, same, same_iff, sort_by-All, Perm-of_eq,
}
use conflict_graph.Prelude.Int.{ℤ}
use conflict_graph.Prelude.Text.{Text, text_eq}
use conflict_graph.Prelude.Dict.{Dict, put, has, get-put}
use conflict_graph.Prelude.Float.{Float, IsOrdered, ◌≼◌, nought}
use conflict_graph.Prelude.Order.{le-fmax_left}
use conflict_graph.Types.Enums.{RiskPolicy}
use conflict_graph.Types.Stats.{TestIdentity, TestStats}
use conflict_graph.Scheduler.Risk.{ConflictScheduler, new_scheduler}
use conflict_graph.Scheduler.Placement.{Lane}
use conflict_graph.Scheduler.Queue.{
  entry, dict_of, duration_of, durations_of, identities_of, queue_of,
}
use conflict_graph.Scheduler.Place.{start_progress}
use conflict_graph.Scheduler.Lanes.{Follows}
use conflict_graph.Scheduler.Progress.{IsPlacing, OwnedFrom}
use conflict_graph.Scheduler.Removal.{get_or-replicate}

OwnedFrom-replicate : (F : Type 0) (n i : ℕ) → OwnedFrom {F = F} i (replicate n [])
OwnedFrom-replicate F zero i = tt
OwnedFrom-replicate F (suc n) i = (tt, OwnedFrom-replicate F n (suc i))

keys-has : {V : Type 0} (d : Dict Text V) → All (λ c. has c d ≡ true) (map (λ p. p.0) d)
keys-has [] = tt
keys-has ((k, v) ∷ d) = (rw ((same_iff k k).1 refl), later (map (λ p. p.0) d) (keys-has d))
  where
    later :
        (cs : List Text) → All (λ c. has c d ≡ true) cs → All (λ c. has c ((k, v) ∷ d) ≡ true) cs
    later [] h = tt
    later (c ∷ cs) h = (ground arith, later cs h.1)

module _ {F : Type 0} ⦃fl : Float F⦄ where
  -- A scheduler that the constructor accepts has a worker and looks ahead.
  pub new_scheduler-ready :
      (workers : ℕ) (policy : RiskPolicy) (seed : ℤ) (risk_weight hard_threshold : Option F)
      (rounds : ℕ) {self : ConflictScheduler F}
      → new_scheduler workers policy seed risk_weight hard_threshold rounds ≡ some self
      → (0 < self.workers) × (0 < self.params.lookahead)
  unfolding new_scheduler
  new_scheduler-ready zero policy seed w h rounds e = cc
  new_scheduler-ready (suc n) RiskPolicy.aggressive seed w h rounds e = ground arith
  new_scheduler-ready (suc n) RiskPolicy.balanced seed w h rounds e = ground arith
  new_scheduler-ready (suc n) RiskPolicy.safe seed w h rounds e = ground arith

  All-replicate : (P : Lane F → Type 0) (n : ℕ) → P [] → All P (replicate n [])
  All-replicate P zero p = tt
  All-replicate P (suc n) p = (p, All-replicate P n p)

  concat-replicate : (n : ℕ) → concat (replicate {A = Lane F} n []) ≡ []
  concat-replicate zero = refl
  concat-replicate (suc n) = concat-replicate n

  pub start_progress-IsPlacing :
      (self : ConflictScheduler F) (queue : List Text)
      → IsPlacing self.workers queue (start_progress self queue)
  unfolding start_progress
  start_progress-IsPlacing self queue = record {
    lanes_length = length-replicate self.workers [];
    ends_length = length-replicate self.workers nought;
    follows = All-replicate (Follows nought) self.workers tt;
    ends = λ i.
        rw
          (get_or-replicate {A = Lane F} self.workers i [], get_or-replicate self.workers i nought);
    owned = OwnedFrom-replicate F self.workers 0;
    durations = All-replicate (All (λ x. nought ≼ x.estimated_duration)) self.workers tt;
    conserved = rw (concat-replicate self.workers) (Perm-of_eq refl);
  }

  module _ (o : IsOrdered F) where
    open o use {le_refl, le_trans, lit-nonneg}

    entry-put :
        (k : Text) (v : F) (d : Dict Text F)
        → nought ≼ v
        → ((c : Text) → nought ≼ entry d c)
        → (c : Text) → nought ≼ entry (put k v d) c
    entry-put k v d hv hd c = elim (Bool-cases (same k c)) [
      | inl e ↦ rw (get-put k c v d, e) hv
      | inr e ↦ rw (get-put k c v d, e) (hd c)
    ]

    -- No duration is negative.
    pub durations_of-nonneg :
        (stats : Dict Text (TestStats F)) (tests : List TestIdentity) (c : Text)
        → nought ≼ entry (durations_of stats tests) c
    unfolding durations_of dict_of duration_of
    durations_of-nonneg stats tests = from tests [] (λ c. le_refl nought)
      where
        from :
            (ts : List TestIdentity) (d : Dict Text F)
            → ((c : Text) → nought ≼ entry d c)
            → (c : Text) → nought ≼ entry (foldl (λ d x. put x.id (duration_of stats x) d) d ts) c
        from [] d h = h
        from (t ∷ ts) d h = from ts (put t.id (duration_of stats t) d) (
            entry-put t.id (duration_of stats t) d
              (le_trans _ _ _ (lit-nonneg 1 3) (le-fmax_left o (fl.lit 1 3) _)) h)

  -- Each test of the queue has an identity.
  pub queue_of-known :
      (draw : ℕ → F) (stats : Dict Text (TestStats F)) (tests : List TestIdentity)
      → All (λ c. has c (identities_of tests) ≡ true) (queue_of draw stats tests)
  unfolding queue_of
  queue_of-known draw stats tests =
      sort_by-All _ (λ c. has c (identities_of tests) ≡ true) (map (λ p. p.0) (identities_of tests))
        (keys-has (identities_of tests))
