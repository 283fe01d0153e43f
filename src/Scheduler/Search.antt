-- ===== src/Scheduler/Search.antt =====
-- The binary search of `_placement_risk` skips exactly the tests that have ended.
use conflict_graph.Prelude.{
  ℕ, zero, suc, ◌+◌, ◌-◌, ◌/◌, ◌≤◌, ◌<◌, ◌≡◌, refl, Bool, true, false, [], ◌∷◌, arith, Bool-cases,
  inl, inr, length, get_elem?, drop, drop_while, ltb,
}
use conflict_graph.Prelude.Float.{Float, IsOrdered}
use conflict_graph.Scheduler.Placement.{Lane, ended_by, search_live, first_live}
use conflict_graph.Scheduler.Lanes.{Follows, ended_mono}

module _ {F : Type 0} ⦃fl : Float F⦄ where
  -- `k` splits the lane into the tests that have ended and the others.
  pub record SplitsAt (start : F) (lane : Lane F) (k : ℕ) : Type 0 where
    pub before : (i : ℕ) → i < k → ended_by start (get_elem? lane i) ≡ true
    pub at : ended_by start (get_elem? lane k) ≡ false

  past_end :
      (start : F) (lane : Lane F) (i : ℕ)
      → length lane ≤ i
      → ended_by start (get_elem? lane i) ≡ false
  past_end start [] i h = refl
  past_end start (x ∷ rest) zero h = absurd (omega arith)
  past_end start (x ∷ rest) (suc i) h = past_end start rest i (omega arith)

  module _ (o : IsOrdered F) (t start : F) (lane : Lane F) (f : Follows t lane) where
    abbrev ended : ℕ → Bool
    ended i = ended_by start (get_elem? lane i)

    not_ended : (m i : ℕ) → ended m ≡ false → m ≤ i → ended i ≡ false
    not_ended m i h le = elim (Bool-cases (ended i)) [
      | inl e ↦ cc (ended_mono o t start lane m i f le e)
      | inr e ↦ e
    ]

    search_live-SplitsAt :
        (fuel low high : ℕ)
        → high - low ≤ fuel
        → ((i : ℕ) → i < low → ended i ≡ true)
        → ((i : ℕ) → high ≤ i → ended i ≡ false)
        → SplitsAt start lane (search_live fuel start lane low high)
    unfolding search_live
    search_live-SplitsAt zero low high enough below above = record {
      before = below;
      at = above low (omega arith);
    }
    search_live-SplitsAt (suc fuel) low high enough below above = elim (Bool-cases (ltb low high)) [
      | inr stop ↦ rw stop (record { before = below; at = above low (ground arith) })
      | inl go ↦ rw go (elim (Bool-cases (ended ((low + high) / 2))) [
        | inl e ↦ rw e (
            search_live-SplitsAt fuel ((low + high) / 2 + 1) high (ground arith)
              (λ i h. ended_mono o t start lane i ((low + high) / 2) f (omega arith) e) above)
        | inr e ↦ rw e (
            search_live-SplitsAt fuel low ((low + high) / 2) (ground arith) below
              (λ i h. not_ended ((low + high) / 2) i e h))
      ])
    ]

    pub first_live-SplitsAt : SplitsAt start lane (first_live start lane)
    unfolding first_live
    first_live-SplitsAt =
        search_live-SplitsAt (length lane) 0 (length lane) (omega arith)
          (λ i h. absurd (omega arith)) (λ i h. past_end start lane i h)

  drop-SplitsAt :
      (start : F) (lane : Lane F) (k : ℕ)
      → SplitsAt start lane k
      → drop k lane ≡ drop_while (λ x. fl.le x.estimated_end start) lane
  drop-SplitsAt start [] zero s = refl
  drop-SplitsAt start [] (suc k) s = refl
  drop-SplitsAt start (x ∷ rest) zero s = rw s.at
  drop-SplitsAt start (x ∷ rest) (suc k) s = rw (s.before 0 (omega arith)) (
      drop-SplitsAt start rest k
        (record { before = λ i h. s.before (suc i) (omega arith); at = s.at }))

  -- In a lane whose tests follow one another, what the binary search leaves of the lane is what a
  -- scan from the front leaves that drops the tests which have ended by `start`.
  pub drop-first_live :
      (o : IsOrdered F) (t start : F) (lane : Lane F)
      → Follows t lane
      → drop (first_live start lane) lane ≡ drop_while (λ x. fl.le x.estimated_end start) lane
  drop-first_live o t start lane f =
      drop-SplitsAt start lane (first_live start lane) (first_live-SplitsAt o t start lane f)
