-- ===== src/Tracing/Registry/Walk.antt =====
-- The walk up the parents ends, with cycles among them too.
use conflict_graph.Prelude.{
  ℕ, zero, suc, ◌+◌, ◌≤◌, ◌<◌, ◌≡◌, refl, Bool, true, false, ◌||◌, Option, none, some, List, [],
  ◌∷◌, ◌==◌, inl, inr, if◌then◌else◌, length, same_iff, nat_eq, arith, Bool-cases, Option-cases,
}
use conflict_graph.Prelude.Dict.{Dict, get, has}
use conflict_graph.Prelude.Sets.{contains}
use conflict_graph.Tracing.Registry.{
  ExecutionRegistration, AttributionRegistry, Walked, walk, or_zero, fuel_of, resolve, by_group,
  resolved,
}

-- The number of children that the walk has not been at.
abbrev unseen : List ℕ → Dict ℕ ℕ → ℕ
unseen seen [] = 0
unseen seen ((child, parent) ∷ d) = (if contains child seen then 0 else 1) + unseen seen d

unseen_mono : (x : ℕ) (seen : List ℕ) (d : Dict ℕ ℕ) → unseen (x ∷ seen) d ≤ unseen seen d
unseen_mono x seen [] = omega arith
unseen_mono x seen ((child, parent) ∷ d) = ground (arith, unseen_mono x seen d)

unseen_drop :
    (x : ℕ) (seen : List ℕ) (d : Dict ℕ ℕ)
    → contains x seen ≡ false
    → has x d ≡ true
    → unseen (x ∷ seen) d < unseen seen d
unseen_drop x seen [] h k = cc
unseen_drop x seen ((child, parent) ∷ d) h k =
    ground (arith, unseen_drop x seen d, unseen_mono x seen d, same_iff child x, same_iff x child)

unseen_start : (d : Dict ℕ ℕ) → unseen [] d ≤ length d
unseen_start [] = omega arith
unseen_start ((child, parent) ∷ d) = ground (arith, unseen_start d)

parent_none : (x : ℕ) (d : Dict ℕ ℕ) → has x d ≡ false → get x d ≡ none
parent_none x [] h = refl
parent_none x ((child, parent) ∷ d) h = ground (arith, parent_none x d)

abbrev pub ran_out : Walked → Bool
ran_out Walked.out_of_fuel = true
ran_out _ = false

module _ (s : AttributionRegistry) where
  walk_at_root : (fuel : ℕ) (seen : List ℕ) → ran_out (walk (suc fuel) seen 0 s) ≡ false
  unfolding walk
  walk_at_root fuel seen = ground arith

  -- One turn of the loop, with what the rest of the loop gives.
  walk_turn :
      (fuel : ℕ) (seen : List ℕ) (current : ℕ)
      → (contains current seen ≡ false
          → ran_out (walk fuel (current ∷ seen) (or_zero (get current s.parents)) s) ≡ false)
      → ran_out (walk (suc fuel) seen current s) ≡ false
  unfolding walk
  walk_turn fuel seen current h = elim (Bool-cases (current == 0 || contains current seen)) [
    | inl e ↦ rw e refl
    | inr e ↦ elim (Option-cases (get current s.pids)) [
      | inl q ↦ rw (e, q) (h (ground arith))
      | inr (r, q) ↦ rw (e, q) refl
    ]
  ]

  walk_suffices :
      (fuel : ℕ) (seen : List ℕ) (current : ℕ)
      → unseen seen s.parents + 2 ≤ fuel
      → ran_out (walk fuel seen current s) ≡ false
  walk_suffices zero seen current h = ground arith
  walk_suffices (suc zero) seen current h = ground arith
  walk_suffices (suc (suc fuel)) seen current h = walk_turn (suc fuel) seen current (λ fresh.
      elim (Bool-cases (has current s.parents)) [
        | inl e ↦
            let less : unseen (current ∷ seen) s.parents < unseen seen s.parents =
              unseen_drop current seen s.parents fresh e in
            walk_suffices (suc fuel) (current ∷ seen) (or_zero (get current s.parents))
              (omega arith)
        | inr e ↦ rw (parent_none current s.parents e) (walk_at_root fuel (current ∷ seen))
      ])

  resolved_total :
      (o : Option ExecutionRegistration) (pid : ℕ) (w : Walked)
      → ran_out w ≡ false
      → ran_out (resolved o pid s w).0 ≡ false
  resolved_total none pid Walked.out_of_fuel h = h
  resolved_total none pid Walked.nobody h = refl
  resolved_total none pid (Walked.found r) h = refl
  resolved_total (some r) pid w h = refl

  -- `resolve` ends, whatever the parents are, a cycle among them too: the fuel of its walk, two more
  -- than the number of known children, is enough.
  pub resolve_total : (cgroup_id pid : ℕ) → ran_out (resolve cgroup_id pid s).0 ≡ false
  unfolding resolve
  resolve_total cgroup_id pid =
      resolved_total (by_group cgroup_id s) pid (walk (fuel_of s) [] pid s)
        (walk_suffices (fuel_of s) [] pid (ground (arith, unseen_start s.parents)))
