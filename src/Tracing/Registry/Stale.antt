-- ===== src/Tracing/Registry/Stale.antt =====
-- An execution that has left is not given any event.
use conflict_graph.Prelude.{
  ℕ, zero, suc, ◌≡◌, refl, Bool, false, not, ◌||◌, Option, none, some, List, [], ◌∷◌, ◌==◌, inl,
  inr, foldl, All, nat_eq, arith, Bool-cases, Option-cases,
}
use conflict_graph.Prelude.Text.{Text, text_eq}
use conflict_graph.Prelude.Dict.{Dict, get, put, select}
use conflict_graph.Prelude.Sets.{contains}
use conflict_graph.Tracing.Registry.{
  ExecutionRegistration, AttributionRegistry, Walked, walk, or_zero, fuel_of, register,
  register_fork, unregister, resolve, by_group, resolved, put_unless_zero, owned_by, Command, obey,
}

-- What an answer of the registry does not do: name the execution.
abbrev pub names : Text → Walked → Bool
names x (Walked.found r) = owned_by x r
names x _ = false

-- A command that does not register the execution.
abbrev pub enters : Text → Command → Bool
enters x (Command.enter r) = owned_by x r
enters x _ = false

module _ (x : Text) where
  -- No entry of the table belongs to the execution.
  abbrev IsRid : Dict ℕ ExecutionRegistration → Type 0
  IsRid d = All (λ p. owned_by x p.1 ≡ false) d

  IsRid-put :
      (k : ℕ) (r : ExecutionRegistration) (d : Dict ℕ ExecutionRegistration)
      → owned_by x r ≡ false
      → IsRid d
      → IsRid (put k r d)
  IsRid-put k r [] h c = (h, c)
  IsRid-put k r ((j, w) ∷ d) h c = elim (Bool-cases (j == k)) [
    | inl e ↦ rw e (h, c.1)
    | inr e ↦ rw e (c.0, IsRid-put k r d h c.1)
  ]

  IsRid-select : (d : Dict ℕ ExecutionRegistration) → IsRid (select (λ k r. not (owned_by x r)) d)
  IsRid-select [] = tt
  IsRid-select ((j, w) ∷ d) = elim (Bool-cases (owned_by x w)) [
    | inl e ↦ rw e (IsRid-select d)
    | inr e ↦ rw e (e, IsRid-select d)
  ]

  IsRid-select_any :
      (p : ExecutionRegistration → Bool) (d : Dict ℕ ExecutionRegistration)
      → IsRid d
      → IsRid (select (λ k r. p r) d)
  IsRid-select_any p [] c = tt
  IsRid-select_any p ((j, w) ∷ d) c = elim (Bool-cases (p w)) [
    | inl e ↦ rw e (c.0, IsRid-select_any p d c.1)
    | inr e ↦ rw e (IsRid-select_any p d c.1)
  ]

  IsRid-get :
      (k : ℕ) (d : Dict ℕ ExecutionRegistration) {r : ExecutionRegistration}
      → IsRid d
      → get k d ≡ some r
      → owned_by x r ≡ false
  IsRid-get k [] c h = cc
  IsRid-get k ((j, w) ∷ d) {r} c h = ground (arith, IsRid-get k d {r = r})

  record IsClear (s : AttributionRegistry) : Type 0 where
    by_cgroup : IsRid s.cgroups
    by_pid : IsRid s.pids

  IsRid-put_unless_zero :
      (k : ℕ) (r : ExecutionRegistration) (d : Dict ℕ ExecutionRegistration)
      → owned_by x r ≡ false
      → IsRid d
      → IsRid (put_unless_zero k r d)
  IsRid-put_unless_zero k r d h c = elim (Bool-cases (k == 0)) [
    | inl e ↦ rw e c
    | inr e ↦ rw e (IsRid-put k r d h c)
  ]

  register-IsClear :
      (r : ExecutionRegistration) (s : AttributionRegistry)
      → owned_by x r ≡ false
      → IsClear s
      → IsClear (register r s)
  unfolding register
  register-IsClear r s h c = record {
    by_cgroup = IsRid-put_unless_zero r.cgroup_id r s.cgroups h c.by_cgroup;
    by_pid = IsRid-put_unless_zero r.root_pid r s.pids h c.by_pid;
  }

  register_fork-IsClear :
      (parent child : ℕ) (s : AttributionRegistry)
      → IsClear s
      → IsClear (register_fork parent child s)
  unfolding register_fork
  register_fork-IsClear parent child s c = elim (Option-cases (get parent s.pids)) [
    | inl e ↦ record { by_cgroup = c.by_cgroup; by_pid = rw e c.by_pid }
    | inr (r, e) ↦ record {
      by_cgroup = c.by_cgroup;
      by_pid = rw e (IsRid-put child r s.pids (IsRid-get parent s.pids c.by_pid e) c.by_pid);
    }
  ]

  unregister-IsClear : (s : AttributionRegistry) → IsClear (unregister x s)
  unfolding unregister
  unregister-IsClear s = record { by_cgroup = IsRid-select s.cgroups; by_pid = IsRid-select s.pids }

  unregister_keeps_IsClear :
      (y : Text) (s : AttributionRegistry) → IsClear s → IsClear (unregister y s)
  unfolding unregister
  unregister_keeps_IsClear y s c = record {
    by_cgroup = IsRid-select_any (λ r. not (owned_by y r)) s.cgroups c.by_cgroup;
    by_pid = IsRid-select_any (λ r. not (owned_by y r)) s.pids c.by_pid;
  }

  walk-avoids :
      (fuel : ℕ) (seen : List ℕ) (current : ℕ) (s : AttributionRegistry)
      → IsClear s
      → names x (walk fuel seen current s) ≡ false
  unfolding walk
  walk-avoids zero seen current s c = refl
  walk-avoids (suc fuel) seen current s c =
      elim (Bool-cases (current == 0 || contains current seen)) [
        | inl e ↦ rw e refl
        | inr e ↦ elim (Option-cases (get current s.pids)) [
          | inl q ↦
              rw (e, q) (walk-avoids fuel (current ∷ seen) (or_zero (get current s.parents)) s c)
          | inr (r, q) ↦ rw (e, q) (IsRid-get current s.pids c.by_pid q)
        ]
      ]

  -- What the answer and the registry after it owe to the table of groups and to the walk.
  resolved-avoids :
      (o : Option ExecutionRegistration) (pid : ℕ) (s : AttributionRegistry) (w : Walked)
      → names x (resolved o pid s w).0 ≡ false
      → IsClear s
      → IsClear (resolved o pid s w).1
  resolved-avoids none pid s Walked.out_of_fuel h c = c
  resolved-avoids none pid s Walked.nobody h c = c
  resolved-avoids none pid s (Walked.found r) h c = record {
    by_cgroup = c.by_cgroup;
    by_pid = IsRid-put pid r s.pids h c.by_pid;
  }
  resolved-avoids (some r) pid s w h c = c

  resolved_answer :
      (o : Option ExecutionRegistration) (pid : ℕ) (s : AttributionRegistry) (w : Walked)
      → ((r : ExecutionRegistration) → o ≡ some r → owned_by x r ≡ false)
      → names x w ≡ false
      → names x (resolved o pid s w).0 ≡ false
  resolved_answer none pid s Walked.out_of_fuel g h = h
  resolved_answer none pid s Walked.nobody g h = h
  resolved_answer none pid s (Walked.found r) g h = h
  resolved_answer (some r) pid s w g h = g r refl

  resolve-avoids :
      (cgroup_id pid : ℕ) (s : AttributionRegistry)
      → IsClear s
      → names x (resolve cgroup_id pid s).0 ≡ false
  unfolding resolve
  resolve-avoids cgroup_id pid s c =
      resolved_answer (by_group cgroup_id s) pid s (walk (fuel_of s) [] pid s)
        (λ r e. IsRid-get cgroup_id s.cgroups {r = r} c.by_cgroup (ground arith))
        (walk-avoids (fuel_of s) [] pid s c)

  resolve-IsClear :
      (cgroup_id pid : ℕ) (s : AttributionRegistry)
      → IsClear s
      → IsClear (resolve cgroup_id pid s).1
  unfolding resolve
  resolve-IsClear cgroup_id pid s c =
      resolved-avoids (by_group cgroup_id s) pid s (walk (fuel_of s) [] pid s)
        (resolve-avoids cgroup_id pid s c) c

  obey-IsClear :
      (command : Command) (s : AttributionRegistry)
      → enters x command ≡ false
      → IsClear s
      → IsClear (obey s command)
  unfolding obey
  obey-IsClear (Command.enter r) s h c = register-IsClear r s h c
  obey-IsClear (Command.fork parent child) s h c = register_fork-IsClear parent child s c
  obey-IsClear (Command.leave y) s h c = unregister_keeps_IsClear y s c
  obey-IsClear (Command.attribute cgroup_id pid) s h c = resolve-IsClear cgroup_id pid s c

  run-IsClear :
      (commands : List Command) (s : AttributionRegistry)
      → All (λ c. enters x c ≡ false) commands
      → IsClear s
      → IsClear (foldl obey s commands)
  run-IsClear [] s h c = c
  run-IsClear (command ∷ commands) s h c =
      run-IsClear commands (obey s command) h.1 (obey-IsClear command s h.0 c)

-- Once an execution has been unregistered, no event is attributed to it: whatever forks,
-- registrations of other executions, unregistrations and lookups follow, in any order, `resolve`
-- does not answer with it. No entry that a fork or an earlier lookup cached outlives it.
pub unregister-resolve :
    (execution_id : Text) (s : AttributionRegistry) (commands : List Command) (cgroup_id pid : ℕ)
    → All (λ c. enters execution_id c ≡ false) commands
    → names execution_id (resolve cgroup_id pid (foldl obey (unregister execution_id s) commands)).0
      ≡ false
unregister-resolve execution_id s commands cgroup_id pid h =
    resolve-avoids execution_id cgroup_id pid (foldl obey (unregister execution_id s) commands) (
      run-IsClear execution_id commands (unregister execution_id s) h
        (unregister-IsClear execution_id s))
