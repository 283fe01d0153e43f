-- ===== src/Tracing/Registry.antt =====
-- `AttributionRegistry` of python/conflictgraph/tracing.py. Its lock makes each operation one step;
-- the walk up the parents runs on fuel.
pub mod Walk
pub mod Stale
use conflict_graph.Prelude.{
  ℕ, zero, suc, ◌+◌, Bool, true, false, not, ◌&&◌, ◌||◌, Option, none, some, List, [], ◌∷◌, ◌==◌,
  if◌then◌else◌, length, same, nat_eq, foldl, map,
}
use conflict_graph.Prelude.Text.{Text, text_eq}
use conflict_graph.Prelude.Dict.{Dict, get, put, has, select}
use conflict_graph.Prelude.Sets.{contains}

pub record ExecutionRegistration : Type 0 where
  pub execution_id : Text
  pub test_id : Text
  pub cgroup_id : ℕ
  pub process_group_id : ℕ
  pub root_pid : ℕ
  pub registered_at_ns : ℕ

pub record AttributionRegistry : Type 0 where
  pub cgroups : Dict ℕ ExecutionRegistration
  pub pids : Dict ℕ ExecutionRegistration
  pub parents : Dict ℕ ℕ

abbrev pub empty_registry : AttributionRegistry
empty_registry = record { cgroups = []; pids = []; parents = [] }

abbrev pub put_unless_zero :
    ℕ → ExecutionRegistration → Dict ℕ ExecutionRegistration → Dict ℕ ExecutionRegistration
put_unless_zero k r d = if k == 0 then d else put k r d

unfoldable pub register : ExecutionRegistration → AttributionRegistry → AttributionRegistry
register r s = record s {
  cgroups = put_unless_zero r.cgroup_id r s.cgroups;
  pids = put_unless_zero r.root_pid r s.pids;
}

abbrev pub put_found :
    ℕ → Option ExecutionRegistration → Dict ℕ ExecutionRegistration → Dict ℕ ExecutionRegistration
put_found k none d = d
put_found k (some r) d = put k r d

unfoldable pub register_fork : ℕ → ℕ → AttributionRegistry → AttributionRegistry
register_fork parent_pid child_pid s = record s {
  parents = put child_pid parent_pid s.parents;
  pids = put_found child_pid (get parent_pid s.pids) s.pids;
}

-- value.execution_id == execution_id
abbrev pub owned_by : Text → ExecutionRegistration → Bool
owned_by execution_id r = same r.execution_id execution_id

abbrev pub keys {ℓ κ} : {K : Type ℓ} {V : Type κ} → Dict K V → List K
keys d = map (λ p. p.0) d

unfoldable pub unregister : Text → AttributionRegistry → AttributionRegistry
unregister execution_id s =
    let removed = keys (select (λ k r. owned_by execution_id r) s.pids) in
    record {
      cgroups = select (λ k r. not (owned_by execution_id r)) s.cgroups;
      pids = select (λ k r. not (owned_by execution_id r)) s.pids;
      parents =
          select (λ child parent. not (contains child removed) && not (contains parent removed))
            s.parents;
    }

-- How the walk ends.
pub data Walked : Type 0 where
  out_of_fuel : Walked
  nobody : Walked
  found : ExecutionRegistration → Walked

abbrev pub or_zero : Option ℕ → ℕ
or_zero none = 0
or_zero (some p) = p

abbrev found_or : Option ExecutionRegistration → Walked → Walked
found_or none w = w
found_or (some r) w = found r

-- The while loop of `resolve`, at `current` with the pids in `seen` behind it.
unfoldable pub walk : ℕ → List ℕ → ℕ → AttributionRegistry → Walked
walk zero seen current s = out_of_fuel
walk (suc fuel) seen current s =
    let rest = walk fuel (current ∷ seen) (or_zero (get current s.parents)) s in
    if current == 0 || contains current seen then nobody else found_or (get current s.pids) rest

-- A turn for every known child, one for a pid without a parent and one for the end.
abbrev pub fuel_of : AttributionRegistry → ℕ
fuel_of s = length s.parents + 2

abbrev cached : ℕ → AttributionRegistry → Walked → Walked × AttributionRegistry
cached pid s (found r) = (found r, record s { pids = put pid r s.pids })
cached pid s w = (w, s)

abbrev pub by_group : ℕ → AttributionRegistry → Option ExecutionRegistration
by_group cgroup_id s = if cgroup_id == 0 then none else get cgroup_id s.cgroups

abbrev pub resolved :
    Option ExecutionRegistration → ℕ → AttributionRegistry → Walked → Walked × AttributionRegistry
resolved (some r) pid s w = (found r, s)
resolved none pid s w = cached pid s w

unfoldable pub resolve : ℕ → ℕ → AttributionRegistry → Walked × AttributionRegistry
unfolding walk
resolve cgroup_id pid s = resolved (by_group cgroup_id s) pid s (walk (fuel_of s) [] pid s)

-- What the tracer asks of the registry.
pub data Command : Type 0 where
  enter : ExecutionRegistration → Command
  fork : ℕ → ℕ → Command
  leave : Text → Command
  attribute : ℕ → ℕ → Command

unfoldable pub obey : AttributionRegistry → Command → AttributionRegistry
unfolding register register_fork unregister resolve
obey s (enter r) = register r s
obey s (fork parent_pid child_pid) = register_fork parent_pid child_pid s
obey s (leave execution_id) = unregister execution_id s
obey s (attribute cgroup_id pid) = (resolve cgroup_id pid s).1
