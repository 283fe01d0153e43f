-- ===== src/Samples/NodeIds.antt =====
-- A node id of pytest.
use conflict_graph.Prelude.{◌≡◌, refl, some, [], ◌∷◌}
use conflict_graph.Prelude.Int.{pos}
use conflict_graph.Prelude.Text.{codes}
use conflict_graph.Types.Stats.{TestIdentity}
use conflict_graph.Types.NodeId.{from_pytest_nodeid}
use conflict_graph.Types.NodeId.Parsed.{from_pytest_nodeid-node_id_of}
use conflict_graph.Executor.Collect.{collect, environment_of, identified}
use conflict_graph.Samples.Identifiers.{ascii_space}
use conflict_graph.Samples.Runs.{strings}

abbrev parsed : TestIdentity
parsed = from_pytest_nodeid (λ t. t) (codes "t.py::C::f[1-x]") (codes "local") (codes "r")

from_pytest_nodeid-node_id_of_example :
    (parsed.test_file ≡ codes "t.py")
    × (parsed.test_class ≡ codes "C")
    × (parsed.test_function ≡ codes "f")
    × (parsed.parameters ≡ codes "1-x")
from_pytest_nodeid-node_id_of_example =
    from_pytest_nodeid-node_id_of (λ t. t) (codes "local") (codes "r") (codes "t.py") (codes "f")
      (some (codes "C")) (some (codes "1-x")) (refl, (refl, (refl, (refl, tt)))) (refl, tt)
      ((refl, refl), tt) (refl, (refl, (refl, tt)))

-- Parameters with "::" are taken apart.
misread :
    (from_pytest_nodeid (λ t. t) (codes "t.py::f[a::b]") (codes "local") (codes "r")).test_function
    ≡ codes "b]"
unfolding from_pytest_nodeid
misread = refl

one_test :
    collect ascii_space strings
      (λ t. t)
      (some (record { returncode = pos 0; stdout = codes "t.py::f"; stderr = [] }))
    ≡ some (identified ascii_space strings (λ t. t) (codes "t.py::f") ∷ [])
unfolding collect
one_test = refl

hash_seed :
    environment_of ((codes "PATH", codes "/bin") ∷ []) ((codes "A", codes "1") ∷ [])
    ≡ (codes "PATH", codes "/bin")
      ∷ (codes "A", codes "1")
      ∷ (codes "PYTHONHASHSEED", codes "0")
      ∷ []
unfolding environment_of
hash_seed = refl
