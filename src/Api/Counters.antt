-- ===== src/Api/Counters.antt =====
-- The middleware of python/conflictgraph/api.py that counts requests by method, route and status.
use conflict_graph.Prelude.{
  ℕ, ◌+◌, ◌≡◌, arith, Option, some, none, List, [], ◌∷◌, foldl, length, keep, same, same_iff,
  pair_eq, nat_eq, if◌then◌else◌,
}
use conflict_graph.Prelude.Text.{Text, text_eq, codes, starts_with}
use conflict_graph.Prelude.Dict.{Dict, get, put, get-put}

-- The labels of a counter of requests: method, route and status.
abbrev pub Labels : Type 0
Labels = (Text × Text) × ℕ

abbrev pub route_of : Text → Text
route_of path = if starts_with (codes "/api/v1/runs/") path then codes "/api/v1/runs/{id}" else path

-- A request that came through: what call_next ended with, where `none` is an exception.
pub record Request : Type 0 where
  pub method : Text
  pub path : Text
  pub status : Option ℕ

abbrev pub status_of : Option ℕ → ℕ
status_of none = 500
status_of (some status) = status

abbrev pub labels_of : Request → Labels
labels_of r = ((r.method, route_of r.path), status_of r.status)

abbrev pub counted : Option ℕ → ℕ
counted none = 0
counted (some n) = n

-- `metrics_middleware`: the counters after a request.
unfoldable pub count_request : Request → Dict Labels ℕ → Dict Labels ℕ
count_request r counters = put (labels_of r) (counted (get (labels_of r) counters) + 1) counters

counted-put :
    (l j : Labels) (n : ℕ) (d : Dict Labels ℕ)
    → counted (get j (put l n d)) ≡ (if same l j then n else counted (get j d))
counted-put l j n d = ground (arith, get-put l j n d)

-- After some requests, the counter of three labels has gone up by the number of those with these
-- labels.
pub counted-foldl-count_request :
    (l : Labels) (requests : List Request) (counters : Dict Labels ℕ)
    → counted (get l (foldl (λ d r. count_request r d) counters requests))
      ≡ counted (get l counters) + length (keep (λ r. same (labels_of r) l) requests)
unfolding count_request
counted-foldl-count_request l [] counters = omega arith
counted-foldl-count_request l (r ∷ requests) counters = ground (
  arith,
  counted-foldl-count_request l requests (count_request r counters),
  counted-put (labels_of r) l (counted (get (labels_of r) counters) + 1) counters,
  same_iff (labels_of r) l,
)
